-- ===== src/MemBuf.antt =====
-- src/membuf.c: a text in memory that grows, with its allocated bytes. `none` is a write behind the
-- allocated bytes, or an end of the program by `abort`. What new bytes of `realloc` and `malloc` hold is
-- not known: it is a parameter, by the position.
pub mod Refinement
pub mod Splices
use filemanager_httpd.Common.{
  ℕ, zero, suc, ◌+◌, ◌-◌, ◌*◌, ◌/◌, ◌%◌, ◌^◌, ◌≤◌, ◌<◌, min, ◌≡◌, refl, sym, ap, ◌∙◌, ◌≢◌, ◌↔◌, ◌⊎◌,
  inl, inr, Bool, true, false, not, ◌&&◌, ◌||◌, Option, none, some, List, [], ◌∷◌, ◌++◌, map,
  append-nil, append_assoc, arith, ltb, leb, ◌==◌, if◌then◌else◌, ltb→lt, lt→ltb, le→ltb, leb→le,
  ==_iff, Bool-cases, Option-cases, length, get_elem?, get_or, take, drop, replicate, is_empty, All,
  length-append, take-append-drop, length-drop, All-append,
}
use filemanager_httpd.Common.Strings.{
  Bytes, codes, take_while, drop_while, trim_end, c_str, split_chr, contains_chr, equal, to_lower,
  equal_ignore_case, starts_with, starts_with_ignore_case,
}

pub record MemBuf : Type 0 where
  pub mem : Bytes
  pub data_len : ℕ

-- `unsigned`
abbrev pub u32 : ℕ → ℕ
u32 n = n % 2 ^ 32

-- `memcpy` and the like to `data + offset`
unfoldable pub copy_to : ℕ → Bytes → Bytes → Option Bytes
copy_to offset src mem =
    if leb (offset + length src) (length mem)
    then some (take offset mem ++ (src ++ drop (offset + length src) mem))
    else none

module _ (fresh : ℕ → ℕ) where
  unfoldable pub fresh_bytes : ℕ → ℕ → Bytes
  fresh_bytes zero at_ = []
  fresh_bytes (suc n) at_ = fresh at_ ∷ fresh_bytes n (suc at_)

  unfoldable pub realloc : Bytes → ℕ → Bytes
  unfolding fresh_bytes
  realloc mem size = take size mem ++ fresh_bytes (size - length mem) (length mem)

  abbrev pub with_data : ℕ → Option Bytes → Option MemBuf
  with_data data_len none = none
  with_data data_len (some mem) = some (record { mem = mem; data_len = data_len })

  abbrev pub then_copy : ℕ → Bytes → Option Bytes → Option Bytes
  then_copy offset src none = none
  then_copy offset src (some mem) = copy_to offset src mem

  -- `mb_new`
  unfoldable pub new : Option MemBuf
  unfolding realloc copy_to
  new = with_data 0 (copy_to 0 (0 ∷ []) (realloc [] 1))

  -- `mb_newWithStr`; its text is a C string.
  unfoldable pub new_with_str : Bytes → Option MemBuf
  unfolding realloc copy_to
  new_with_str str =
      with_data (length str) (copy_to 0 (str ++ 0 ∷ []) (realloc [] (length str + 1)))

  -- `mb_appendData`, and `mb_appendStr` and `mb_appendChunk` for their bytes
  unfoldable pub append_data : Bytes → MemBuf → Option MemBuf
  append_data bytes mb =
      let data_len = u32 (mb.data_len + length bytes) in
      with_data data_len (
        then_copy data_len (0 ∷ [])
          (copy_to mb.data_len bytes (realloc mb.mem (u32 (mb.data_len + length bytes + 1)))))

  abbrev and_append : Option MemBuf → Bytes → Option MemBuf
  and_append none bytes = none
  and_append (some mb) bytes = append_data bytes mb

  -- `mb_appendStrL`
  unfoldable pub append_str_l : List Bytes → Option MemBuf → Option MemBuf
  unfolding append_data
  append_str_l [] mb = mb
  append_str_l (str ∷ strs) mb = append_str_l strs (and_append mb str)

  -- `mb_endsWithStr`
  unfoldable pub ends_with_str : Bytes → MemBuf → Bool
  unfolding equal
  ends_with_str str mb =
      leb (length str) mb.data_len
      && equal (take (length str) (drop (mb.data_len - length str) mb.mem)) str

  -- `mb_ensureEndsWithSlash`
  unfoldable pub ensure_ends_with_slash : MemBuf → Option MemBuf
  unfolding append_data
  ensure_ends_with_slash mb =
      if mb.data_len == 0 || not (get_or mb.mem (mb.data_len - 1) 0 == b'/')
      then append_data (codes "/") mb
      else some mb

  -- `mb_resize`
  unfoldable pub resize : ℕ → MemBuf → Option MemBuf
  unfolding realloc copy_to
  resize new_size mb =
      with_data new_size (copy_to new_size (0 ∷ []) (realloc mb.mem (u32 (new_size + 1))))

  -- `mb_setData`, and `mb_readFile` for the bytes that are read
  unfoldable pub set_data : ℕ → Bytes → MemBuf → Option MemBuf
  set_data offset bytes mb =
      if ltb mb.data_len (u32 (offset + length bytes))
      then none
      else with_data mb.data_len (copy_to offset bytes mb.mem)

  -- `mb_setStrEnd`: the terminating zero is counted in the length, and no byte follows it.
  unfoldable pub set_str_end : ℕ → Bytes → MemBuf → Option MemBuf
  unfolding realloc copy_to
  set_str_end offset str mb =
      let data_len = u32 (offset + (length str + 1)) in
      with_data data_len (copy_to offset (str ++ 0 ∷ []) (realloc mb.mem data_len))

  -- `mb_fillWithZeros`
  unfoldable pub fill_with_zeros : ℕ → ℕ → MemBuf → Option MemBuf
  unfolding set_data
  fill_with_zeros offset len mb = set_data offset (replicate len 0) mb
