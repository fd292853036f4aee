-- ===== src/MemBuf/Refinement.antt =====
-- src/membuf.c as an implementation of texts: the buffer holds the text and a zero byte behind it.
use filemanager_httpd.Common.{
  ℕ, zero, suc, ◌+◌, ◌-◌, ◌^◌, ◌≤◌, ◌<◌, ◌≡◌, refl, sym, ap, ◌∙◌, ◌⊎◌, inl, inr, true, false,
  Option, none, some, [], ◌∷◌, ◌++◌, append_assoc, arith, ltb, leb, if◌then◌else◌, lt→ltb, le→ltb,
  leb→le, Bool-cases, length, take, drop, replicate, length-append, length-drop,
}
use filemanager_httpd.Common.Strings.{Bytes}
use mathlib.Core.Path.{subst}
use filemanager_httpd.MemBuf.Splices.{
  take_long, le→leb, u32_small, empty-of, take-left, length-spliced, drop-left, copy_behind,
}
use filemanager_httpd.MemBuf.{
  MemBuf, copy_to, fresh_bytes, realloc, with_data, then_copy, append_data, set_data,
  fill_with_zeros,
}

-- The buffer stands for the text: nothing else is allocated than the text and a zero byte.
pub record Represents (mb : MemBuf) (text : Bytes) : Type 0 where
  pub holds : mb.mem ≡ text ++ (0 ∷ [])
  pub counts : mb.data_len ≡ length text

abbrev pub Refines : Option MemBuf → Option Bytes → Type 0
Refines none none = Unit
Refines (some mb) (some text) = Represents mb text
Refines _ _ = true ≡ false

module _ (fresh : ℕ → ℕ) where
  length-fresh_bytes : (n i : ℕ) → length (fresh_bytes fresh n i) ≡ n
  unfolding fresh_bytes
  length-fresh_bytes zero i = refl
  length-fresh_bytes (suc n) i = ap suc (length-fresh_bytes n (suc i))

  -- What `append_data` makes: the new bytes, of which the first ones replace the zero byte, and a zero
  -- byte behind them.
  copied :
      (text bytes rest : Bytes)
      → length rest ≡ length bytes
      → then_copy fresh
          (length text + length bytes)
          (0 ∷ [])
          (copy_to (length text) bytes ((text ++ (0 ∷ [])) ++ rest))
        ≡ some ((text ++ bytes) ++ (0 ∷ []))
  copied text bytes rest h =
      let left = drop (length bytes) (0 ∷ rest) in
      let one = length-drop (length bytes) (0 ∷ rest) in
      let none_left = length-drop 1 left in
      let sum = length-append text bytes in
      ap
        (λ l. then_copy fresh (length text + length bytes) (0 ∷ []) (copy_to (length text) bytes l))
        (append_assoc text (0 ∷ []) rest)
      ∙ (ap (then_copy fresh (length text + length bytes) (0 ∷ [])) (
            copy_behind text bytes (0 ∷ rest) (omega arith)
            ∙ ap some (sym (append_assoc text bytes left)))
          ∙ (ap (λ n. copy_to n (0 ∷ []) ((text ++ bytes) ++ left)) (sym sum)
              ∙ (copy_behind (text ++ bytes) (0 ∷ []) left (omega arith)
                  ∙ ap (λ l. some ((text ++ bytes) ++ (0 ∷ l)))
                      (empty-of (drop 1 left) (omega arith)))))

  realloc_grows :
      (text : Bytes) (n : ℕ)
      → realloc fresh (text ++ (0 ∷ [])) (length text + n + 1)
        ≡ (text ++ (0 ∷ [])) ++ fresh_bytes fresh n (length (text ++ (0 ∷ [])))
  unfolding realloc
  realloc_grows text n =
      let l = length-append text (0 ∷ []) in
      rw
        (
          take_long (length text + n + 1) (text ++ (0 ∷ [])) (omega arith),
          grown (length (text ++ (0 ∷ []))) l,
        )
        refl
    where
      grown : (m : ℕ) → m ≡ length text + 1 → length text + n + 1 - m ≡ n
      grown m e = omega arith

  append_data-Refines :
      (bytes text : Bytes) (mb : MemBuf)
      → length text + length bytes + 1 < 2 ^ 32
      → Represents mb text
      → Refines (append_data fresh bytes mb) (some (text ++ bytes))
  unfolding append_data
  append_data-Refines bytes text mb h r =
      subst (λ o. Refines o (some (text ++ bytes))) (sym made)
        (record { holds = refl; counts = sym (length-append text bytes) })
    where
      sum : ℕ
      sum = length text + length bytes

      made :
          append_data fresh bytes mb
          ≡ some (record { mem = (text ++ bytes) ++ (0 ∷ []); data_len = sum })
      made =
          rw
            (
              r.counts,
              r.holds,
              u32_small sum (omega arith),
              u32_small (sum + 1) h,
              realloc_grows text (length bytes),
            )
            (ap (with_data fresh sum)
              (copied text bytes _ (length-fresh_bytes (length bytes) (length (text ++ (0 ∷ []))))))

  -- The texts that the operations are to make; `none` is an end by `abort`.
  abbrev pub set_text : ℕ → Bytes → Bytes → Option Bytes
  set_text offset bytes text =
      if leb (offset + length bytes) (length text)
      then some (take offset text ++ (bytes ++ drop (offset + length bytes) text))
      else none

  set_data-Refines :
      (offset : ℕ) (bytes text : Bytes) (mb : MemBuf)
      → offset + length bytes < 2 ^ 32
      → Represents mb text
      → Refines (set_data fresh offset bytes mb) (set_text offset bytes text)
  unfolding set_data copy_to
  set_data-Refines offset bytes text mb h r =
      rw (r.counts, r.holds, u32_small (offset + length bytes) h)
        (go (Bool-cases (leb (offset + length bytes) (length text))))
    where
      stored : Option MemBuf
      stored =
          if ltb (length text) (offset + length bytes)
          then none
          else with_data fresh (length text) (copy_to offset bytes (text ++ (0 ∷ [])))

      spliced : Bytes
      spliced = take offset text ++ (bytes ++ drop (offset + length bytes) text)

      copies :
          offset + length bytes ≤ length text
          → copy_to offset bytes (text ++ (0 ∷ [])) ≡ some (spliced ++ (0 ∷ []))
      copies k =
          let l = length-append text (0 ∷ []) in
          rw
            (
              le→leb (offset + length bytes) (length (text ++ (0 ∷ []))) (omega arith),
              take-left offset text (0 ∷ []) (omega arith),
              drop-left (offset + length bytes) text (0 ∷ []) k,
            )
            (ap some (
              ap (λ t. take offset text ++ t)
                (sym (append_assoc bytes (drop (offset + length bytes) text) (0 ∷ [])))
              ∙ sym (
                  append_assoc (take offset text) (bytes ++ drop (offset + length bytes) text)
                    (0 ∷ []))))

      fits : offset + length bytes ≤ length text → Refines stored (set_text offset bytes text)
      fits k =
          rw
            (
              le→ltb (length text) (offset + length bytes) k,
              copies k,
              le→leb (offset + length bytes) (length text) k,
            )
            (record { holds = refl; counts = sym (length-spliced offset bytes text k) })

      go :
          ((leb (offset + length bytes) (length text) ≡ true)
            ⊎ (leb (offset + length bytes) (length text) ≡ false))
          → Refines stored (set_text offset bytes text)
      go (inl e) = fits (leb→le (offset + length bytes) (length text) e)
      go (inr e) = rw (lt→ltb (length text) (offset + length bytes) (ground (arith, e)), e) tt

-- What is done with a buffer, and with the text that it stands for.
pub data Op : Type 0 where
  append_op : Bytes → Op
  set_op : ℕ → Bytes → Op
  zeros_op : ℕ → ℕ → Op

abbrev pub run_op : (ℕ → ℕ) → Op → MemBuf → Option MemBuf
run_op fresh (append_op bytes) mb = append_data fresh bytes mb
run_op fresh (set_op offset bytes) mb = set_data fresh offset bytes mb
run_op fresh (zeros_op offset len) mb = fill_with_zeros fresh offset len mb

abbrev pub text_op : (ℕ → ℕ) → Op → Bytes → Option Bytes
text_op fresh (append_op bytes) text = some (text ++ bytes)
text_op fresh (set_op offset bytes) text = set_text fresh offset bytes text
text_op fresh (zeros_op offset len) text = set_text fresh offset (replicate len 0) text

abbrev zeros : ℕ → Bytes
zeros len = replicate len 0

-- The lengths of the operation stay below 2^32.
abbrev pub IsSmall : Op → Bytes → Type 0
IsSmall (append_op bytes) text = length text + length bytes + 1 < 2 ^ 32
IsSmall (set_op offset bytes) text = offset + length bytes < 2 ^ 32
IsSmall (zeros_op offset len) text = offset + length (zeros len) < 2 ^ 32

-- A buffer does what the text that it stands for does, whatever new memory holds, as long as the lengths
-- stay below 2^32: an append puts bytes behind, the others put bytes or zeros in the place of others,
-- or end the program where there are not enough; nothing is written behind the allocated bytes.
pub run_op-Refines :
    (fresh : ℕ → ℕ) (op : Op) (mb : MemBuf) (text : Bytes)
    → IsSmall op text
    → Represents mb text
    → Refines (run_op fresh op mb) (text_op fresh op text)
unfolding fill_with_zeros
run_op-Refines fresh (append_op bytes) mb text h r = append_data-Refines fresh bytes text mb h r
run_op-Refines fresh (set_op offset bytes) mb text h r =
    set_data-Refines fresh offset bytes text mb h r
run_op-Refines fresh (zeros_op offset len) mb text h r =
    set_data-Refines fresh offset (replicate len 0) text mb h r
