-- ===== src/MultipartData/Termination.antt =====
-- The loop of `mpdata_appendData` in src/multipartdata.c ends within the rounds that the model gives it.
use filemanager_httpd.Common.{
  ℕ, zero, suc, ◌≤◌, ◌<◌, ◌≡◌, refl, sym, Option, none, some, [], ◌∷◌, ◌++◌, arith, length,
  length-append, length-drop,
}
use filemanager_httpd.Common.Strings.{Bytes, split_chr}
use mathlib.Core.Path.{subst}
use filemanager_httpd.Common.Strings.Laws.{split_chr-some}
use filemanager_httpd.MultipartData.{
  MultipartData, ParsePosition, pp_body, pp_got_boundary, pp_got_ws, split_delim, take_part,
  skip_line, round, parse_loop,
}

split_delim-length : (delim bytes : Bytes) → length (split_delim delim bytes).1 ≤ length bytes
unfolding split_delim
split_delim-length delim [] = omega arith
split_delim-length delim (c ∷ cs) = let h = split_delim-length delim cs in ground (arith, h)

split_chr-length :
    (c : ℕ) (bytes a b : Bytes) → split_chr c bytes ≡ some (a, b) → length b < length bytes
split_chr-length c bytes a b h =
    let e = (split_chr-some c bytes h).0 in
    let l = length-append a (c ∷ b) in subst (λ t. length b < length t) (sym e) (omega arith)

-- Rounds from a state and its data to the state in which no data is left.
pub data Ends {P : Type 0} (new_part : P) (append_part : P → Bytes → P) (delim : Bytes)
    : MultipartData P → Bytes → MultipartData P → Type 0 where
  taken : {mp : MultipartData P} → Ends new_part append_part delim mp [] mp
  further :
      {mp last : MultipartData P} {c : ℕ} {cs : Bytes}
      → Ends new_part append_part delim
          (round new_part append_part delim mp (c ∷ cs) mp.parse_pos).0
          (round new_part append_part delim mp (c ∷ cs) mp.parse_pos).1
          last
      → Ends new_part append_part delim mp (c ∷ cs) last

module _ {P : Type 0} (new_part : P) (append_part : P → Bytes → P) (delim : Bytes)
    (delim_bytes : 0 < length delim) where
  take_part_shorter :
      (mp : MultipartData P) (bytes : Bytes)
      → 0 < length bytes
      → length (take_part new_part append_part delim mp bytes).1 < length bytes
  unfolding take_part
  take_part_shorter mp bytes n =
      let h = split_delim-length delim bytes in
      let d = length-drop (length delim) (split_delim delim bytes).1 in
      ground (arith, h, d, n, delim_bytes)

  skip_line_shorter :
      (mp : MultipartData P) (bytes : Bytes) (o : Option (Bytes × Bytes))
      → 0 < length bytes
      → split_chr b'\n' bytes ≡ o
      → length (skip_line new_part append_part delim mp o).1 < length bytes
  unfolding skip_line
  skip_line_shorter mp bytes none n h = n
  skip_line_shorter mp bytes (some (line, [])) n h = n
  skip_line_shorter mp bytes (some (line, c ∷ cs)) n h =
      let t = take_part_shorter mp (c ∷ cs) (omega arith) in
      let s = split_chr-length b'\n' bytes line (c ∷ cs) h in omega arith

  round_shorter :
      (mp : MultipartData P) (bytes : Bytes) (pos : ParsePosition)
      → 0 < length bytes
      → length (round new_part append_part delim mp bytes pos).1 < length bytes
  unfolding round
  round_shorter mp bytes pp_body n = take_part_shorter mp bytes n
  round_shorter mp bytes pp_got_ws n = skip_line_shorter mp bytes (split_chr b'\n' bytes) n refl
  round_shorter mp bytes pp_got_boundary n =
      let s =
        skip_line_shorter (record mp { parts = mp.parts ++ new_part ∷ [] }) bytes
          (split_chr b'\n' bytes) n refl in
      ground (arith, s, n)

  -- With a delimiter that is not empty, the loop ends, for any data and at any position: as many rounds
  -- as there are bytes take all of the data, and with fuel for one more the loop leaves the state behind
  -- the last of them.
  pub parse_loop-Ends :
      (fuel : ℕ) (mp : MultipartData P) (bytes : Bytes)
      → length bytes < fuel
      → Ends new_part append_part delim mp bytes
          (parse_loop new_part append_part fuel delim mp bytes)
  unfolding parse_loop
  parse_loop-Ends zero mp bytes h = absurd (omega arith)
  parse_loop-Ends (suc fuel) mp [] h = taken
  parse_loop-Ends (suc fuel) mp (c ∷ cs) h =
      let s = round_shorter mp (c ∷ cs) mp.parse_pos (omega arith) in
      further (
        parse_loop-Ends fuel (round new_part append_part delim mp (c ∷ cs) mp.parse_pos).0
          (round new_part append_part delim mp (c ∷ cs) mp.parse_pos).1 (omega arith))
