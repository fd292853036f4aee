-- ===== src/HeaderLines/Streaming.antt =====
-- The cut into pieces in which header text arrives makes no difference, unless the text holds zero
-- bytes.
use filemanager_httpd.Common.{
  ℕ, zero, suc, ◌+◌, ◌-◌, ◌≤◌, ◌≡◌, refl, sym, ap, ◌∙◌, inl, inr, Bool, true, false, Option, none,
  some, [], ◌∷◌, ◌++◌, append-nil, append_assoc, arith, if◌then◌else◌, Option-cases, length, All,
  length-append, All-append,
}
use filemanager_httpd.Common.Strings.{Bytes, c_str, split_chr}
use filemanager_httpd.Common.Strings.Laws.{
  is_not, split_chr-some, split_chr-none, split_chr-append, split_chr-absent, split_chr-append_left,
  c_str-All,
}
use mathlib.Core.Path.{subst}
use filemanager_httpd.HeaderLines.{strip_cr, LineStore, append_loop, append_data}
use filemanager_httpd.HeaderLines.Steps.{
  IsLawful, strip_cr-All, All-split, ended, loop_none, loop_some, loop_nil, shorter, loop_fuel,
}

-- Reading `b` behind `a`, from what reading `a` has left.
abbrev pub then_read :
    {S : Type 0} → (S → Bytes → S × Option Bytes) → S × Option Bytes → Bytes → S × Option Bytes
then_read f (s, none) b = f s b
then_read f (s, some rest) b = (s, some (rest ++ b))

-- Appending `b` behind the first piece of the joined text, which is that long; the bytes are counted
-- from the joined text's start.
abbrev pub then_append :
    {S : Type 0} → ℕ → (S → Bytes → S × Option ℕ) → S × Option ℕ → Bytes → S × Option ℕ
then_append n f (s, some taken) b = (s, some taken)
then_append n f (s, none) b =
    let r = f s b in (r.0, elim r.1 [ none ↦ none | some taken ↦ some (n + taken) ])

module _ {S : Type 0} (L : LineStore S) (W : IsLawful L) where
  module _ (s : S) (a : Bytes) (clean : All (is_not 0) (L.current s)) (n : All (is_not 0) a) where
    abbrev kept : S
    kept = L.set_current (L.current s ++ a) s

    c_str-kept : c_str (L.current kept) ≡ L.current s ++ a
    c_str-kept =
        ap c_str (W.current-set (L.current s ++ a) s)
        ∙ c_str-All (L.current s ++ a) (All-append (is_not 0) (L.current s) a clean n)

    joined : (b : Bytes) → c_str (L.current s) ++ (a ++ b) ≡ c_str (L.current kept) ++ b
    joined b =
        ap (λ r. r ++ (a ++ b)) (c_str-All (L.current s) clean)
        ∙ sym (append_assoc (L.current s) a b)
        ∙ ap (λ r. r ++ b) (sym c_str-kept)

    ended-kept : (line : Bytes) → ended L s (a ++ line) ≡ ended L kept line
    ended-kept line =
        ap (λ r. L.end_line (strip_cr r) s) (joined line)
        ∙ sym (W.end_line-set (strip_cr (c_str (L.current kept) ++ line)) (L.current s ++ a) s)

  -- The bytes of `a` stand in the incomplete line; the end of the line is in `b`, if anywhere.
  join :
      (f g : ℕ) (s : S) (c : ℕ) (cs b : Bytes)
      → split_chr b'\n' (c ∷ cs) ≡ none
      → length ((c ∷ cs) ++ b) ≤ suc f
      → length b ≤ g
      → All (is_not 0) (L.current s)
      → All (is_not 0) (c ∷ cs)
      → append_loop L (suc f) s ((c ∷ cs) ++ b)
        ≡ append_loop L g (L.set_current (L.current s ++ (c ∷ cs)) s) b
  join f g s c cs [] e h k clean n = rw append-nil (
      loop_none L f s c cs e
      ∙ ap (λ r. (L.set_current (r ++ (c ∷ cs)) s, none)) (c_str-All (L.current s) clean)
      ∙ sym (loop_nil L g _))
  join f zero s c cs (d ∷ ds) e h k clean n = elim k [ ]
  join f (suc g) s c cs (d ∷ ds) e h k clean n = elim (Option-cases (split_chr b'\n' (d ∷ ds))) [
    | inl e' ↦
        loop_none L f s c (cs ++ (d ∷ ds)) (
          split_chr-absent b'\n' ((c ∷ cs) ++ (d ∷ ds)) (
            All-append (is_not b'\n') (c ∷ cs) (d ∷ ds) (split_chr-none b'\n' (c ∷ cs) e)
              (split_chr-none b'\n' (d ∷ ds) e')))
        ∙ ap (λ r. (L.set_current r s, none)) (joined s (c ∷ cs) clean n (d ∷ ds))
        ∙ ap (λ r. (r, none)) (sym (W.set-set _ (L.current s ++ (c ∷ cs)) s))
        ∙ sym (loop_none L g (kept s (c ∷ cs) clean n) d ds e')
    | inr ((line, rest), e') ↦
        loop_some L f s c (cs ++ (d ∷ ds))
          (split_chr-append_left b'\n' (c ∷ cs) (d ∷ ds) (split_chr-none b'\n' (c ∷ cs) e) e')
        ∙ ap (λ (r : S × Bool). if r.1 then (r.0, some rest) else append_loop L f r.0 rest)
            (ended-kept s (c ∷ cs) clean n line)
        ∙ ap
            (λ r.
              if (ended L (kept s (c ∷ cs) clean n) line).1
              then ((ended L (kept s (c ∷ cs) clean n) line).0, some rest)
              else r)
            (loop_fuel L f g _ rest
              (omega
                (arith, length-append cs (d ∷ ds), shorter L (length ds) (d ∷ ds) e' (omega arith)))
              (shorter L g (d ∷ ds) e' k))
        ∙ sym (loop_some L g (kept s (c ∷ cs) clean n) d ds e')
  ]

  ended-clean :
      (s : S) (line : Bytes)
      → All (is_not 0) (L.current s)
      → All (is_not 0) line
      → All (is_not 0) (L.current (ended L s line).0)
  ended-clean s line clean n = W.end_line-current _ s (
      strip_cr-All _ (
        All-append (is_not 0) _ line
          (subst (All (is_not 0)) (sym (c_str-All (L.current s) clean)) clean) n))

  split_rest :
      (bs b : Bytes) {line rest : Bytes}
      → split_chr b'\n' bs ≡ some (line, rest)
      → split_chr b'\n' (bs ++ b) ≡ some (line, rest ++ b)
  split_rest bs b {line} {rest} e =
      let cut = split_chr-some b'\n' bs e in
      ap (λ r. split_chr b'\n' (r ++ b)) cut.0
      ∙ ap (split_chr b'\n') (append_assoc line (b'\n' ∷ rest) b)
      ∙ split_chr-append b'\n' line (rest ++ b) cut.1

  branch :
      (f g h : ℕ) (r : S × Bool) (rest b : Bytes)
      → append_loop L f r.0 (rest ++ b) ≡ then_read (append_loop L h) (append_loop L g r.0 rest) b
      → (if r.1 then (r.0, some (rest ++ b)) else append_loop L f r.0 (rest ++ b))
        ≡ then_read (append_loop L h) (if r.1 then (r.0, some rest) else append_loop L g r.0 rest) b
  branch f g h (s, true) rest b e = refl
  branch f g h (s, false) rest b e = e

  -- Reading two pieces one after the other gives what reading them joined gives.
  loop_split :
      (f g h : ℕ) (s : S) (a b : Bytes)
      → length (a ++ b) ≤ f
      → length a ≤ g
      → length b ≤ h
      → All (is_not 0) (L.current s)
      → All (is_not 0) a
      → append_loop L f s (a ++ b) ≡ then_read (append_loop L h) (append_loop L g s a) b
  loop_split f g h s [] b p q r clean n =
      loop_fuel L f h s b p r ∙ ap (λ t. then_read (append_loop L h) t b) (sym (loop_nil L g s))
  loop_split zero g h s (c ∷ cs) b p q r clean n = elim p [ ]
  loop_split (suc f) zero h s (c ∷ cs) b p q r clean n = elim q [ ]
  loop_split (suc f) (suc g) h s (c ∷ cs) b p q r clean n =
      elim (Option-cases (split_chr b'\n' (c ∷ cs))) [
        | inl e ↦
            join f h s c cs b e p r clean n
            ∙ ap (λ t. append_loop L h (L.set_current (t ++ (c ∷ cs)) s) b)
                (sym (c_str-All (L.current s) clean))
            ∙ ap (λ t. then_read (append_loop L h) t b) (sym (loop_none L g s c cs e))
        | inr ((line, rest), e) ↦
            let cut = split_chr-some b'\n' (c ∷ cs) e in
            let parts = All-split (is_not 0) line b'\n' rest (subst (All (is_not 0)) cut.0 n) in
            loop_some L f s c (cs ++ b) (split_rest (c ∷ cs) b e)
            ∙ branch f g h (ended L s line) rest b (
                loop_split f g h (ended L s line).0 rest b
                  (shorter L f ((c ∷ cs) ++ b) (split_rest (c ∷ cs) b e) p)
                  (shorter L g (c ∷ cs) e q) r (ended-clean s line clean parts.0) parts.1)
            ∙ ap (λ t. then_read (append_loop L h) t b) (sym (loop_some L g s c cs e))
      ]

  rest-le :
      (f : ℕ) (s : S) (bs : Bytes) {rest : Bytes}
      → (append_loop L f s bs).1 ≡ some rest
      → length rest ≤ length bs
  rest-le f s [] e = cc (loop_nil L f s)
  rest-le zero s (c ∷ cs) e = unfold append_loop in cc
  rest-le (suc f) s (c ∷ cs) {rest} e = elim (Option-cases (split_chr b'\n' (c ∷ cs))) [
    | inl n ↦ cc (loop_none L f s c cs n)
    | inr ((line, more), n) ↦
        within (ended L s line) more (shorter L (length cs) (c ∷ cs) n (omega arith))
          (rest-le f (ended L s line).0 more) (rw (loop_some L f s c cs n) at e)
  ]
    where
      within :
          (t : S × Bool) (more : Bytes)
          → length more ≤ length cs
          → ((append_loop L f t.0 more).1 ≡ some rest → length rest ≤ length more)
          → (if t.1 then (t.0, some more) else append_loop L f t.0 more).1 ≡ some rest
          → length rest ≤ suc (length cs)
      within (u, true) more l ih q = ground arith
      within (u, false) more l ih q = omega (arith, ih q)

  count_none :
      (q : S × Option Bytes) (a b : Bytes)
      → ((rest : Bytes) → q.1 ≡ some rest → length rest ≤ length b)
      → ◌≡◌ {A = S × Option ℕ}
          (q.0, elim q.1 [ none ↦ none | some rest ↦ some (length (a ++ b) - length rest) ])
          (
            q.0,
            elim (elim q.1 as (λ _. Option ℕ) [
              | none ↦ none
              | some rest ↦ some (length b - length rest)
            ]) [ none ↦ none | some taken ↦ some (length a + taken) ],
          )
  count_none (s, none) a b h = refl
  count_none (s, some rest) a b h =
      ap (λ n. (s, some n)) (omega (arith, h rest refl, length-append a b))

  counted :
      (r : S × Option Bytes) (a b : Bytes)
      → ((rest : Bytes) → r.1 ≡ some rest → length rest ≤ length a)
      → (let q = then_read (append_loop L (length b)) r b in
          ◌≡◌ {A = S × Option ℕ}
            (q.0, elim q.1 [ none ↦ none | some rest ↦ some (length (a ++ b) - length rest) ])
            (then_append
              (length a)
              (append_data L)
              (r.0, elim r.1 [ none ↦ none | some rest ↦ some (length a - length rest) ])
              b))
  unfolding append_data
  counted (s, none) a b h =
      count_none (append_loop L (length b) s b) a b (λ rest e. rest-le (length b) s b e)
  counted (s, some rest) a b h =
      ap (λ n. (s, some n)) (omega (arith, h rest refl, length-append a b, length-append rest b))

  -- Header text may be cut at any place: to append `a`, and then `b` unless the header was complete
  -- in `a`, leaves the state and counts the bytes as to append both at once does. The bytes
  -- of `a`, and of the line that was begun before, hold no zero byte.
  pub append_data_split :
      (s : S) (a b : Bytes)
      → All (is_not 0) (L.current s)
      → All (is_not 0) a
      → append_data L s (a ++ b) ≡ then_append (length a) (append_data L) (append_data L s a) b
  unfolding append_data
  append_data_split s a b clean n =
      ap
        (λ (q : S × Option Bytes). (
          q.0,
          elim q.1 as (λ _. Option ℕ) [
            | none ↦ none
            | some rest ↦ some (length (a ++ b) - length rest)
          ],
        ))
        (loop_split (length (a ++ b)) (length a) (length b) s a b (omega arith) (omega arith)
          (omega arith) clean n)
      ∙ counted (append_loop L (length a) s a) a b (λ rest e. rest-le (length a) s a e)
