-- ===== src/HeaderLines/Steps.antt =====
-- The rounds of the loop over header lines of src/dataheader.c and src/requestheader.c, one by one.
use filemanager_httpd.Common.{
  ℕ, zero, suc, ◌≤◌, ◌≡◌, refl, sym, ap, ◌∙◌, inl, inr, Bool, none, some, [], ◌∷◌, ◌++◌, arith,
  if◌then◌else◌, Option-cases, length, All, length-append,
}
use filemanager_httpd.Common.Strings.{Bytes, c_str, split_chr}
use filemanager_httpd.Common.Strings.Laws.{is_not, split_chr-some}
use filemanager_httpd.HeaderLines.{strip_cr, LineStore, append_loop}

pub record IsLawful {S : Type 0} (L : LineStore S) : Type 0 where
  pub current-set : (b : Bytes) (s : S) → L.current (L.set_current b s) ≡ b
  pub set-set : (b c : Bytes) (s : S) → L.set_current b (L.set_current c s) ≡ L.set_current b s
  pub end_line-set : (b c : Bytes) (s : S) → L.end_line b (L.set_current c s) ≡ L.end_line b s
  pub end_line-current :
      (b : Bytes) (s : S) → All (is_not 0) b → All (is_not 0) (L.current (L.end_line b s).0)

pub strip_cr-All : (b : Bytes) → All (is_not 0) b → All (is_not 0) (strip_cr b)
unfolding strip_cr
strip_cr-All [] h = tt
strip_cr-All (c ∷ []) h = ground arith
strip_cr-All (c ∷ d ∷ ds) h = (h.0, strip_cr-All (d ∷ ds) h.1)

pub All-split :
    (p : ℕ → Bool) (a : Bytes) (c : ℕ) (b : Bytes) → All p (a ++ (c ∷ b)) → All p a × All p b
All-split p [] c b h = (tt, h.1)
All-split p (x ∷ a) c b h = ((h.0, (All-split p a c b h.1).0), (All-split p a c b h.1).1)

module _ {S : Type 0} (L : LineStore S) where
  abbrev pub ended : S → Bytes → S × Bool
  ended s line = L.end_line (strip_cr (c_str (L.current s) ++ line)) s

  pub loop_none :
      (f : ℕ) (s : S) (c : ℕ) (cs : Bytes)
      → split_chr b'\n' (c ∷ cs) ≡ none
      → append_loop L (suc f) s (c ∷ cs) ≡ (L.set_current (c_str (L.current s) ++ (c ∷ cs)) s, none)
  unfolding append_loop
  loop_none f s c cs e = rw (e, append_loop)

  pub loop_some :
      (f : ℕ) (s : S) (c : ℕ) (cs : Bytes) {line rest : Bytes}
      → split_chr b'\n' (c ∷ cs) ≡ some (line, rest)
      → append_loop L (suc f) s (c ∷ cs) ≡ (
          if (ended s line).1
          then ((ended s line).0, some rest)
          else append_loop L f (ended s line).0 rest)
  unfolding append_loop
  loop_some f s c cs e = rw (e, append_loop)

  pub loop_nil : (f : ℕ) (s : S) → append_loop L f s [] ≡ (s, none)
  unfolding append_loop
  loop_nil zero s = refl
  loop_nil (suc f) s = refl

  pub shorter :
      (f : ℕ) (bs : Bytes) {line rest : Bytes}
      → split_chr b'\n' bs ≡ some (line, rest)
      → length bs ≤ suc f
      → length rest ≤ f
  shorter f bs {line} {rest} e h =
      omega (arith, ap length (split_chr-some b'\n' bs e).0, length-append line (b'\n' ∷ rest))

  -- All fuels that are at least the number of bytes give the same result.
  pub loop_fuel :
      (f g : ℕ) (s : S) (bs : Bytes)
      → length bs ≤ f
      → length bs ≤ g
      → append_loop L f s bs ≡ append_loop L g s bs
  loop_fuel f g s [] h k = loop_nil f s ∙ sym (loop_nil g s)
  loop_fuel zero g s (c ∷ cs) h k = elim h [ ]
  loop_fuel (suc f) zero s (c ∷ cs) h k = elim k [ ]
  loop_fuel (suc f) (suc g) s (c ∷ cs) h k = elim (Option-cases (split_chr b'\n' (c ∷ cs))) [
    | inl e ↦ loop_none f s c cs e ∙ sym (loop_none g s c cs e)
    | inr ((line, rest), e) ↦
        loop_some f s c cs e
        ∙ ap (λ r. if (ended s line).1 then ((ended s line).0, some rest) else r)
            (loop_fuel f g (ended s line).0 rest (shorter f (c ∷ cs) e h) (shorter g (c ∷ cs) e k))
        ∙ sym (loop_some g s c cs e)
  ]
