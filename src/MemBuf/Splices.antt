-- ===== src/MemBuf/Splices.antt =====
-- Parts of texts, as src/membuf.c copies them.
use filemanager_httpd.Common.{
  ℕ, zero, suc, ◌+◌, ◌^◌, ◌≤◌, ◌<◌, ◌≡◌, refl, ap, ◌∙◌, true, some, [], ◌∷◌, ◌++◌, arith, leb,
  length, take, drop, length-append, take-append-drop, length-drop,
}
use filemanager_httpd.Common.Strings.{Bytes}
use filemanager_httpd.MemBuf.{u32, copy_to}

pub take-all : (xs ys : Bytes) → take (length xs) (xs ++ ys) ≡ xs
take-all [] ys = refl
take-all (x ∷ xs) ys = ap (λ l. x ∷ l) (take-all xs ys)

pub drop-all : (xs ys : Bytes) → drop (length xs) (xs ++ ys) ≡ ys
drop-all [] ys = refl
drop-all (x ∷ xs) ys = drop-all xs ys

pub take_long : (n : ℕ) (xs : Bytes) → length xs ≤ n → take n xs ≡ xs
take_long zero [] h = refl
take_long zero (x ∷ xs) h = ground arith
take_long (suc n) [] h = refl
take_long (suc n) (x ∷ xs) h = ap (λ l. x ∷ l) (take_long n xs (omega arith))

pub le→leb : (a b : ℕ) → a ≤ b → leb a b ≡ true
le→leb a b h = ground arith

pub u32_small : (n : ℕ) → n < 2 ^ 32 → u32 n ≡ n
u32_small n h = omega arith

pub drop-plus : (xs ys : Bytes) (n : ℕ) → drop (length xs + n) (xs ++ ys) ≡ drop n ys
drop-plus [] ys n = ap (λ k. drop k ys) (zero_plus n)
  where
    zero_plus : (n : ℕ) → 0 + n ≡ n
    zero_plus n = omega arith
drop-plus (x ∷ xs) ys n =
    ap (λ k. drop k (x ∷ (xs ++ ys))) (suc_plus (length xs) n) ∙ drop-plus xs ys n
  where
    suc_plus : (m n : ℕ) → suc m + n ≡ suc (m + n)
    suc_plus m n = omega arith

pub empty-of : (xs : Bytes) → length xs ≡ 0 → xs ≡ []
empty-of [] h = refl
empty-of (x ∷ xs) h = ground arith

pub take-left : (n : ℕ) (xs ys : Bytes) → n ≤ length xs → take n (xs ++ ys) ≡ take n xs
take-left zero xs ys h = refl
take-left (suc n) [] ys h = ground arith
take-left (suc n) (x ∷ xs) ys h = ap (λ l. x ∷ l) (take-left n xs ys (omega arith))

pub length-spliced :
    (offset : ℕ) (bytes text : Bytes)
    → offset + length bytes ≤ length text
    → length (take offset text ++ (bytes ++ drop (offset + length bytes) text)) ≡ length text
length-spliced offset bytes text h =
    let t = length-append (take offset text) (bytes ++ drop (offset + length bytes) text) in
    let b = length-append bytes (drop (offset + length bytes) text) in
    let d = length-drop (offset + length bytes) text in
    let w = length-append (take offset text) (drop offset text) in
    let e = length-drop offset text in
    let a = ap length (take-append-drop offset text) in omega arith

pub drop-left : (n : ℕ) (xs ys : Bytes) → n ≤ length xs → drop n (xs ++ ys) ≡ drop n xs ++ ys
drop-left zero xs ys h = refl
drop-left (suc n) [] ys h = ground arith
drop-left (suc n) (x ∷ xs) ys h = drop-left n xs ys (omega arith)

-- Bytes that are put behind a text, where there is room.
pub copy_behind :
    (text bytes room : Bytes)
    → length bytes ≤ length room
    → copy_to (length text) bytes (text ++ room)
      ≡ some (text ++ (bytes ++ drop (length bytes) room))
unfolding copy_to
copy_behind text bytes room h =
    let l = length-append text room in
    rw
      (
        le→leb (length text + length bytes) (length (text ++ room)) (omega arith),
        take-all text room,
        drop-plus text room (length bytes),
      )
      refl
