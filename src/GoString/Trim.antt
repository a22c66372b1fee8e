-- ===== src/GoString/Trim.antt =====
-- strings.TrimSpace on texts without white space at their ends.
use mathlib.Core.List.{reverse, reverse-append, reverse-reverse}
use pod_proxier.Base.{
  ℕ, zero, suc, ◌≤◌, ◌≡◌, ◌≢◌, refl, ap, ◌∙◌, sym, none, List, [], ◌∷◌, ◌++◌, map, All, length,
  arith,
}
use pod_proxier.Base.Int.{ℤ, pos, negsuc}
use pod_proxier.GoString.Number.{spaces, strip, strip_any, strip_all, trim_space, format_int, itoa}
use pod_proxier.GoString.Decimal.{digits_start, digits_end}

-- A prefix begins with another byte.
abbrev OtherStart : ℕ → List ℕ → Type 0
OtherStart c [] = ⊥
OtherStart c (a ∷ p) = a ≢ c

strip_any-none :
    (ps : List (List ℕ)) (c : ℕ) (s : List ℕ) → All (OtherStart c) ps → strip_any ps (c ∷ s) ≡ none
unfolding strip_any strip
strip_any-none [] c s h = refl
strip_any-none ([] ∷ ps) c s h = absurd h.0
strip_any-none ((a ∷ p) ∷ ps) c s (here, there) = ground (arith, strip_any-none ps c s there)

strip_all-none :
    (ps : List (List ℕ)) (fuel : ℕ) (s : List ℕ) → strip_any ps s ≡ none → strip_all ps fuel s ≡ s
unfolding strip_all
strip_all-none ps zero s h = refl
strip_all-none ps (suc fuel) s h = rw (h, strip_all) refl

-- Between `-` and `9` there is no white space, and no last byte of one.
first_other : (c : ℕ) → 45 ≤ c → c ≤ 57 → All (OtherStart c) spaces
first_other c low high = ground arith

last_other : (c : ℕ) → 45 ≤ c → c ≤ 57 → All (OtherStart c) (map reverse spaces)
last_other c low high = ground arith

trim_space-other :
    (c d : ℕ) (s front : List ℕ)
    → 45 ≤ c
    → c ≤ 57
    → 45 ≤ d
    → d ≤ 57
    → c ∷ s ≡ front ++ d ∷ []
    → trim_space (c ∷ s) ≡ c ∷ s
unfolding trim_space
trim_space-other c d s front low high low' high' ends =
    rw
      (strip_all-none spaces (length (c ∷ s)) (c ∷ s)
        (strip_any-none spaces c s (first_other c low high)))
      (rw (strip_all-none (map reverse spaces) (length (c ∷ s)) (reverse (c ∷ s)) last)
        (reverse-reverse (c ∷ s)))
  where
    last : strip_any (map reverse spaces) (reverse (c ∷ s)) ≡ none
    last =
        ap (λ t. strip_any (map reverse spaces) t) (ap reverse ends ∙ reverse-append front (d ∷ []))
        ∙ strip_any-none (map reverse spaces) d (reverse front) (last_other d low' high')

-- A printed integer holds no white space.
pub trim_space-format_int : (z : ℤ) → trim_space (format_int z) ≡ format_int z
unfolding format_int itoa
trim_space-format_int (pos n) =
    let (c, s, starts, low, high) = digits_start (suc n) n (omega arith) in
    let (front, d, ends, low', high') = digits_end n n in
    ap trim_space starts
    ∙ trim_space-other c d s front (omega arith) high (omega arith) high' (sym starts ∙ ends)
    ∙ sym starts
trim_space-format_int (negsuc n) =
    let (front, d, ends, low', high') = digits_end (suc n) (suc n) in
    trim_space-other 45 d _ (45 ∷ front) (omega arith) (omega arith) (omega arith) high'
      (ap (λ t. 45 ∷ t) ends)
