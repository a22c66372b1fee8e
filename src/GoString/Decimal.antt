-- ===== src/GoString/Decimal.antt =====
-- fmt's %d and strconv.Atoi, one after the other.
use pod_proxier.Base.{
  ℕ, zero, suc, ◌+◌, ◌-◌, ◌*◌, ◌/◌, ◌%◌, ◌^◌, ◌≤◌, ◌<◌, ◌≡◌, refl, ap, ◌∙◌, sym, some, List, [],
  ◌∷◌, ◌++◌, arith, ltb, ltb-true, ltb-false, if◌then◌else◌, Bool-cases, inl, inr,
}
use pod_proxier.Base.Int.{ℤ, pos, negsuc, pos_part, neg_part}
use pod_proxier.GoString.Number.{digits, itoa, format_int, parse_uint, atoi, magnitude}

-- One more digit, as long as the value fits.
parse_uint-snoc :
    (s : List ℕ) (acc v d : ℕ)
    → parse_uint acc s ≡ some v
    → d < 10
    → v * 10 + d < 2 ^ 64
    → parse_uint acc (s ++ (48 + d) ∷ []) ≡ some (v * 10 + d)
unfolding parse_uint
parse_uint-snoc [] acc v d e small fits = ground arith
parse_uint-snoc (c ∷ s) acc v d e small fits =
    ground (arith, parse_uint-snoc s (acc * 10 + (c - 48)) v d)

digits_small : (fuel n : ℕ) → n < 10 → digits (suc fuel) n ≡ (48 + n % 10) ∷ []
unfolding digits
digits_small fuel n h = ground arith

digits_large :
    (fuel n : ℕ) → 10 ≤ n → digits (suc fuel) n ≡ digits fuel (n / 10) ++ (48 + n % 10) ∷ []
unfolding digits
digits_large fuel n h = ground arith

low_digit : (n : ℕ) → n < 10 → 0 * 10 + n % 10 ≡ n
low_digit n h = omega arith

parse_uint-digits : (fuel n : ℕ) → n < fuel → n < 2 ^ 64 → parse_uint 0 (digits fuel n) ≡ some n
unfolding parse_uint
parse_uint-digits zero n lt fits = absurd (omega arith)
parse_uint-digits (suc fuel) n lt fits = elim (Bool-cases (ltb n 10)) [
  | inl e ↦ rw (digits_small fuel n (ltb-true n 10 e)) (
      parse_uint-snoc [] 0 0 (n % 10) refl (omega arith) (omega arith)
      ∙ ap some (low_digit n (ltb-true n 10 e)))
  | inr e ↦
      let large = ltb-false n 10 e in
      rw (digits_large fuel n large) (
        parse_uint-snoc (digits fuel (n / 10)) 0 (n / 10) (n % 10)
          (parse_uint-digits fuel (n / 10) (omega arith) (omega arith)) (omega arith) (omega arith)
        ∙ ap some (omega arith))
]

-- A number begins with a digit.
pub digits_start :
    (fuel n : ℕ) → n < fuel → (c : ℕ) × (s : List ℕ) × (digits fuel n ≡ c ∷ s) × (48 ≤ c) × (c ≤ 57)
digits_start zero n lt = absurd (omega arith)
digits_start (suc fuel) n lt = elim (Bool-cases (ltb n 10)) [
  | inl e ↦ (48 + n % 10, [], digits_small fuel n (ltb-true n 10 e), omega arith, omega arith)
  | inr e ↦
      let large = ltb-false n 10 e in
      let (c, s, starts, low, high) = digits_start fuel (n / 10) (omega arith) in
      (
        c,
        s ++ (48 + n % 10) ∷ [],
        digits_large fuel n large ∙ ap (λ t. t ++ (48 + n % 10) ∷ []) starts,
        low,
        high,
      )
]

-- A number ends with a digit.
pub digits_end :
    (fuel n : ℕ)
    → (front : List ℕ) × (d : ℕ) × (digits (suc fuel) n ≡ front ++ d ∷ []) × (48 ≤ d) × (d ≤ 57)
unfolding digits
digits_end fuel n =
    ((if ltb n 10 then [] else digits fuel (n / 10)), 48 + n % 10, refl, omega arith, omega arith)

pub magnitude-itoa : (n : ℕ) → n < 2 ^ 64 → magnitude (itoa n) ≡ some n
unfolding itoa
magnitude-itoa n fits =
    let (c, s, starts, _, _) = digits_start (suc n) n (omega arith) in
    ap magnitude starts
    ∙ ap (parse_uint 0) (sym starts)
    ∙ parse_uint-digits (suc n) n (omega arith) fits

atoi_unsigned :
    (c : ℕ) (s : List ℕ) (n : ℕ)
    → 48 ≤ c
    → c ≤ 57
    → magnitude (c ∷ s) ≡ some n
    → n < 2 ^ 63
    → atoi (c ∷ s) ≡ pos n
unfolding atoi
atoi_unsigned c s n low high e fits = ground arith

atoi-itoa : (n : ℕ) → n < 2 ^ 63 → atoi (itoa n) ≡ pos n
unfolding itoa
atoi-itoa n fits =
    let (c, s, starts, low, high) = digits_start (suc n) n (omega arith) in
    ap atoi starts
    ∙ atoi_unsigned c s n low high (ap magnitude (sym starts) ∙ magnitude-itoa n (omega arith)) fits

atoi_signed :
    (s : List ℕ) (n : ℕ) → magnitude s ≡ some (suc n) → suc n ≤ 2 ^ 63 → atoi (45 ∷ s) ≡ negsuc n
unfolding atoi
atoi_signed s n e fits = ground arith

-- strconv.Atoi reads back what %d has printed, for every integer of 64 bits.
pub atoi-format_int : (z : ℤ) → pos_part z < 2 ^ 63 → neg_part z ≤ 2 ^ 63 → atoi (format_int z) ≡ z
unfolding format_int
atoi-format_int (pos n) fits _ = atoi-itoa n fits
atoi-format_int (negsuc n) _ fits =
    atoi_signed (itoa (suc n)) n (magnitude-itoa (suc n) (omega arith)) fits
