-- ===== src/GoString/Number.antt =====
-- strconv.Itoa, fmt's %d, strconv.Atoi and strings.TrimSpace.
use mathlib.Core.List.{reverse}
use pod_proxier.Base.{
  ℕ, zero, suc, ◌+◌, ◌-◌, ◌*◌, ◌/◌, ◌%◌, ◌^◌, Bool, ◌&&◌, List, [], ◌∷◌, ◌++◌, map, Option, none,
  some, ltb, leb, ◌==◌, if◌then◌else◌, length,
}
use pod_proxier.Base.Int.{ℤ, pos, negsuc, sub_ℕ}

-- Decimal digits, the most significant first. `suc n` rounds are enough for n.
unfoldable pub digits : ℕ → ℕ → List ℕ
digits zero n = []
digits (suc fuel) n =
    let rest = digits fuel (n / 10) in (if ltb n 10 then [] else rest) ++ (b'0' + n % 10) ∷ []

unfoldable pub itoa : ℕ → List ℕ
unfolding digits
itoa n = digits (suc n) n

unfoldable pub format_int : ℤ → List ℕ
unfolding itoa
format_int (pos n) = itoa n
format_int (negsuc n) = b'-' ∷ itoa (suc n)

abbrev pub is_digit : ℕ → Bool
is_digit c = leb b'0' c && leb c b'9'

-- The loop of strconv.ParseUint in base 10: it stops with the largest value as soon as that is
-- passed, and fails on a byte that is no digit.
unfoldable pub parse_uint : ℕ → List ℕ → Option ℕ
parse_uint acc [] = some acc
parse_uint acc (c ∷ s) =
    let next = acc * 10 + (c - b'0') in
    let rest = parse_uint next s in
    if is_digit c then if leb (2 ^ 64) next then some (2 ^ 64 - 1) else rest else none

abbrev pub clamp_pos : ℕ → ℤ
clamp_pos n = if ltb n (2 ^ 63) then pos n else pos (2 ^ 63 - 1)

abbrev pub clamp_neg : ℕ → ℤ
clamp_neg n = if leb n (2 ^ 63) then sub_ℕ 0 n else sub_ℕ 0 (2 ^ 63)

-- No digits is a syntax error.
abbrev pub magnitude : List ℕ → Option ℕ
magnitude [] = none
magnitude (c ∷ s) = parse_uint 0 (c ∷ s)

-- The number that strconv.Atoi returns beside its error: 0 on a syntax error, the nearest bound on
-- a range error.
unfoldable pub atoi : List ℕ → ℤ
unfolding parse_uint
atoi [] = pos 0
atoi (c ∷ s) =
    if c == b'-'
    then elim (magnitude s) [ none ↦ pos 0 | some n ↦ clamp_neg n ]
    else if c == b'+'
    then elim (magnitude s) [ none ↦ pos 0 | some n ↦ clamp_pos n ]
    else elim (magnitude (c ∷ s)) [ none ↦ pos 0 | some n ↦ clamp_pos n ]

-- The white space of unicode.IsSpace, each character as its bytes in UTF-8.
abbrev pub spaces : List (List ℕ)
spaces =
    (9 ∷ [])
    ∷ (10 ∷ [])
    ∷ (11 ∷ [])
    ∷ (12 ∷ [])
    ∷ (13 ∷ [])
    ∷ (32 ∷ [])
    ∷ (0xc2 ∷ 0x85 ∷ [])
    ∷ (0xc2 ∷ 0xa0 ∷ [])
    ∷ (0xe1 ∷ 0x9a ∷ 0x80 ∷ [])
    ∷ (0xe2 ∷ 0x80 ∷ 0x80 ∷ [])
    ∷ (0xe2 ∷ 0x80 ∷ 0x81 ∷ [])
    ∷ (0xe2 ∷ 0x80 ∷ 0x82 ∷ [])
    ∷ (0xe2 ∷ 0x80 ∷ 0x83 ∷ [])
    ∷ (0xe2 ∷ 0x80 ∷ 0x84 ∷ [])
    ∷ (0xe2 ∷ 0x80 ∷ 0x85 ∷ [])
    ∷ (0xe2 ∷ 0x80 ∷ 0x86 ∷ [])
    ∷ (0xe2 ∷ 0x80 ∷ 0x87 ∷ [])
    ∷ (0xe2 ∷ 0x80 ∷ 0x88 ∷ [])
    ∷ (0xe2 ∷ 0x80 ∷ 0x89 ∷ [])
    ∷ (0xe2 ∷ 0x80 ∷ 0x8a ∷ [])
    ∷ (0xe2 ∷ 0x80 ∷ 0xa8 ∷ [])
    ∷ (0xe2 ∷ 0x80 ∷ 0xa9 ∷ [])
    ∷ (0xe2 ∷ 0x80 ∷ 0xaf ∷ [])
    ∷ (0xe2 ∷ 0x81 ∷ 0x9f ∷ [])
    ∷ (0xe3 ∷ 0x80 ∷ 0x80 ∷ [])
    ∷ []

unfoldable pub strip : List ℕ → List ℕ → Option (List ℕ)
strip [] s = some s
strip (a ∷ p) [] = none
strip (a ∷ p) (b ∷ s) = if a == b then strip p s else none

-- What is left after the first of the given prefixes that fits.
unfoldable pub strip_any : List (List ℕ) → List ℕ → Option (List ℕ)
unfolding strip
strip_any [] s = none
strip_any (p ∷ ps) s = elim (strip p s) [ some t ↦ some t | none ↦ strip_any ps s ]

-- Each round strips a byte or more, so the length is enough fuel.
unfoldable pub strip_all : List (List ℕ) → ℕ → List ℕ → List ℕ
unfolding strip_any
strip_all ps zero s = s
strip_all ps (suc fuel) s = elim (strip_any ps s) [ none ↦ s | some t ↦ strip_all ps fuel t ]

-- strings.TrimSpace
unfoldable pub trim_space : List ℕ → List ℕ
unfolding strip_all
trim_space s =
    let t = strip_all spaces (length s) s in
    reverse (strip_all (map reverse spaces) (length t) (reverse t))
