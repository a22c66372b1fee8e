-- ===== src/GoString/Escape.antt =====
-- url.QueryEscape, and the decoder of a path (url.PathUnescape) as its reference.
use pod_proxier.Base.{
  ℕ, ◌+◌, ◌-◌, ◌*◌, ◌/◌, ◌%◌, ◌<◌, ◌≡◌, ◌≢◌, refl, ap, ◌∙◌, All, All-append, inl, inr, arith,
  Bool-cases, Bool, true, false, ◌&&◌, ◌||◌, List, [], ◌∷◌, ◌++◌, Option, none, some, ltb, leb,
  ◌==◌, if◌then◌else◌,
}

abbrev pub is_unreserved : ℕ → Bool
is_unreserved c =
    (leb b'a' c && leb c b'z')
    || (leb b'A' c && leb c b'Z')
    || (leb b'0' c && leb c b'9')
    || c == b'-'
    || c == b'_'
    || c == b'.'
    || c == b'~'

unfoldable pub hex_digit : ℕ → ℕ
hex_digit n = if ltb n 10 then b'0' + n else b'A' + (n - 10)

unfoldable pub escape_byte : ℕ → List ℕ
unfolding hex_digit
escape_byte c =
    if is_unreserved c
    then c ∷ []
    else if c == b' '
    then b'+' ∷ []
    else b'%' ∷ hex_digit (c / 16) ∷ hex_digit (c % 16) ∷ []

unfoldable pub query_escape : List ℕ → List ℕ
unfolding escape_byte
query_escape [] = []
query_escape (c ∷ s) = escape_byte c ++ query_escape s

-- The value of a hexadecimal digit in either case.
unfoldable pub hex_value : ℕ → Option ℕ
hex_value c =
    if leb b'0' c && leb c b'9'
    then some (c - b'0')
    else if leb b'A' c && leb c b'F'
    then some (c - b'A' + 10)
    else if leb b'a' c && leb c b'f'
    then some (c - b'a' + 10)
    else none

-- Where the decoder stands: outside an escape, after `%`, or after its first digit.
pub data Mode : Type 0 where
  plain first : Mode
  second : ℕ → Mode

abbrev pub cons? : ℕ → Option (List ℕ) → Option (List ℕ)
cons? c none = none
cons? c (some s) = some (c ∷ s)

-- `+` decodes to the given byte: a space in a query, `+` in a path.
unfoldable pub unescape_from : ℕ → Mode → List ℕ → Option (List ℕ)
unescape_from z plain [] = some []
unescape_from z first [] = none
unescape_from z (second v) [] = none
unescape_from z plain (c ∷ s) =
    let escaped = unescape_from z first s in
    let rest = unescape_from z plain s in
    if c == b'%' then escaped else cons? (if c == b'+' then z else c) rest
unescape_from z first (c ∷ s) = elim (hex_value c) [
  | none ↦ none
  | some v ↦ unescape_from z (second v) s
]
unescape_from z (second v) (c ∷ s) = elim (hex_value c) [
  | none ↦ none
  | some w ↦ cons? (16 * v + w) (unescape_from z plain s)
]

unfoldable pub path_unescape : List ℕ → Option (List ℕ)
unfolding unescape_from
path_unescape = unescape_from b'+' plain

-- A text with the byte in the place of each space.
abbrev pub spaced : ℕ → List ℕ → List ℕ
spaced z [] = []
spaced z (c ∷ s) = (if c == b' ' then z else c) ∷ spaced z s

hex_value-hex_digit : (n : ℕ) → n < 16 → hex_value (hex_digit n) ≡ some n
unfolding hex_value hex_digit
hex_value-hex_digit n h = ground arith

unescape_from-first :
    (z : ℕ) (a v : ℕ) (s : List ℕ)
    → hex_value a ≡ some v
    → unescape_from z first (a ∷ s) ≡ unescape_from z (second v) s
unfolding unescape_from
unescape_from-first z a v s p = ground arith

unescape_from-second :
    (z : ℕ) (b v w : ℕ) (s : List ℕ)
    → hex_value b ≡ some w
    → unescape_from z (second v) (b ∷ s) ≡ cons? (16 * v + w) (unescape_from z plain s)
unfolding unescape_from
unescape_from-second z b v w s p = ground arith

unescape_from-percent :
    (z : ℕ) (s : List ℕ) → unescape_from z plain (b'%' ∷ s) ≡ unescape_from z first s
unfolding unescape_from
unescape_from-percent z s = refl

unescape_from-escaped :
    (z : ℕ) (a b v w : ℕ) (s : List ℕ)
    → hex_value a ≡ some v
    → hex_value b ≡ some w
    → unescape_from z plain (b'%' ∷ a ∷ b ∷ s) ≡ cons? (16 * v + w) (unescape_from z plain s)
unescape_from-escaped z a b v w s p q =
    unescape_from-percent z (a ∷ b ∷ s)
    ∙ unescape_from-first z a v (b ∷ s) p
    ∙ unescape_from-second z b v w s q

unescape_from-space :
    (z : ℕ) (c : ℕ) (s : List ℕ)
    → (c == b' ') ≡ true
    → unescape_from z plain (b'+' ∷ s) ≡ cons? z (unescape_from z plain s)
unfolding unescape_from
unescape_from-space z c s h = refl

unescape_from-plain :
    (z : ℕ) (c : ℕ) (s : List ℕ)
    → c ≢ b'%'
    → c ≢ b'+'
    → unescape_from z plain (c ∷ s) ≡ cons? c (unescape_from z plain s)
unfolding unescape_from
unescape_from-plain z c s p q = ground arith

no_space : (c : ℕ) → is_unreserved c ≡ true → (c == b' ') ≡ false
no_space c h = ground arith

unescape_from-escape_byte :
    (z : ℕ) (c : ℕ) (s : List ℕ)
    → c < 256
    → unescape_from z plain (escape_byte c ++ s)
      ≡ cons? (if c == b' ' then z else c) (unescape_from z plain s)
unfolding escape_byte
unescape_from-escape_byte z c s h = elim (Bool-cases (is_unreserved c)) [
  | inl u ↦ rw (u, no_space c u) (unescape_from-plain z c s (λ e. ground arith) (λ e. ground arith))
  | inr r ↦ elim (Bool-cases (c == b' ')) [
    | inl e ↦ rw (r, e) (unescape_from-space z c s e)
    | inr n ↦
        rw (r, n)
          (unescape_from-escaped z _ _ _ _ s (hex_value-hex_digit (c / 16) (omega arith))
              (hex_value-hex_digit (c % 16) (omega arith))
            ∙ ap (λ d. cons? d (unescape_from z plain s)) (omega arith))
  ]
]

-- What an encoded text decodes to.
unescape_from-query_escape :
    (z : ℕ) (s : List ℕ)
    → All (λ c. c < 256) s
    → unescape_from z plain (query_escape s) ≡ some (spaced z s)
unfolding unescape_from query_escape
unescape_from-query_escape z [] h = refl
unescape_from-query_escape z (c ∷ s) h =
    unescape_from-escape_byte z c (query_escape s) h.0
    ∙ ap (cons? (if c == b' ' then z else c)) (unescape_from-query_escape z s h.1)

-- In a path the encoded text decodes to the text with `+` in the place of each space.
pub path_unescape-query_escape :
    (s : List ℕ) → All (λ c. c < 256) s → path_unescape (query_escape s) ≡ some (spaced b'+' s)
unfolding path_unescape
path_unescape-query_escape s h = unescape_from-query_escape b'+' s h

abbrev pub IsSafe : ℕ → Type 0
IsSafe c = (c ≢ b'/') × (c ≢ b'?') × (c ≢ b'&') × (c ≢ b'=') × (c ≢ b'#') × (c ≢ b' ')

escape_byte-IsSafe : (c : ℕ) → All IsSafe (escape_byte c)
unfolding escape_byte hex_digit
escape_byte-IsSafe c = elim (Bool-cases (is_unreserved c)) [
  | inl u ↦ rw u (ground arith)
  | inr r ↦ elim (Bool-cases (c == b' ')) [
    | inl e ↦ rw (r, e) (omega arith)
    | inr n ↦ rw (r, n) (ground arith)
  ]
]

-- An encoded value holds no byte that separates the parts of a URL.
pub query_escape-IsSafe : (s : List ℕ) → All IsSafe (query_escape s)
unfolding query_escape
query_escape-IsSafe [] = tt
query_escape-IsSafe (c ∷ s) =
    All-append IsSafe (escape_byte c) (query_escape s) (escape_byte-IsSafe c)
      (query_escape-IsSafe s)
