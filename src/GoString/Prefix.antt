-- ===== src/GoString/Prefix.antt =====
-- strings.HasPrefix on texts in parts that are closed by a separator.
use pod_proxier.Base.{ℕ, ◌≡◌, ◌≢◌, ◌&&◌, [], ◌∷◌, ◌++◌, All, arith}
use pod_proxier.GoString.{GoString, ◌==◌, has_prefix}

-- A text without the byte.
abbrev pub Lacks : ℕ → GoString → Type 0
Lacks c = All (λ a. a ≢ c)

-- Where neither part holds the separator, a prefix is decided part by part.
pub has_prefix-append :
    (c : ℕ) (a b s t : GoString)
    → Lacks c a
    → Lacks c b
    → has_prefix (a ++ (c ∷ s)) (b ++ (c ∷ t)) ≡ ((a == b) && has_prefix s t)
unfolding has_prefix ◌==◌
has_prefix-append c [] [] s t la lb = ground arith
has_prefix-append c [] (y ∷ b) s t la lb = ground arith
has_prefix-append c (x ∷ a) [] s t la lb = ground arith
has_prefix-append c (x ∷ a) (y ∷ b) s t la lb =
    ground (arith, has_prefix-append c a b s t la.1 lb.1)
