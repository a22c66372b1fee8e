-- ===== src/GoString.antt =====
-- Go's strings as sequences of bytes, with what the program uses of package strings.
pub mod Number
pub mod Escape
pub mod Format
pub mod Prefix
pub mod Decimal
pub mod Trim
use pod_proxier.Base.{
  ℕ, zero, suc, ◌≡◌, refl, ◌↔◌, String, Bool, true, false, ◌&&◌, ◌||◌, List, [], ◌∷◌, ◌++◌, arith,
  Option, none, some, ◌==◌ as nat_eq, ==_iff, if◌then◌else◌, length, keep,
}
use mathlib.Core.List.{reverse}
use Prim.Native.Char.{code}

abbrev pub GoString : Type 0
GoString = List ℕ

-- A literal of the source.
abbrev pub str : String → GoString
str String.[] = []
str (String.◌∷◌ c s) = code c ∷ str s

infix 50 ◌==◌
unfoldable pub ◌==◌ : GoString → GoString → Bool
[] == [] = true
[] == (b ∷ t) = false
(a ∷ s) == [] = false
(a ∷ s) == (b ∷ t) = nat_eq a b && s == t

pub eq_iff : (s t : GoString) → ((s == t) ≡ true) ↔ (s ≡ t)
unfolding ◌==◌
eq_iff [] [] = (λ _. refl, λ _. refl)
eq_iff [] (b ∷ t) = (λ h. cc, λ h. cc)
eq_iff (a ∷ s) [] = (λ h. cc, λ h. cc)
eq_iff (a ∷ s) (b ∷ t) = ground (arith, eq_iff s t)

-- strings.HasPrefix
unfoldable pub has_prefix : GoString → GoString → Bool
has_prefix s [] = true
has_prefix [] (b ∷ t) = false
has_prefix (a ∷ s) (b ∷ t) = nat_eq a b && has_prefix s t

-- strings.Contains
unfoldable pub contains : GoString → GoString → Bool
unfolding has_prefix
contains [] t = has_prefix [] t
contains (a ∷ s) t = has_prefix (a ∷ s) t || contains s t

-- Is the byte in the list?
unfoldable pub has_byte : GoString → ℕ → Bool
has_byte [] c = false
has_byte (a ∷ s) c = nat_eq a c || has_byte s c

-- strings.TrimLeft, for a cut set of ASCII bytes.
unfoldable pub trim_left : GoString → GoString → GoString
unfolding has_byte
trim_left [] cutset = []
trim_left (c ∷ s) cutset = if has_byte cutset c then trim_left s cutset else c ∷ s

-- strings.Trim, for a cut set of ASCII bytes: it cuts single bytes of the set from both ends.
unfoldable pub trim : GoString → GoString → GoString
unfolding trim_left
trim s cutset = reverse (trim_left (reverse (trim_left s cutset)) cutset)

-- strings.ReplaceAll(s, c, "") for a single byte c.
unfoldable pub remove_byte : ℕ → GoString → GoString
remove_byte c s = keep (λ a. if nat_eq a c then false else true) s
