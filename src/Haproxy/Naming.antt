-- ===== src/Haproxy/Naming.antt =====
-- The names that GetServices makes of those of the frontends.
use mathlib.Core.List.{reverse, reverse-append, reverse-reverse}
use pod_proxier.Base.{ℕ, ◌≡◌, refl, sym, ap, ◌∙◌, true, false, List, [], ◌∷◌, ◌++◌, All, arith}
use pod_proxier.GoString.{GoString, str, has_byte, trim_left, trim}
use pod_proxier.Haproxy.Types.{Backend, Frontend}
use pod_proxier.Haproxy.Services.{service_of}

-- What is cut off both ends.
abbrev pub cutset : GoString
cutset = str "FRONTEND."

trim_left_swallowed :
    (s : GoString) → All (λ c. has_byte cutset c ≡ true) s → trim_left s cutset ≡ []
unfolding trim_left
trim_left_swallowed [] h = refl
trim_left_swallowed (c ∷ s) (here, there) = ground (arith, trim_left_swallowed s there)

trim_left_stop :
    (c : ℕ) (s : GoString) → has_byte cutset c ≡ false → trim_left (c ∷ s) cutset ≡ c ∷ s
unfolding trim_left
trim_left_stop c s h = ground arith

trim_left_prefix :
    (c : ℕ) (s : GoString)
    → has_byte cutset c ≡ false
    → trim_left (cutset ++ (c ∷ s)) cutset ≡ c ∷ s
unfolding trim_left has_byte
trim_left_prefix c s h = trim_left_stop c s h

cut_nothing : reverse (trim_left (reverse []) cutset) ≡ []
unfolding trim_left
cut_nothing = refl

-- A frontend whose name is made of the letters of "FRONTEND." alone gives a service without a name.
service_of_swallowed :
    (backends : List Backend) (f : Frontend)
    → All (λ c. has_byte cutset c ≡ true) f.name
    → (service_of backends f).name ≡ []
unfolding trim
service_of_swallowed backends f h =
    ap (λ t. reverse (trim_left (reverse t) cutset)) (trim_left_swallowed f.name h) ∙ cut_nothing

-- A frontend with the prefix "FRONTEND." gives a service with the rest of its name, where the rest
-- begins and ends with other bytes than those of the prefix.
service_of_stripped :
    (backends : List Backend) (f : Frontend) (c d : ℕ) (s front : GoString)
    → f.name ≡ cutset ++ (c ∷ s)
    → c ∷ s ≡ front ++ d ∷ []
    → has_byte cutset c ≡ false
    → has_byte cutset d ≡ false
    → (service_of backends f).name ≡ c ∷ s
unfolding trim
service_of_stripped backends f c d s front name ends first last =
    ap (λ t. reverse (trim_left (reverse (trim_left t cutset)) cutset)) name
    ∙ ap (λ t. reverse (trim_left (reverse t) cutset)) (trim_left_prefix c s first)
    ∙ ap (λ t. reverse (trim_left t cutset)) backwards
    ∙ ap reverse (trim_left_stop d (reverse front) last)
    ∙ ap reverse (sym backwards)
    ∙ reverse-reverse (c ∷ s)
  where
    backwards : reverse (c ∷ s) ≡ d ∷ reverse front
    backwards = ap reverse ends ∙ reverse-append front (d ∷ [])
