-- ===== src/Service/Maps.antt =====
-- Laws of the controller's two maps, each operation seen through a lookup.
use pod_proxier.Base.{
  ℕ, ◌≡◌, refl, Bool, none, some, List, [], ◌∷◌, arith, if◌then◌else◌, ◌==◌ as nat_eq,
}
use pod_proxier.GoString.{GoString, ◌==◌, eq_iff}
use pod_proxier.Service.State.{
  ServiceMapping, Mappings, lookup, insert, erase, is_allocated, set_allocated,
}

pub lookup-insert :
    (key other : GoString) (m : ServiceMapping) (ms : Mappings)
    → lookup other (insert key m ms) ≡ (if key == other then some m else lookup other ms)
unfolding insert lookup
lookup-insert key other m [] = refl
lookup-insert key other m ((first, n) ∷ ms) =
    ground
      (arith, lookup-insert key other m ms, eq_iff first other, eq_iff first key, eq_iff key other)

pub lookup-erase :
    (k j : GoString) (m : Mappings) → lookup j (erase k m) ≡ (if k == j then none else lookup j m)
unfolding lookup erase
lookup-erase k j [] = ground arith
lookup-erase k j ((i, w) ∷ m) =
    ground (arith, eq_iff k j, eq_iff i k, eq_iff i j, lookup-erase k j m)

pub is_allocated-set_allocated :
    (p q : ℕ) (b : Bool) (a : List (ℕ × Bool))
    → is_allocated q (set_allocated p b a) ≡ (if nat_eq p q then b else is_allocated q a)
unfolding is_allocated set_allocated
is_allocated-set_allocated p q b [] = refl
is_allocated-set_allocated p q b ((i, old) ∷ a) = ground (arith, is_allocated-set_allocated p q b a)
