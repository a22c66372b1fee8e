-- ===== src/Service/Invariants.antt =====
-- What holds of the V2 controller's state after any number of turns of its worker.
use pod_proxier.Base.{ℕ, ◌≡◌, ap, true, some, [], ◌∷◌, arith, inl, inr}
use pod_proxier.GoString.{GoString, str}
use pod_proxier.Service.State.{ServiceController, ServiceMapping, lookup, is_allocated}
use pod_proxier.Service.Ports.{is_namespace_allowed, is_target_port_name}
use pod_proxier.Service.Consistency.{
  IsConsistent, with_attempt-IsConsistent, with_mapping-IsConsistent, without_mapping-IsConsistent,
  inserted, erased,
}
use pod_proxier.Service.Step.{Step, attempt, add, remove, Reach, here, next}
use pod_proxier.Haproxy.Handle.{cat}

Step-IsConsistent : {c d : ServiceController} → Step c d → IsConsistent c → IsConsistent d
Step-IsConsistent {c} (attempt p free) v = with_attempt-IsConsistent c v p free
Step-IsConsistent {c} (add service port p t _ _ fresh low high free _) v =
    with_mapping-IsConsistent c _ _ v fresh low high free
Step-IsConsistent {c} (remove key m there) v = without_mapping-IsConsistent c key m v there

pub Reach-IsConsistent : {c d : ServiceController} → Reach c d → IsConsistent c → IsConsistent d
Reach-IsConsistent here v = v
Reach-IsConsistent (next r st) v = Step-IsConsistent st (Reach-IsConsistent r v)

-- Every mapping is of an allowed namespace and a selected port name, and stands under its own key.
pub record IsSelected (c : ServiceController) : Type 0 where
  pub selected :
      (key : GoString) (m : ServiceMapping)
      → lookup key c.service_mappings ≡ some m
      → (is_namespace_allowed c m.namespace ≡ true)
        × (is_target_port_name c m.port_name ≡ true)
        × (cat (m.namespace ∷ str "/" ∷ m.service_name ∷ str "/" ∷ m.port_name ∷ []) ≡ key)

Step-IsSelected : {c d : ServiceController} → Step c d → IsSelected c → IsSelected d
unfolding is_namespace_allowed is_target_port_name
Step-IsSelected {c} (attempt p free) v = record { selected = v.selected }
Step-IsSelected {c} (add service port p t namespace target fresh low high free _) v = record {
  selected = λ key m e. elim (inserted c _ _ key m e) [
    | inl (k, same) ↦ rw (← same) (namespace, target, k)
    | inr old ↦ v.selected key m old
  ];
}
Step-IsSelected {c} (remove key m there) v = record {
  selected = λ j n e. v.selected j n (erased c key m j n e).1;
}

pub Reach-IsSelected : {c d : ServiceController} → Reach c d → IsSelected c → IsSelected d
Reach-IsSelected here v = v
Reach-IsSelected (next r st) v = Step-IsSelected st (Reach-IsSelected r v)

-- The state of a controller that starts: no mapping, no port taken.
abbrev pub IsFresh : ServiceController → Type 0
IsFresh c = (c.service_mappings ≡ []) × (c.port_allocations ≡ [])

pub IsFresh-IsConsistent : (c : ServiceController) → IsFresh c → IsConsistent c
unfolding lookup is_allocated
IsFresh-IsConsistent c (no_mappings, no_ports) = record {
  marked = λ key m e. absurd (none_there key m e);
  distinct = λ key key' m m' e e' ports. absurd (none_there key m e);
  owned = λ p used. absurd (none_taken p used);
}
  where
    none_there : (key : GoString) (m : ServiceMapping) → lookup key c.service_mappings ≡ some m → ⊥
    none_there key m e = ground (arith, ap (lookup key) no_mappings)

    none_taken : (p : ℕ) → is_allocated p c.port_allocations ≡ true → ⊥
    none_taken p used = ground (arith, ap (is_allocated p) no_ports)

pub IsFresh-IsSelected : (c : ServiceController) → IsFresh c → IsSelected c
unfolding lookup
IsFresh-IsSelected c (no_mappings, _) = record { selected = λ key m e. absurd (none_there key m e) }
  where
    none_there : (key : GoString) (m : ServiceMapping) → lookup key c.service_mappings ≡ some m → ⊥
    none_there key m e = ground (arith, ap (lookup key) no_mappings)
