-- ===== src/Service/Release.antt =====
-- What the removal of a Service's mappings does to their ports.
use pod_proxier.Base.{
  ◌≡◌, ap, Bool, Option, ◌∙◌, sym, inl, inr, true, false, none, some, arith, Bool-cases,
  if◌then◌else◌,
}
use pod_proxier.GoString.{GoString, has_prefix}
use pod_proxier.Service.State.{ServiceController, KubeService, ServiceMapping, lookup, is_allocated}
use pod_proxier.Service.Cluster.{Cluster}
use pod_proxier.Service.Mapping.{State, service_prefix, remove_service_mappings_with_tx}
use pod_proxier.Service.Consistency.{IsConsistent}
use pod_proxier.Service.Invariants.{Reach-IsConsistent}
use pod_proxier.Service.Reach.{remove_service_mappings_with_tx-Reach}
use pod_proxier.Service.Removal.{lookup-remove_service_mappings_with_tx}

chosen :
    (b : Bool) (o : Option ServiceMapping) (m : ServiceMapping)
    → (if b then none else o) ≡ some m
    → (b ≡ false) × (o ≡ some m)
chosen b o m e = ground arith

not_both : ◌≡◌ {A = Bool} true false → ⊥
not_both e = cc

-- In a consistent state the removal of a Service's mappings frees the port of each mapping whose
-- key has the Service's prefix.
pub remove_service_mappings_with_tx_frees :
    (k : Cluster) (service : KubeService) (tx_id key : GoString) (m : ServiceMapping) (s : State k)
    → IsConsistent s.0
    → lookup key s.0.service_mappings ≡ some m
    → has_prefix key (service_prefix service) ≡ true
    → is_allocated m.mapped_port
        (remove_service_mappings_with_tx k service tx_id s).0.port_allocations
      ≡ false
remove_service_mappings_with_tx_frees k service tx_id key m s v there own =
    elim (Bool-cases (is_allocated m.mapped_port after.port_allocations)) [
      | inr free ↦ free
      | inl used ↦
          let (key', m', e, ports) =
            (Reach-IsConsistent (remove_service_mappings_with_tx-Reach k service tx_id s) v).owned
              m.mapped_port used in
          absurd (left_behind key' m' e ports)
    ]
  where
    after : ServiceController
    after = (remove_service_mappings_with_tx k service tx_id s).0

    survivor :
        (key' : GoString) (m' : ServiceMapping)
        → lookup key' after.service_mappings ≡ some m'
        → (has_prefix key' (service_prefix service) ≡ false)
          × (lookup key' s.0.service_mappings ≡ some m')
    survivor key' m' e =
        chosen _ _ m' (sym (lookup-remove_service_mappings_with_tx k service tx_id key' s) ∙ e)

    left_behind :
        (key' : GoString) (m' : ServiceMapping)
        → lookup key' after.service_mappings ≡ some m'
        → m'.mapped_port ≡ m.mapped_port
        → ⊥
    left_behind key' m' e ports =
        let (other, old) = survivor key' m' e in
        not_both (
          sym own
          ∙ ap (λ j. has_prefix j (service_prefix service))
              (sym (v.distinct key' key m' m old there ports))
          ∙ other)
