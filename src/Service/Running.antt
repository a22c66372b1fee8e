-- ===== src/Service/Running.antt =====
-- Run in service_controller.go, as steps of the state machine.
use pod_proxier.Base.{ℕ, zero, suc, ◌≡◌, refl, ◌∙◌, inl, inr, Bool, Bool-cases}
use pod_proxier.Base.Action.{Action}
use pod_proxier.Service.State.{ServiceController}
use pod_proxier.Service.Launch.{until, service_run}
use pod_proxier.Service.Cluster.{Cluster}
use pod_proxier.Service.Mapping.{State as ServiceState}
use pod_proxier.Service.Reach.{run_worker-Reach}
use pod_proxier.Service.Step.{Step, attempt, add, remove, Reach, here, next, Reach-trans}

-- The range of the controller's ports stays.
abbrev pub SameRange : ServiceController → ServiceController → Type 0
SameRange c d = (d.port_range_start ≡ c.port_range_start) × (d.port_range_end ≡ c.port_range_end)

Step-SameRange : {c d : ServiceController} → Step c d → SameRange c d
Step-SameRange (attempt p _) = (refl, refl)
Step-SameRange (add service port p t _ _ _ _ _ _ _) = (refl, refl)
Step-SameRange (remove key m _) = (refl, refl)

pub Reach-SameRange : {c d : ServiceController} → Reach c d → SameRange c d
Reach-SameRange here = (refl, refl)
Reach-SameRange (next r st) =
    let (start, end) = Step-SameRange st in
    let (start', end') = Reach-SameRange r in (start ∙ start', end ∙ end')

until-Reach :
    (k : Cluster) (sync : Action (k.api).World Bool) (stop : Action (k.api).World (Unit {0}))
    (starts turns : ℕ) (s : ServiceState k)
    → Reach s.0 (until k sync stop starts turns s).0
unfolding until
until-Reach k sync stop zero turns s = here
until-Reach k sync stop (suc starts) turns s =
    Reach-trans (run_worker-Reach k turns s) (until-Reach k sync stop starts turns _)

pub service_run-Reach :
    (k : Cluster) (sync : Action (k.api).World Bool) (stop : Action (k.api).World (Unit {0}))
    (starts turns : ℕ) (c : ServiceController) (w : (k.api).World)
    → Reach c (service_run k sync stop starts turns (c, w)).0
unfolding service_run
service_run-Reach k sync stop starts turns c w = elim (Bool-cases (sync w).0) [
  | inl e ↦ rw e (until-Reach k sync stop starts turns _)
  | inr e ↦ rw e here
]
