-- ===== src/Server/Deployed.antt =====
-- What holds of the V2 controller that the command starts, whatever its flags.
use pod_proxier.Base.{
  ℕ, ◌≤◌, ◌≡◌, sym, ap, ◌∙◌, subst, inl, inr, Bool, true, false, none, some, List, arith,
}
use pod_proxier.Base.Int.{ℤ, pos, negsuc, pos_part, ◌≤ℤ◌}
use pod_proxier.Base.Action.{Action}
use pod_proxier.GoString.{GoString}
use pod_proxier.Kube.{KubeClient}
use pod_proxier.Service.State.{ServiceController, ServiceMapping, lookup, new_service_controller}
use pod_proxier.Service.Launch.{service_run}
use pod_proxier.Service.Cluster.{Cluster}
use pod_proxier.Service.Consistency.{IsConsistent}
use pod_proxier.Service.Invariants.{Reach-IsConsistent, IsFresh-IsConsistent}
use pod_proxier.Server.Options.{PodProxier, validate}
use pod_proxier.Server.Validation.{validate_iff}
use pod_proxier.Server.Process.{Parsed, main}
use pod_proxier.Server.Router.{Gin}
use pod_proxier.Service.Running.{Reach-SameRange, service_run-Reach}
use pod_proxier.Server.Started.{service_controller_of, main-IsValidated}

low_enough : (z : ℤ) → pos 1024 ≤ℤ z → 1024 ≤ pos_part z
low_enough (pos n) h = omega arith
low_enough (negsuc n) h = absurd (omega arith)

high_enough : (z : ℤ) → z ≤ℤ pos 65535 → pos_part z ≤ 65535
high_enough (pos n) h = omega arith
high_enough (negsuc n) h = omega arith

in_range :
    (o : PodProxier)
    → validate o ≡ none
    → o.enable_v2 ≡ true
    → (1024 ≤ pos_part o.port_range_start) × (pos_part o.port_range_end ≤ 65535)
in_range o accepted v2 = elim ((validate_iff o).0 accepted) [
  | inl (v1, other) ↦ absurd (true_≢_false (sym v2 ∙ other))
  | inr (_, (rising, low, high, names)) ↦ (low_enough _ low, high_enough _ high)
]
  where
    true_≢_false : true ≡ false → ⊥
    true_≢_false h = cc

-- The ports of a controller that has been made of such options.
mapped_ports :
    (o : PodProxier) (c : ServiceController)
    → validate o ≡ none
    → o.enable_v2 ≡ true
    → c ≡ service_controller_of o
    → (cluster : Cluster) (sync : Action (cluster.api).World Bool)
      (stop : Action (cluster.api).World (Unit {0})) (starts turns : ℕ) (v : (cluster.api).World)
    → let d = (service_run cluster sync stop starts turns (c, v)).0 in
      IsConsistent d × (1024 ≤ d.port_range_start) × (d.port_range_end ≤ 65535)
unfolding new_service_controller
mapped_ports o c accepted v2 same cluster sync stop starts turns v =
    let run = service_run-Reach cluster sync stop starts turns c v in
    let (low, high) = in_range o accepted v2 in
    let (start, end) = Reach-SameRange run in
    (
      Reach-IsConsistent run (
          IsFresh-IsConsistent c
            (ap (λ c. c.service_mappings) same, ap (λ c. c.port_allocations) same)),
      subst (λ n. 1024 ≤ n) (sym (start ∙ ap (λ c. c.port_range_start) same)) low,
      subst (λ n. n ≤ 65535) (sym (end ∙ ap (λ c. c.port_range_end) same)) high,
    )

module _ (k : KubeClient) (gin : Gin k.World) (parse : PodProxier → List GoString → Parsed) where
  -- Whatever the command line, the cluster and HAProxy answer: a mapping of the V2 controller that
  -- the program starts has a port between 1024 and 65535, after any number of starts and
  -- turns of its worker, and no two mappings have the same one.
  pub main_ports :
      (command_line : List GoString) (w : k.World) (c : ServiceController)
      → (main k gin parse command_line w).1.0.service_controller_interface ≡ some c
      → (cluster : Cluster) (sync : Action (cluster.api).World Bool)
        (stop : Action (cluster.api).World (Unit {0})) (starts turns : ℕ) (v : (cluster.api).World)
      → let d = (service_run cluster sync stop starts turns (c, v)).0 in
        (key : GoString) (m : ServiceMapping)
        → lookup key d.service_mappings ≡ some m
        → (1024 ≤ m.mapped_port)
          × (m.mapped_port ≤ 65535)
          × ((key' : GoString) (m' : ServiceMapping)
              → lookup key' d.service_mappings ≡ some m'
              → m.mapped_port ≡ m'.mapped_port
              → key ≡ key')
  main_ports command_line w c started cluster sync stop starts turns v key m held =
      let (o, accepted, v2, same) = main-IsValidated k gin parse command_line w c started in
      let (consistent, low, high) =
        mapped_ports o c accepted v2 same cluster sync stop starts turns v in
      let (from, to, used) = consistent.marked key m held in
      (
        omega arith,
        omega arith,
        λ key' m' held' ports. consistent.distinct key key' m m' held held' ports,
      )
