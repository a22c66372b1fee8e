-- ===== src/Server/Started.antt =====
-- The controller that the command starts is that of the options.
use pod_proxier.Base.{
  ◌≡◌, refl, sym, ap, ◌∙◌, inl, inr, Bool, true, false, none, some, List, [], ◌∷◌, if◌then◌else◌,
  Bool-cases,
}
use pod_proxier.Base.Int.{ℤ, pos_part}
use pod_proxier.GoString.{GoString}
use pod_proxier.Haproxy.Response.{GoError}
use pod_proxier.Kube.{
  KubeClient, Loaded, loaded, refused, Launch, launched, crashed, with_config, with_clientset,
  rest_config,
}
use pod_proxier.Pod.State.{Controller}
use pod_proxier.Service.State.{ServiceController, new_service_controller}
use pod_proxier.Service.Launch.{run_service_controller}
use pod_proxier.Server.Router.{Gin}
use pod_proxier.Server.Options.{PodProxier, defaults, validate}
use pod_proxier.Server.Process.{
  Parsed, unreadable, informed, parsed, Process, new_process, State, Ended, waiting, failed,
  panicked, keep_v1, keep_v2, served, exit_of, execute_parsed, after_validate, start_v1, start_v2,
  serve, continue_v2, run, run_controllers, registered, run_command, main, complete, accepts_args,
}

-- The controller that Run makes of the options.
abbrev pub service_controller_of : PodProxier → ServiceController
service_controller_of o =
    new_service_controller o.port o.addr o.data_plan_api_addr o.data_plan_api_user
      o.data_plan_api_password o.hide_backend (pos_part o.port_range_start)
      (pos_part o.port_range_end) o.allowed_namespaces (o.port_name ∷ []) o.check_timeout
      o.check_interval o.default_health_check o.max_batch_size

none_≢_some : {A : Type 0} (x : A) → none ≡ some x → ⊥
none_≢_some x h = cc

module _ (k : KubeClient) {A : Type 0} (controller : A) (on_refused : GoString → GoString)
    (resource : GoString) (resync : ℤ) where
  with_clientset-launched :
      (r : Loaded k.Clientset × k.World) (c : A)
      → (with_clientset k controller on_refused resource resync r).0 ≡ launched c
      → c ≡ controller
  unfolding with_clientset
  with_clientset-launched (refused e, w) c h = cc
  with_clientset-launched (loaded s, w) c h = cc

  with_config-launched :
      (r : Loaded k.Config × k.World) (c : A)
      → (with_config k controller on_refused resource resync r).0 ≡ launched c
      → c ≡ controller
  unfolding with_config
  with_config-launched (refused e, w) c h = cc
  with_config-launched (loaded config, w) c h = with_clientset-launched _ c h

module _ (k : KubeClient) (gin : Gin k.World) where
  -- The V2 controller of the process is nil, or the one of the options.
  abbrev IsOf : PodProxier → State k gin → Type 0
  IsOf o s =
      (c : ServiceController)
      → s.0.service_controller_interface ≡ some c
      → (o.enable_v2 ≡ true) × (c ≡ service_controller_of o)

  start_v1-keeps :
      (p : Process) (r : Launch Controller × k.World)
      → (keep_v1 k gin p r).1.0.service_controller_interface ≡ p.service_controller_interface
  start_v1-keeps p (crashed e, w) = refl
  start_v1-keeps p (launched c, w) = refl

  kept_v2 :
      (o : PodProxier) (p : Process) (r : Launch ServiceController × k.World)
      → o.enable_v2 ≡ true
      → p.service_controller_interface ≡ none
      → ((c : ServiceController) → r.0 ≡ launched c → c ≡ service_controller_of o)
      → IsOf o (keep_v2 k gin p r).1
  kept_v2 o p (crashed e, w) v2 empty made c h = absurd (none_≢_some c (sym empty ∙ h))
  kept_v2 o p (launched d, w) v2 empty made c h = (v2, made c (ap launched (unwrap d c h)))
    where
      unwrap : (d c : ServiceController) → some d ≡ some c → d ≡ c
      unwrap d c h = cc

  start_v2-IsOf :
      (o : PodProxier) (s : State k gin)
      → o.enable_v2 ≡ true
      → s.0.service_controller_interface ≡ none
      → IsOf o (start_v2 k gin o s).1
  unfolding start_v2 run_service_controller
  start_v2-IsOf o (p, w) v2 empty =
      kept_v2 o p _ v2 empty (with_config-launched k _ _ _ _ (rest_config k o.kubeconfig w))

  -- Serving leaves the process as it is.
  pub serve-process : (o : PodProxier) (r : GoError × State k gin) → (serve k gin o r).1.0 ≡ r.1.0
  unfolding serve
  serve-process o (some e, s) = refl
  serve-process o (none, (p, w)) = served-process p _
    where
      served-process : (p : Process) (r : GoError × k.World) → (served k gin p r).1.0 ≡ p
      served-process p (some e, w) = refl
      served-process p (none, w) = refl

  empty-IsOf :
      (o : PodProxier) (s : State k gin) → s.0.service_controller_interface ≡ none → IsOf o s
  empty-IsOf o s empty c h = absurd (none_≢_some c (sym empty ∙ h))

  served-IsOf :
      (o : PodProxier) (b : Bool) (s : State k gin)
      → o.enable_v2 ≡ b
      → s.0.service_controller_interface ≡ none
      → IsOf o (serve k gin o (if b then start_v2 k gin o s else (none, s))).1
  served-IsOf o true s v2 empty c h =
      start_v2-IsOf o s v2 empty c
        (ap (λ p. p.service_controller_interface) (sym (serve-process o (start_v2 k gin o s))) ∙ h)
  served-IsOf o false s other empty c h =
      empty-IsOf o s empty c
        (ap (λ p. p.service_controller_interface) (sym (serve-process o (none, s))) ∙ h)

  continue_v2-IsOf :
      (o : PodProxier) (r : GoError × State k gin)
      → r.1.0.service_controller_interface ≡ none
      → IsOf o (continue_v2 k gin o r).1
  unfolding continue_v2
  continue_v2-IsOf o (some e, s) empty = empty-IsOf o s empty
  continue_v2-IsOf o (none, s) empty = served-IsOf o o.enable_v2 s refl empty

  run_controllers-IsOf :
      (o : PodProxier) (s : State k gin)
      → s.0.service_controller_interface ≡ none
      → IsOf o (run_controllers k gin o s).1
  unfolding run_controllers start_v1
  run_controllers-IsOf o (p, w) empty =
      continue_v2-IsOf o _ (choice o.enable_v1 _ (start_v1-keeps p _ ∙ empty))
    where
      choice :
          (b : Bool) (r : GoError × State k gin)
          → r.1.0.service_controller_interface ≡ none
          → (if b then r else (none, (p, w))).1.0.service_controller_interface ≡ none
      choice true r kept = kept
      choice false r kept = empty

  run-IsOf :
      (o : PodProxier) (s : State k gin)
      → s.0.service_controller_interface ≡ none
      → IsOf o (run k gin o s).1
  unfolding run
  run-IsOf o (p, w) empty = run_controllers-IsOf o (registered k gin p, w) empty

  exit-state : (r : Ended × State k gin) → (exit_of k gin r).1 ≡ r.1
  exit-state (waiting, s) = refl
  exit-state (failed e, s) = refl
  exit-state (panicked e, s) = refl

  module _ (parse : PodProxier → List GoString → Parsed) where
    -- A V2 controller is that of options that Validate has accepted.
    abbrev IsValidated : State k gin → Type 0
    IsValidated s =
        (c : ServiceController)
        → s.0.service_controller_interface ≡ some c
        → (o : PodProxier) × (validate o ≡ none)
          × (o.enable_v2 ≡ true)
          × (c ≡ service_controller_of o)

    validated :
        (o : PodProxier) (e : GoError) (s : State k gin)
        → validate o ≡ e
        → s.0.service_controller_interface ≡ none
        → IsValidated (after_validate k gin o e s).1
    validated o (some e) s q empty c h = absurd (none_≢_some c (sym empty ∙ h))
    validated o none s q empty c h = let (v2, same) = run-IsOf o s empty c h in (o, q, v2, same)

    executed :
        (r : Parsed) (s : State k gin)
        → s.0.service_controller_interface ≡ none
        → IsValidated (execute_parsed k gin parse r s).1
    unfolding run_command complete
    executed (unreadable e) s empty c h = absurd (none_≢_some c (sym empty ∙ h))
    executed informed s empty c h = absurd (none_≢_some c (sym empty ∙ h))
    executed (parsed o args) s empty c h = elim (Bool-cases (accepts_args args)) [
      | inl bare ↦ validated o (validate o) s refl empty c (
          ap (λ t. t.0.service_controller_interface)
            (sym (exit-state (after_validate k gin o (validate o) s)))
          ∙ (rw bare at h))
      | inr other ↦ absurd (none_≢_some c (sym empty ∙ (rw other at h)))
    ]

    pub main-IsValidated :
        (command_line : List GoString) (w : k.World)
        → IsValidated (main k gin parse command_line w).1
    unfolding main
    main-IsValidated command_line w = executed (parse defaults command_line) (new_process, w) refl
