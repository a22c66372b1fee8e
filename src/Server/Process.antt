-- ===== src/Server/Process.antt =====
-- server/cmd.go and main.go: the command, Run and the two controllers that it starts.
use pod_proxier.Base.{Bool, true, ◌&&◌, Option, none, some, List, [], ◌∷◌, ◌++◌, if◌then◌else◌, ℕ}
use pod_proxier.Base.Int.{pos_part}
use pod_proxier.GoString.{GoString, str, ◌==◌}
use pod_proxier.GoString.Number.{format_int}
use pod_proxier.Haproxy.Response.{GoError}
use pod_proxier.Haproxy.Handle.{cat}
use pod_proxier.Kube.{KubeClient, Launch, launched, crashed}
use pod_proxier.Pod.State.{Controller}
use pod_proxier.Pod.Launch.{run_controller}
use pod_proxier.Service.State.{ServiceController}
use pod_proxier.Service.Launch.{run_service_controller}
use pod_proxier.Server.Router.{Route, Gin, registered_router}
use pod_proxier.Server.Options.{PodProxier, defaults, validate}

-- A `go X.Run()`.
pub data Routine : Type 0 where
  pod_routine : Controller → Routine
  service_routine : ServiceController → Routine

-- The package's two variables, nil or not, the routines that have been started, and the routes of the
-- engine that Run has made.
pub record Process : Type 0 where
  pub controller_interface : Option Controller
  pub service_controller_interface : Option ServiceController
  pub routines : List Routine
  pub engine : List Route

abbrev pub new_process : Process
new_process = record {
  controller_interface = none;
  service_controller_interface = none;
  routines = [];
  engine = [];
}

-- How Run ends. It waits for good once the web server has ended without an error, since nothing
-- closes its channel.
pub data Ended : Type 0 where
  waiting : Ended
  failed : GoString → Ended
  panicked : GoString → Ended

-- How the program ends: with a status, or not.
pub data Exit : Type 0 where
  exited : ℕ → Exit
  running : Exit

-- What becomes of the command line: an error, a help text that is printed, or the options and the
-- arguments that are left.
pub data Parsed : Type 0 where
  unreadable : GoString → Parsed
  informed : Parsed
  parsed : PodProxier → List GoString → Parsed

-- Only empty arguments are taken.
unfoldable pub accepts_args : List GoString → Bool
accepts_args [] = true
accepts_args (arg ∷ args) = arg == [] && accepts_args args

unfoldable pub complete : PodProxier → GoError
complete o = none

module _ (k : KubeClient) (gin : Gin k.World) where
  abbrev pub State : Type 0
  State = Process × k.World

  abbrev pub keep_v1 : Process → Launch Controller × k.World → GoError × State
  keep_v1 p (crashed e, w) = (some e, (p, w))
  keep_v1 p (launched c, w) =
      (none, (record p { controller_interface = some c; routines = pod_routine c ∷ p.routines }, w))

  unfoldable pub start_v1 : PodProxier → State → GoError × State
  start_v1 o (p, w) = keep_v1 p (
      run_controller k o.kubeconfig o.addr o.port o.data_plan_api_addr o.data_plan_api_user
        o.data_plan_api_password o.default_mapping_port o.jprofiler_port_name o.max_mapping_time
        o.resync_time w)

  abbrev pub keep_v2 : Process → Launch ServiceController × k.World → GoError × State
  keep_v2 p (crashed e, w) = (some e, (p, w))
  keep_v2 p (launched c, w) = (
    none,
    (
      record p { service_controller_interface = some c; routines = service_routine c ∷ p.routines },
      w,
    ),
  )

  -- The bounds of the range are naturals: Validate has let no other through.
  unfoldable pub start_v2 : PodProxier → State → GoError × State
  start_v2 o (p, w) = keep_v2 p (
      run_service_controller k o.kubeconfig o.addr o.port o.data_plan_api_addr o.data_plan_api_user
        o.data_plan_api_password o.hide_backend (pos_part o.port_range_start)
        (pos_part o.port_range_end) o.allowed_namespaces (o.port_name ∷ []) o.resync_time
        o.check_timeout o.check_interval o.default_health_check o.max_batch_size w)

  abbrev pub served : Process → GoError × k.World → Ended × State
  served p (some e, w) = (failed e, (p, w))
  served p (none, w) = (waiting, (p, w))

  -- After the start of the V2 controller, which may have panicked.
  unfoldable pub serve : PodProxier → GoError × State → Ended × State
  serve o (some e, s) = (panicked e, s)
  serve o (none, (p, w)) =
      served p (gin.run p.engine (cat (o.addr ∷ str ":" ∷ format_int o.port ∷ [])) w)

  -- After the start of the V1 controller, which may have panicked.
  unfoldable pub continue_v2 : PodProxier → GoError × State → Ended × State
  continue_v2 o (some e, s) = (panicked e, s)
  continue_v2 o (none, s) = serve o (if o.enable_v2 then start_v2 o s else (none, s))

  abbrev pub registered : Process → Process
  registered p = record p { engine = registered_router gin.join }

  -- Run, after the registration of the routes.
  unfoldable pub run_controllers : PodProxier → State → Ended × State
  run_controllers o s = continue_v2 o (if o.enable_v1 then start_v1 o s else (none, s))

  unfoldable pub run : PodProxier → State → Ended × State
  run o (p, w) = run_controllers o (registered p, w)

  abbrev pub after_validate : PodProxier → GoError → State → Ended × State
  after_validate o (some e) s = (failed (str "validation failed: " ++ e), s)
  after_validate o none s = run o s

  abbrev after_complete : PodProxier → GoError → State → Ended × State
  after_complete o (some e) s = (failed (str "failed complete: " ++ e), s)
  after_complete o none s = after_validate o (validate o) s

  -- RunE of NewProxyCommand.
  unfoldable pub run_command : PodProxier → State → Ended × State
  run_command o s = after_complete o (complete o) s

  abbrev pub exit_of : Ended × State → Exit × State
  exit_of (waiting, s) = (running, s)
  exit_of (failed e, s) = (exited 1, s)
  exit_of (panicked e, s) = (exited 2, s)

  -- pflag and cobra read the command line, and start from the defaults of AddFlags.
  module _ (parse : PodProxier → List GoString → Parsed) where
    abbrev pub execute_parsed : Parsed → State → Exit × State
    execute_parsed (unreadable e) s = (exited 1, s)
    execute_parsed informed s = (exited 0, s)
    execute_parsed (parsed o args) s =
        if accepts_args args then exit_of (run_command o s) else (exited 1, s)

    -- main, with the command's Execute.
    unfoldable pub main : List GoString → k.World → Exit × State
    main command_line w = execute_parsed (parse defaults command_line) (new_process, w)
