-- ===== src/Tests/Processes.antt =====
-- The command and its routes at concrete inputs.
use pod_proxier.Base.{◌≡◌, refl, true, some, List, [], ◌∷◌, ◌++◌, if◌then◌else◌}
use pod_proxier.GoString.{GoString, str, ◌==◌}
use pod_proxier.GoString.Number.{format_int}
use pod_proxier.Kube.{KubeClient, loaded, refused, rest_config, with_config, with_clientset}
use pod_proxier.Service.Launch.{run_service_controller}
use pod_proxier.Server.Options.{PodProxier, defaults, validate, validate_v2}
use pod_proxier.Server.Router.{Gin}
use pod_proxier.Server.Process.{
  Parsed, parsed, informed, unreadable, new_process, run, run_controllers, run_command, main,
  accepts_args, complete, exited, continue_v2, serve, start_v2,
}
use pod_proxier.Server.Unserved.{IsUnserved, run-IsUnserved}

-- A machine outside the cluster, with a file for the configuration; the World is the list of what
-- has been asked for.
abbrev pub machine : KubeClient
machine = record {
  World = List GoString;
  Config = GoString;
  Clientset = GoString;
  in_cluster_config = λ w. (refused (str "unable to load in-cluster configuration"), w);
  build_config_from_flags = λ url path w. (loaded path, str "config" ∷ w);
  new_for_config = λ config w. (loaded config, str "client" ∷ w);
  new_indexer_informer = λ clientset resource resync w. (tt, resource ∷ w);
}

-- Paths are put side by side, and the address is in use.
abbrev pub taken_address : Gin (List GoString)
taken_address = record {
  join = λ a b. a ++ b;
  run = λ routes address w. (some (str "address already in use"), address ∷ w);
}

abbrev v2_only : PodProxier
v2_only = record defaults { enable_v2 = true }

-- `--enable-v2` is the only flag but `--help`.
abbrev pub parse : PodProxier → List GoString → Parsed
parse o [] = parsed o []
parse o (arg ∷ args) =
    if arg == str "--enable-v2"
    then parsed (record o { enable_v2 = true }) args
    else if arg == str "--help"
    then informed
    else unreadable (str "unknown flag")

main-no_flags : (main machine taken_address parse [] []).0 ≡ exited 1
unfolding main run_command validate accepts_args complete
main-no_flags = refl

main-help : (main machine taken_address parse (str "--help" ∷ []) []).0 ≡ exited 0
unfolding main ◌==◌
main-help = refl

main-v2 :
    (main machine taken_address parse (str "--enable-v2" ∷ []) []).1.1
    ≡ str "0.0.0.0:3343" ∷ str "services" ∷ str "client" ∷ str "config" ∷ []
unfolding main run_command run run_controllers continue_v2 serve start_v2 run_service_controller
    with_config with_clientset rest_config validate validate_v2 accepts_args complete format_int
    ◌==◌
main-v2 = refl

run-IsUnserved_example :
    IsUnserved taken_address.join (run machine taken_address v2_only (new_process, [])).1.0
run-IsUnserved_example = run-IsUnserved machine taken_address v2_only (new_process, []) refl refl
