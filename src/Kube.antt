-- ===== src/Kube.antt =====
-- What RunController (controller/pod_controller.go) and RunServiceController
-- (controller/service_controller.go) take from client-go, and how they get at a client of the
-- cluster. The result of os.Stat on the file of the configuration is only logged.
use pod_proxier.Base.{[]}
use pod_proxier.Base.Int.{ℤ}
use pod_proxier.Base.Action.{Action}
use pod_proxier.GoString.{GoString}

-- A value, or an error.
pub data Loaded (A : Type 0) : Type 0 where
  loaded : A → Loaded A
  refused : GoString → Loaded A

-- How a start ends: with a controller, or in a panic.
pub data Launch (A : Type 0) : Type 0 where
  launched : A → Launch A
  crashed : GoString → Launch A

pub record KubeClient : Type 1 where
  pub World : Type 0
  pub Config : Type 0
  pub Clientset : Type 0
  pub in_cluster_config : Action World (Loaded Config)
  pub build_config_from_flags : GoString → GoString → Action World (Loaded Config)
  pub new_for_config : Config → Action World (Loaded Clientset)
  -- a list-watch of the resource in all namespaces, and an informer with the resync period
  pub new_indexer_informer : Clientset → GoString → ℤ → Action World (Unit {0})

module _ (k : KubeClient) where
  abbrev World : Type 0
  World = k.World

  -- After rest.InClusterConfig.
  abbrev config_or : GoString → Loaded k.Config × World → Loaded k.Config × World
  config_or kubeconfig (loaded config, w) = (loaded config, w)
  config_or kubeconfig (refused e, w) = k.build_config_from_flags [] kubeconfig w

  unfoldable pub rest_config : GoString → Action World (Loaded k.Config)
  rest_config kubeconfig w = config_or kubeconfig (k.in_cluster_config w)

  -- From the configuration on. `on_refused` is what becomes of an error of NewForConfig.
  module _ {A : Type 0} (controller : A) (on_refused : GoString → GoString) (resource : GoString)
      (resync : ℤ) where
    unfoldable pub with_clientset : Loaded k.Clientset × World → Launch A × World
    with_clientset (refused e, w) = (crashed (on_refused e), w)
    with_clientset (loaded clientset, w) =
        (launched controller, (k.new_indexer_informer clientset resource resync w).1)

    unfoldable pub with_config : Loaded k.Config × World → Launch A × World
    with_config (refused e, w) = (crashed e, w)
    with_config (loaded config, w) = with_clientset (k.new_for_config config w)
