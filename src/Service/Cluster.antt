-- ===== src/Service/Cluster.antt =====
-- What the V2 controller takes from outside the repository: client-go's work queue, its cache of
-- Services and its key functions, and the clock. All of it shares the `World` of the API client.
use pod_proxier.Base.{ℕ, Option}
use pod_proxier.Base.Action.{Action}
use pod_proxier.GoString.{GoString}
use pod_proxier.Haproxy.Api.{Api}
use pod_proxier.Service.State.{KubeService}

-- cache.SplitMetaNamespaceKey: a namespace and a name, or an error.
pub data Split : Type 0 where
  parts : GoString → GoString → Split
  malformed : GoString → Split

-- serviceLister.GetByKey
pub data Found : Type 0 where
  found : KubeService → Found
  absent : Found
  broken : GoString → Found

pub record Cluster : Type 1 where
  pub api : Api
  pub now : Action api.World ℕ
  -- none when the queue shuts down
  pub queue_get : Action api.World (Option GoString)
  pub queue_len : Action api.World ℕ
  pub queue_add : GoString → Action api.World (Unit {0})
  pub queue_add_rate_limited : GoString → Action api.World (Unit {0})
  pub queue_forget : GoString → Action api.World (Unit {0})
  pub queue_done : GoString → Action api.World (Unit {0})
  pub get_by_key : GoString → Action api.World Found
  pub split_key : GoString → Split
