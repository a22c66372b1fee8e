-- ===== src/Service/Safety.antt =====
-- What holds of the V2 controller from its start on, whatever the Data Plane API, the queue, the
-- cache and the clock answer.
use pod_proxier.Base.{ℕ}
use pod_proxier.Service.Cluster.{Cluster}
use pod_proxier.Service.Mapping.{State}
use pod_proxier.Service.Worker.{run_worker}
use pod_proxier.Service.Consistency.{IsConsistent}
use pod_proxier.Service.Invariants.{
  IsSelected, IsFresh, Reach-IsConsistent, Reach-IsSelected, IsFresh-IsConsistent,
  IsFresh-IsSelected,
}
use pod_proxier.Service.Reach.{run_worker-Reach}

module _ (k : Cluster) (turns : ℕ) (s : State k) (fresh : IsFresh s.0) where
  -- From a controller without mappings and taken ports, after any number of turns of the worker:
  -- every mapping has a port of the range that is marked as taken, no two mappings share a port,
  -- and every port that is marked as taken is that of a mapping.
  pub run_worker-IsConsistent : IsConsistent (run_worker k turns s).0
  run_worker-IsConsistent =
      Reach-IsConsistent (run_worker-Reach k turns s) (IsFresh-IsConsistent s.0 fresh)

  -- From a controller without mappings and taken ports, after any number of turns of the worker:
  -- every mapping is of an allowed namespace and a target port name, and its key is made of its
  -- namespace, its Service's name and its port's name.
  pub run_worker-IsSelected : IsSelected (run_worker k turns s).0
  run_worker-IsSelected =
      Reach-IsSelected (run_worker-Reach k turns s) (IsFresh-IsSelected s.0 fresh)
