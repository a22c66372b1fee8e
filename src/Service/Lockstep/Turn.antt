-- ===== src/Service/Lockstep/Turn.antt =====
-- processNextWorkItem in service_controller.go: a turn brings the running configuration of HAProxy
-- along with the controller, or leaves it alone.
use pod_proxier.Base.{ℕ, ◌≡◌, ◌≢◌, true, false, List, ◌++◌}
use pod_proxier.GoString.{GoString}
use pod_proxier.Haproxy.Api.{Request}
use pod_proxier.Haproxy.Plane.{DataPlane, commits, committing}
use pod_proxier.Service.State.{ServiceController}
use pod_proxier.Service.Cluster.{Cluster}
use pod_proxier.Service.Lockstep.{Lockstep}
use pod_proxier.Service.Mapping.{State}

module _ (k : Cluster) (plane : DataPlane k.api) where
  -- What a turn has done from (c, w) on, whose transaction ended in the world u with n successes.
  -- Without a success nothing has changed. A commit that is accepted brings into the running
  -- configuration exactly the writes that have changed in lockstep with the mappings; one that is
  -- refused leaves it as it was.
  abbrev pub IsEnded :
      GoString → ℕ → (k.api).World → ServiceController → (k.api).World → State k → Type 0
  IsEnded tx_id n u c w (c', w') =
      let taken = commits ((k.api).send (committing k.api c.handler tx_id) u).0 in
      (n ≡ 0 → (c' ≡ c) × (plane.live w' ≡ plane.live w))
      × (n ≢ 0
          → taken ≡ true
          → (l : List Request) × Lockstep k tx_id c c' l × (plane.live w' ≡ l ++ plane.live w))
      × (taken ≡ false → plane.live w' ≡ plane.live w)
