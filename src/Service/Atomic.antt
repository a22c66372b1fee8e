-- ===== src/Service/Atomic.antt =====
-- processNextWorkItem in service_controller.go, as the Data Plane API sees it: what a turn of the
-- worker does to the running configuration.
pub mod Turn
use pod_proxier.Base.{
  ℕ, ◌≡◌, ◌≢◌, refl, ap, ◌∙◌, sym, subst, ◌⊎◌, inl, inr, Bool, true, false, Option, none, some,
  List, [], ◌∷◌, ◌++◌, All, ltb, Bool-cases, if◌then◌else◌,
}
use pod_proxier.GoString.{GoString}
use pod_proxier.GoString.Number.{format_int}
use pod_proxier.Haproxy.Api.{Request}
use pod_proxier.Haproxy.Handle.{
  HaproxyHandle, Started, started, failed, panicked, start_transaction, get_version, do_request,
  commit_transaction, discard_transaction,
}
use pod_proxier.Haproxy.Scope.{Ends, IsScoped}
use pod_proxier.Haproxy.Plane.{DataPlane, tagged, accepts, commits, committing, get_or_not}
use pod_proxier.Service.State.{ServiceController}
use pod_proxier.Service.Cluster.{Cluster}
use pod_proxier.Service.Mapping.{State}
use pod_proxier.Service.Reach.{sync_all-Reach}
use pod_proxier.Service.Step.{Reach-handler}
use pod_proxier.Service.Quiet.{
  IsQuiet, no_demand, collect-keeps, requeue_all-keeps, done_all-keeps, sync_all-keeps,
}
use pod_proxier.Service.Worker.{
  extra_rounds, collect, close_transaction, process_started, sync_all, done_all, process_collected,
  process_first, process_next_work_item,
}

module _ (k : Cluster) (plane : DataPlane k.api) where
  abbrev pub Untouched : (k.api).World → (k.api).World → Type 0
  Untouched w w' =
      (plane.live w' ≡ plane.live w)
      × ((tx_id : GoString) → plane.pending tx_id w' ≡ plane.pending tx_id w)

  -- The queue, the clock and the cache have nothing to do with HAProxy.
  pub record IsApart : Type 0 where
    pub clock : (w : (k.api).World) → Untouched w (k.now w).1
    pub gets : (w : (k.api).World) → Untouched w (k.queue_get w).1
    pub measures : (w : (k.api).World) → Untouched w (k.queue_len w).1
    pub requeues :
        (key : GoString) (w : (k.api).World) → Untouched w (k.queue_add_rate_limited key w).1
    pub forgets : (key : GoString) (w : (k.api).World) → Untouched w (k.queue_forget key w).1
    pub finishes : (key : GoString) (w : (k.api).World) → Untouched w (k.queue_done key w).1
    pub caches : (key : GoString) (w : (k.api).World) → Untouched w (k.get_by_key key w).1

  -- The running configuration is that of before; or one commit has been accepted, and has put writes
  -- of its own transaction in front of it.
  abbrev pub IsAtomic : HaproxyHandle → (k.api).World → (k.api).World → Type 0
  IsAtomic h w w' =
      (plane.live w' ≡ plane.live w)
      ⊎ ((tx_id : GoString) × (rs : List Request) × (v : (k.api).World) × All
            (λ r. Ends (tagged tx_id) r.path) rs
          × (plane.pending tx_id v ≡ rs)
          × (commits ((k.api).send (committing k.api h tx_id) v).0 ≡ true)
          × (plane.live w' ≡ rs ++ plane.live w))

  -- The running configuration is the given one, and what waits in the transaction belongs to it.
  abbrev pub IsWaiting : GoString → List Request → (k.api).World → Type 0
  IsWaiting tx_id base w =
      (plane.live w ≡ base) × All (λ r. Ends (tagged tx_id) r.path) (plane.pending tx_id w)

  abbrev pub IsLive : List Request → (k.api).World → Type 0
  IsLive base w = plane.live w ≡ base

module _ (k : Cluster) (plane : DataPlane k.api) (apart : IsApart k plane) where
  IsWaiting-Untouched :
      (tx_id : GoString) (base : List Request) (w w' : (k.api).World)
      → Untouched k plane w w'
      → IsWaiting k plane tx_id base w
      → IsWaiting k plane tx_id base w'
  IsWaiting-Untouched tx_id base w w' (live, pending) (same, own) =
      (live ∙ same, subst (All (λ r. Ends (tagged tx_id) r.path)) (sym (pending tx_id)) own)

  pub IsWaiting-IsQuiet :
      (tx_id : GoString) (base : List Request)
      → IsQuiet k (IsWaiting k plane tx_id base) (λ key. Unit {0})
  IsWaiting-IsQuiet tx_id base = record {
    clock = λ w. IsWaiting-Untouched tx_id base w _ (apart.clock w);
    gets = λ w p. (IsWaiting-Untouched tx_id base w _ (apart.gets w) p, no_demand _);
    measures = λ w. IsWaiting-Untouched tx_id base w _ (apart.measures w);
    requeues = λ key w. IsWaiting-Untouched tx_id base w _ (apart.requeues key w);
    forgets = λ key w. IsWaiting-Untouched tx_id base w _ (apart.forgets key w);
    finishes = λ key w _. IsWaiting-Untouched tx_id base w _ (apart.finishes key w);
    caches = λ key w. IsWaiting-Untouched tx_id base w _ (apart.caches key w);
  }

  pub IsLive-IsQuiet : (base : List Request) → IsQuiet k (IsLive k plane base) (λ key. Unit {0})
  IsLive-IsQuiet base = record {
    clock = λ w p. (apart.clock w).0 ∙ p;
    gets = λ w p. ((apart.gets w).0 ∙ p, no_demand _);
    measures = λ w p. (apart.measures w).0 ∙ p;
    requeues = λ key w p. (apart.requeues key w).0 ∙ p;
    forgets = λ key w p. (apart.forgets key w).0 ∙ p;
    finishes = λ key w _ p. (apart.finishes key w).0 ∙ p;
    caches = λ key w p. (apart.caches key w).0 ∙ p;
  }

  grown :
      (tx_id : GoString) (r : Request) (rs : List Request) (b : Bool)
      → Ends (tagged tx_id) r.path
      → All (λ r. Ends (tagged tx_id) r.path) rs
      → All (λ r. Ends (tagged tx_id) r.path) (if b then r ∷ rs else rs)
  grown tx_id r rs true ends own = (ends, own)
  grown tx_id r rs false ends own = own

  -- A request in a transaction changes nothing but the transaction.
  pub scoped-IsWaiting :
      (tx_id : GoString) (base : List Request)
      → tx_id ≢ []
      → (r : Request) (w : (k.api).World) → IsScoped tx_id r
      → IsWaiting k plane tx_id base w
      → IsWaiting k plane tx_id base ((k.api).send r w).1
  scoped-IsWaiting tx_id base open_tx r w (inl read) p =
      IsWaiting-Untouched tx_id base w _ (plane.reads r w read) p
  scoped-IsWaiting tx_id base open_tx r w (inr (q, inl closed, ends)) p = absurd (open_tx closed)
  scoped-IsWaiting tx_id base open_tx r w (inr (q, inr query, ends)) (same, own) =
      elim (get_or_not r.method) [
        | inl read ↦ IsWaiting-Untouched tx_id base w _ (plane.reads r w read) (same, own)
        | inr other ↦
            let tail = subst (λ t. Ends t r.path) query ends in
            let (live, pending) = plane.writes tx_id r w open_tx other tail in
            (
              live ∙ same,
              subst (All (λ r. Ends (tagged tx_id) r.path)) (sym pending)
                  (grown tx_id r _ (accepts r.method ((k.api).send r w).0) tail own),
            )
      ]
