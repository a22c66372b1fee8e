-- ===== src/Service/Atomic/Turn.antt =====
-- processNextWorkItem in service_controller.go: that a turn changes the running configuration at
-- most once, with the commit that ends it.
use pod_proxier.Base.{
  ℕ, ◌≡◌, ◌≢◌, refl, ap, ◌∙◌, sym, subst, inl, inr, Option, none, some, List, [], ◌∷◌, ◌++◌, All,
  ltb, Bool-cases, if◌then◌else◌,
}
use pod_proxier.GoString.{GoString}
use pod_proxier.GoString.Number.{format_int}
use pod_proxier.Haproxy.Api.{Request}
use pod_proxier.Haproxy.Handle.{
  HaproxyHandle, Started, started, failed, panicked, start_transaction, get_version, do_request,
  commit_transaction, discard_transaction,
}
use pod_proxier.Haproxy.Scope.{Ends}
use pod_proxier.Haproxy.Plane.{DataPlane, tagged, commits, committing}
use pod_proxier.Service.State.{ServiceController}
use pod_proxier.Service.Cluster.{Cluster}
use pod_proxier.Service.Mapping.{State}
use pod_proxier.Service.Reach.{sync_all-Reach}
use pod_proxier.Service.Step.{Reach-handler}
use pod_proxier.Service.Quiet.{
  any_keys, collect-keeps, requeue_all-keeps, done_all-keeps, sync_all-keeps,
}
use pod_proxier.Service.Worker.{
  extra_rounds, collect, close_transaction, process_started, sync_all, done_all, process_collected,
  process_first, process_next_work_item,
}
use pod_proxier.Service.Atomic.{
  IsApart, IsAtomic, IsWaiting, IsLive, IsWaiting-IsQuiet, IsLive-IsQuiet, scoped-IsWaiting,
}

module _ (k : Cluster) (plane : DataPlane k.api) (apart : IsApart k plane) where
  -- The transaction's end, where it began with the running configuration of the world w.
  close_transaction-IsAtomic :
      (tx_id : GoString) (n : ℕ) (c : ServiceController) (w v : (k.api).World)
      → IsWaiting k plane tx_id (plane.live w) v
      → IsAtomic k plane c.handler w (close_transaction k tx_id n (c, v)).1
  unfolding close_transaction commit_transaction discard_transaction do_request
  close_transaction-IsAtomic tx_id n c w v (same, own) =
      let closed = plane.closes c.handler tx_id v in
      elim (Bool-cases (ltb 0 n)) [
        | inr e ↦ rw e (inl (plane.discards c.handler tx_id v ∙ same))
        | inl e ↦
            rw e
              (elim (Bool-cases (commits ((k.api).send (committing k.api c.handler tx_id) v).0)) [
                | inl done ↦ inr (
                  tx_id,
                  plane.pending tx_id v,
                  v,
                  own,
                  refl,
                  done,
                  closed
                      ∙ ap (λ b. if b then plane.pending tx_id v ++ plane.live v else plane.live v)
                          done
                      ∙ ap (λ l. plane.pending tx_id v ++ l) same,
                )
                | inr undone ↦ inl (
                    closed
                    ∙ ap (λ b. if b then plane.pending tx_id v ++ plane.live v else plane.live v)
                        undone
                    ∙ same)
              ])
      ]

  pub start_transaction-opens :
      (h : HaproxyHandle) (w : (k.api).World)
      → (plane.live (start_transaction k.api h w).1 ≡ plane.live w)
        × ((tx_id : GoString)
            → (start_transaction k.api h w).0 ≡ started tx_id
            → (tx_id ≢ []) × (plane.pending tx_id (start_transaction k.api h w).1 ≡ []))
  unfolding start_transaction get_version do_request
  start_transaction-opens h w =
      let w1 = (get_version k.api h w).1 in
      let opened = plane.opens h (format_int (get_version k.api h w).0) w1 in
      (opened.0 ∙ (plane.reads _ w refl).0, opened.1)

  -- When the batch has been handled, its writes wait and the running configuration is that of before.
  pub batch-IsWaiting :
      (keys rest : List GoString) (tx_id : GoString) (base : List Request) (c : ServiceController)
      (v : (k.api).World)
      → tx_id ≢ []
      → plane.live v ≡ base
      → plane.pending tx_id v ≡ []
      → IsWaiting k plane tx_id base (done_all k rest (sync_all k keys tx_id 0 (c, v)).1.1)
  batch-IsWaiting keys rest tx_id base c v open_tx same empty =
      let P = IsWaiting k plane tx_id base in
      let quiet = IsWaiting-IsQuiet k plane apart tx_id base in
      done_all-keeps k P (λ key. Unit {0}) quiet rest _ (any_keys rest)
        (sync_all-keeps k P (λ key. Unit {0}) quiet keys tx_id 0 (c, v)
          (scoped-IsWaiting k plane apart tx_id base open_tx)
          (same, subst (All (λ r. Ends (tagged tx_id) r.path)) (sym empty) tt))

  process_started-IsAtomic :
      (key : GoString) (rest : List GoString) (c : ServiceController) (w : (k.api).World)
      (r : Started × (k.api).World)
      → plane.live r.1 ≡ plane.live w
      → ((tx_id : GoString) → r.0 ≡ started tx_id → (tx_id ≢ []) × (plane.pending tx_id r.1 ≡ []))
      → IsAtomic k plane c.handler w (process_started k key rest c r).1.1
  unfolding process_started
  process_started-IsAtomic key rest c w (failed e, v) same opens = inl (
      requeue_all-keeps k (IsLive k plane (plane.live w)) (λ key. Unit {0})
        (IsLive-IsQuiet k plane apart (plane.live w)) (key ∷ rest) v same)
  process_started-IsAtomic key rest c w (panicked, v) same opens = inl same
  process_started-IsAtomic key rest c w (started tx_id, v) same opens =
      let (open_tx, empty) = opens tx_id refl in
      let r = sync_all k (key ∷ rest) tx_id 0 (c, v) in
      subst
        (λ h. IsAtomic k plane h w (close_transaction k tx_id r.0 (r.1.0, done_all k rest r.1.1)).1)
        (Reach-handler (sync_all-Reach k (key ∷ rest) tx_id 0 (c, v)))
        (close_transaction-IsAtomic tx_id r.0 r.1.0 w _
          (batch-IsWaiting (key ∷ rest) rest tx_id (plane.live w) c v open_tx same empty))

  finished_IsAtomic :
      (h : HaproxyHandle) (w v v' : (k.api).World)
      → plane.live v' ≡ plane.live v
      → IsAtomic k plane h w v
      → IsAtomic k plane h w v'
  finished_IsAtomic h w v v' same (inl kept) = inl (same ∙ kept)
  finished_IsAtomic h w v v' same (inr (tx_id, rs, u, own, waits, done, made)) =
      inr (tx_id, rs, u, own, waits, done, same ∙ made)

  process_first-IsAtomic :
      (c : ServiceController) (w : (k.api).World) (r : Option GoString × (k.api).World)
      → plane.live r.1 ≡ plane.live w
      → IsAtomic k plane c.handler w (process_first k c r).1.1
  unfolding process_first process_collected
  process_first-IsAtomic c w (none, v) same = inl same
  process_first-IsAtomic c w (some key, v) same =
      let batch = collect k (extra_rounds c.max_batch_size) v in
      let begun = start_transaction k.api c.handler batch.1 in
      let (opened, opens) = start_transaction-opens c.handler batch.1 in
      finished_IsAtomic c.handler w _ _ (apart.finishes key _).0 (
        process_started-IsAtomic key batch.0 c w begun
          (opened
            ∙ (collect-keeps k (IsLive k plane (plane.live w)) (λ key. Unit {0})
                (IsLive-IsQuiet k plane apart (plane.live w)) _ v same).0)
          opens)

  -- A turn of the worker leaves the running configuration as it is, or makes a single commit that is
  -- accepted, and then the running configuration gains what waited in that transaction, all of it at
  -- once: writes that were made in this transaction, and no other.
  pub process_next_work_item-IsAtomic :
      (s : State k) → IsAtomic k plane s.0.handler s.1 (process_next_work_item k s).1.1
  unfolding process_next_work_item
  process_next_work_item-IsAtomic (c, w) =
      process_first-IsAtomic c w (k.queue_get w) (apart.gets w).0
