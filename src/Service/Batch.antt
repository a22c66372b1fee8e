-- ===== src/Service/Batch.antt =====
-- The work queue through one turn of the worker: which keys are taken, marked done, requeued and
-- forgotten.
use pod_proxier.Base.{
  ℕ, zero, suc, ◌≡◌, refl, ◌∙◌, inl, inr, Option, none, some, List, [], ◌∷◌, ltb, Bool-cases,
}
use pod_proxier.GoString.{GoString}
use pod_proxier.Haproxy.Api.{Request}
use pod_proxier.Haproxy.Handle.{
  HaproxyHandle, do_request, get_version, start_transaction, commit_transaction,
  discard_transaction,
}
use pod_proxier.Service.Cluster.{Cluster}
use pod_proxier.Service.Mapping.{State, sync_service}
use pod_proxier.Service.Frame.{sync_service-keeps}
use pod_proxier.Service.Trace.{Event, sent, got, finished, requeued, forgot, note_got, traced}
use pod_proxier.Service.Worker.{collect, collect_next, requeue_all, done_all, close_transaction}

abbrev pub when_got : Event → Option GoString
when_got (got key) = some key
when_got _ = none

abbrev pub when_finished : Event → Option GoString
when_finished (finished key) = some key
when_finished _ = none

abbrev pub when_requeued : Event → Option GoString
when_requeued (requeued key) = some key
when_requeued _ = none

abbrev pub when_forgot : Event → Option GoString
when_forgot (forgot key) = some key
when_forgot _ = none

abbrev pub add_pick : Option GoString → List GoString → List GoString
add_pick none keys = keys
add_pick (some key) keys = key ∷ keys

-- The keys of the events that are picked, the latest first.
abbrev pub keys_of : (Event → Option GoString) → List Event → List GoString
keys_of pick [] = []
keys_of pick (e ∷ l) = add_pick (pick e) (keys_of pick l)

-- The keys pushed one after the other.
abbrev pub onto : List GoString → List GoString → List GoString
onto [] acc = acc
onto (key ∷ keys) acc = onto keys (key ∷ acc)

-- What two logs agree on.
abbrev pub Same : (Event → Option GoString) → List Event → List Event → Type 0
Same pick l l' = keys_of pick l' ≡ keys_of pick l

-- Requests to the API are not picked.
abbrev pub IsQueuePick : (Event → Option GoString) → Type 0
IsQueuePick pick = (r : Request) → pick (sent r) ≡ none

module _ (k : Cluster) (pick : Event → Option GoString) (queue_pick : IsQueuePick pick) where
  abbrev World : Type 0
  World = (k.api).World × List Event

  send-Same :
      (l : List Event) (r : Request) (v : World) → Same pick l v.1 → Same pick l (sent r ∷ v.1)
  send-Same l r v p = rw queue_pick p

  pub sync_service-Same :
      (key tx_id : GoString) (s : State (traced k))
      → Same pick (s.1).1 (((sync_service (traced k) key tx_id s).1).1).1
  sync_service-Same key tx_id s =
      sync_service-keeps (traced k) tx_id (λ v. Same pick (s.1).1 v.1)
        (λ r v _ p. send-Same (s.1).1 r v p) (λ v p. p) (λ key' v p. p) key s refl

  pub start_transaction-Same :
      (h : HaproxyHandle) (v : World) → Same pick v.1 ((start_transaction (traced k).api h v).1).1
  unfolding start_transaction get_version do_request
  start_transaction-Same h v = simp queue_pick

  pub close_transaction-Same :
      (tx_id : GoString) (n : ℕ) (s : State (traced k))
      → Same pick (s.1).1 ((close_transaction (traced k) tx_id n s).1).1
  unfolding close_transaction commit_transaction discard_transaction do_request
  close_transaction-Same tx_id n (c, v) = elim (Bool-cases (ltb 0 n)) [
    | inl e ↦ rw e (send-Same v.1 _ v refl)
    | inr e ↦ rw e (send-Same v.1 _ v refl)
  ]

module _ (k : Cluster) where
  next-got :
      (go_on : (k.api).World × List Event → List GoString × ((k.api).World × List Event))
      → ((v : (k.api).World × List Event)
          → keys_of when_got (go_on v).1.1 ≡ onto (go_on v).0 (keys_of when_got v.1))
      → (r : Option GoString × (k.api).World) (l : List Event)
      → let (keys, v') = collect_next (traced k) go_on (r.0, (r.1, note_got r.0 l)) in
        keys_of when_got v'.1 ≡ onto keys (keys_of when_got l)
  next-got go_on h (none, w) l = refl
  next-got go_on h (some key, w) l = h (w, got key ∷ l)

  next-Same :
      (pick : Event → Option GoString)
      → ((key : GoString) → pick (got key) ≡ none)
      → (go_on : (k.api).World × List Event → List GoString × ((k.api).World × List Event))
      → ((v : (k.api).World × List Event) → Same pick v.1 (go_on v).1.1)
      → (r : Option GoString × (k.api).World) (l : List Event)
      → Same pick l (collect_next (traced k) go_on (r.0, (r.1, note_got r.0 l))).1.1
  next-Same pick g go_on h (none, w) l = refl
  next-Same pick g go_on h (some key, w) l = h (w, got key ∷ l) ∙ rw g

  -- The keys taken are those that `collect` returns, in order.
  pub collect-got :
      (rounds : ℕ) (v : (k.api).World × List Event)
      → let (keys, v') = collect (traced k) rounds v in
        keys_of when_got v'.1 ≡ onto keys (keys_of when_got v.1)
  unfolding collect
  collect-got zero v = refl
  collect-got (suc rounds) (w, l) = elim (Bool-cases (ltb 0 (k.queue_len w).0)) [
    | inl e ↦ rw (e, collect) (next-got _ (collect-got rounds) (k.queue_get _) l)
    | inr e ↦ rw (e, collect) refl
  ]

  pub collect-Same :
      (pick : Event → Option GoString)
      → ((key : GoString) → pick (got key) ≡ none)
      → (rounds : ℕ) (v : (k.api).World × List Event)
      → Same pick v.1 ((collect (traced k) rounds v).1).1
  unfolding collect
  collect-Same pick g zero v = refl
  collect-Same pick g (suc rounds) (w, l) = elim (Bool-cases (ltb 0 (k.queue_len w).0)) [
    | inl e ↦ rw (e, collect) (next-Same pick g _ (collect-Same pick g rounds) (k.queue_get _) l)
    | inr e ↦ rw (e, collect) refl
  ]

  pub done_all-finished :
      (keys : List GoString) (v : (k.api).World × List Event)
      → keys_of when_finished (done_all (traced k) keys v).1 ≡ onto keys (keys_of when_finished v.1)
  unfolding done_all
  done_all-finished [] v = refl
  done_all-finished (key ∷ keys) v = done_all-finished keys _

  pub done_all-Same :
      (pick : Event → Option GoString)
      → ((key : GoString) → pick (finished key) ≡ none)
      → (keys : List GoString) (v : (k.api).World × List Event)
      → Same pick v.1 (done_all (traced k) keys v).1
  unfolding done_all
  done_all-Same pick f [] v = refl
  done_all-Same pick f (key ∷ keys) v = done_all-Same pick f keys _ ∙ rw f

  pub requeue_all-requeued :
      (keys : List GoString) (v : (k.api).World × List Event)
      → keys_of when_requeued (requeue_all (traced k) keys v).1
        ≡ onto keys (keys_of when_requeued v.1)
  unfolding requeue_all
  requeue_all-requeued [] v = refl
  requeue_all-requeued (key ∷ keys) v = requeue_all-requeued keys _

  pub requeue_all-Same :
      (pick : Event → Option GoString)
      → ((key : GoString) → pick (requeued key) ≡ none)
      → (keys : List GoString) (v : (k.api).World × List Event)
      → Same pick v.1 (requeue_all (traced k) keys v).1
  unfolding requeue_all
  requeue_all-Same pick f [] v = refl
  requeue_all-Same pick f (key ∷ keys) v = requeue_all-Same pick f keys _ ∙ rw f
