-- ===== src/Service/Commit.antt =====
-- How a turn of the worker ends the transaction, and how large its batch is.
use pod_proxier.Base.{
  ℕ, zero, suc, ◌+◌, ◌≤◌, ◌≡◌, refl, ap, ◌∙◌, Bool, Option, none, some, List, [], ◌∷◌,
  if◌then◌else◌, arith, ltb, length, Bool-cases, inl, inr,
}
use pod_proxier.GoString.{GoString, str}
use pod_proxier.Haproxy.Types.{transaction_path}
use pod_proxier.Haproxy.Api.{Request, put, delete}
use pod_proxier.Haproxy.Handle.{
  HaproxyHandle, started, new_request, do_request, start_transaction, commit_transaction,
  discard_transaction,
}
use pod_proxier.Service.State.{ServiceController}
use pod_proxier.Service.Cluster.{Cluster}
use pod_proxier.Service.Step.{Reach-handler}
use pod_proxier.Service.Reach.{sync_all-Reach}
use pod_proxier.Service.Trace.{Event, sent, got, finished, traced}
use pod_proxier.Service.Worker.{
  extra_rounds, collect, collect_next, done_all, sync_all, close_transaction, process_started,
  process_collected, process_first, process_next_work_item,
}
use pod_proxier.Service.Batch.{when_forgot, keys_of, done_all-Same}
use pod_proxier.Service.Turns.{sync_all-forgot, until_start}

module _ (k : Cluster) where
  length-collect_next :
      (go_on : (k.api).World → List GoString × (k.api).World) (rounds : ℕ)
      → ((w : (k.api).World) → length (go_on w).0 ≤ rounds)
      → (r : Option GoString × (k.api).World) → length (collect_next k go_on r).0 ≤ suc rounds
  length-collect_next go_on rounds h (none, w) = omega arith
  length-collect_next go_on rounds h (some key, w) = omega (arith, h w)

  -- The batch has at most as many keys beside the first as the loop has rounds, whatever the queue
  -- answers.
  length-collect : (rounds : ℕ) (w : (k.api).World) → length (collect k rounds w).0 ≤ rounds
  unfolding collect
  length-collect zero w = omega arith
  length-collect (suc rounds) w = elim (Bool-cases (ltb 0 (k.queue_len w).0)) [
    | inr e ↦ rw (e, collect) (omega arith)
    | inl e ↦
        rw (e, collect) (length-collect_next (collect k rounds) rounds (length-collect rounds) _)
  ]

  -- The request that ends the transaction: a commit or a deletion.
  abbrev pub closing : HaproxyHandle → GoString → Bool → Request
  unfolding new_request
  closing h tx_id commit =
      new_request k.api h (if commit then put else delete) (transaction_path ∷ str "/" ∷ tx_id ∷ [])
        none

  close_transaction-sent :
      (tx_id : GoString) (n : ℕ) (c : ServiceController) (v : (k.api).World × List Event)
      → (close_transaction (traced k) tx_id n (c, v)).1.1
        ≡ sent (closing c.handler tx_id (ltb 0 n)) ∷ v.1
  unfolding close_transaction commit_transaction discard_transaction do_request
  close_transaction-sent tx_id n c v = elim (Bool-cases (ltb 0 n)) [
    | inl e ↦ rw e refl
    | inr e ↦ rw e refl
  ]

  -- The turn from the opened transaction on: n keys are forgotten, and the last request ends the
  -- transaction, with a commit exactly if n is positive.
  process_started-closes :
      (key tx_id : GoString) (rest : List GoString) (c : ServiceController)
      (v : (k.api).World × List Event)
      → let l' = (process_started (traced k) key rest c (started tx_id, v)).1.1.1 in
        (n : ℕ) × (earlier : List Event) × (l' ≡ sent (closing c.handler tx_id (ltb 0 n)) ∷ earlier)
        × (length (keys_of when_forgot l') ≡ n + length (keys_of when_forgot v.1))
  unfolding process_started
  process_started-closes key tx_id rest c v =
      let r = sync_all (traced k) (key ∷ rest) tx_id 0 (c, v) in
      let closes = close_transaction-sent tx_id r.0 r.1.0 (done_all (traced k) rest r.1.1) in
      (
        r.0,
        (done_all (traced k) rest r.1.1).1,
        closes
            ∙ ap (λ h. sent (closing h tx_id (ltb 0 r.0)) ∷ (done_all (traced k) rest r.1.1).1)
                (Reach-handler (sync_all-Reach (traced k) (key ∷ rest) tx_id 0 (c, v))),
        ap (λ l. length (keys_of when_forgot l)) closes
            ∙ ap length (done_all-Same k when_forgot (λ key. refl) rest r.1.1)
            ∙ omega (arith, sync_all-forgot k (key ∷ rest) tx_id 0 (c, v)),
      )

  -- When a key has been taken, the rest of the batch collected and a transaction opened, the last
  -- request of the turn ends that transaction: it is a commit if a key of the batch has been
  -- forgotten, and else the deletion of the transaction.
  pub process_next_work_item_closes :
      (c : ServiceController) (w w1 : (k.api).World) (l : List Event) (key tx_id : GoString)
      (rest : List GoString) (v2 v3 : (k.api).World × List Event)
      → k.queue_get w ≡ (some key, w1)
      → collect (traced k) (extra_rounds c.max_batch_size) (w1, got key ∷ l) ≡ (rest, v2)
      → start_transaction (traced k).api c.handler v2 ≡ (started tx_id, v3)
      → let l' = (process_next_work_item (traced k) (c, (w, l))).1.1.1 in
        (n : ℕ) × (earlier : List Event) × (l'
          ≡ finished key ∷ sent (closing c.handler tx_id (ltb 0 n)) ∷ earlier)
        × (length (keys_of when_forgot l') ≡ n + length (keys_of when_forgot l))
  unfolding process_next_work_item process_first process_collected
  process_next_work_item_closes c w w1 l key tx_id rest v2 v3 taken batch start =
      let (n, earlier, closes, forgotten) = process_started-closes key tx_id rest c v3 in
      let before =
        until_start k when_forgot (λ r. refl) (λ key. refl) c.handler _ _ v2 v3 rest _ batch
          start in
      rw (taken, batch, start)
        (n, earlier, ap (λ t. finished key ∷ t) closes, forgotten ∙ ap (λ t. n + length t) before)
