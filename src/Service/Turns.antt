-- ===== src/Service/Turns.antt =====
-- One turn of the worker: what becomes of the keys of its batch.
use pod_proxier.Base.{
  ℕ, ◌+◌, ◌≡◌, refl, ap, ap₂, ◌∙◌, subst, Option, none, some, List, [], ◌∷◌, if◌then◌else◌, arith,
  length,
}
use pod_proxier.GoString.{GoString, ◌==◌}
use pod_proxier.Haproxy.Response.{GoError}
use pod_proxier.Haproxy.Handle.{HaproxyHandle, Started, started, start_transaction}
use pod_proxier.Service.State.{ServiceController}
use pod_proxier.Service.Cluster.{Cluster}
use pod_proxier.Service.Mapping.{State, sync_service}
use pod_proxier.Service.Trace.{Event, got, finished, requeued, forgot, traced}
use pod_proxier.Service.Worker.{
  extra_rounds, collect, done_all, sync_all, finish_key, count_success, close_transaction,
  process_started, process_collected, process_first, process_next_work_item,
}
use pod_proxier.Service.Batch.{
  when_got, when_finished, when_requeued, when_forgot, keys_of, onto, Same, IsQueuePick,
  sync_service-Same, start_transaction-Same, close_transaction-Same, collect-got, collect-Same,
  done_all-finished, done_all-Same,
}

-- How often a key stands in a list.
abbrev pub count : GoString → List GoString → ℕ
count x [] = 0
count x (y ∷ ys) = (if y == x then 1 else 0) + count x ys

-- How often a key has been requeued or forgotten.
abbrev pub handled : GoString → List Event → ℕ
handled x l = count x (keys_of when_requeued l) + count x (keys_of when_forgot l)

module _ (k : Cluster) where
  finish_key-handled :
      (x key : GoString) (e : GoError) (v : (k.api).World × List Event)
      → handled x (finish_key (traced k) key e v).1 ≡ (if key == x then 1 else 0) + handled x v.1
  finish_key-handled x key (some e) v = omega arith
  finish_key-handled x key none v = omega arith

  finish_key-Same :
      (pick : Event → Option GoString)
      → ((key : GoString) → (pick (requeued key) ≡ none) × (pick (forgot key) ≡ none))
      → (key : GoString) (e : GoError) (v : (k.api).World × List Event)
      → Same pick v.1 (finish_key (traced k) key e v).1
  finish_key-Same pick f key (some e) v = rw ((f key).0)
  finish_key-Same pick f key none v = rw ((f key).1)

  sync_all-Same :
      (pick : Event → Option GoString)
      → IsQueuePick pick
      → ((key : GoString) → (pick (requeued key) ≡ none) × (pick (forgot key) ≡ none))
      → (keys : List GoString) (tx_id : GoString) (n : ℕ) (s : State (traced k))
      → Same pick s.1.1 (sync_all (traced k) keys tx_id n s).1.1.1
  unfolding sync_all
  sync_all-Same pick q f [] tx_id n s = refl
  sync_all-Same pick q f (key ∷ keys) tx_id n s =
      sync_all-Same pick q f keys tx_id _ _
      ∙ finish_key-Same pick f key _ _
      ∙ sync_service-Same k pick q key tx_id s

  sync_service-handled :
      (x key tx_id : GoString) (s : State (traced k))
      → handled x (sync_service (traced k) key tx_id s).1.1.1 ≡ handled x s.1.1
  sync_service-handled x key tx_id s = rw (
    sync_service-Same k when_requeued (λ r. refl) key tx_id s,
    sync_service-Same k when_forgot (λ r. refl) key tx_id s,
  )

  -- Each key of the batch is requeued or forgotten once.
  sync_all-handled :
      (x : GoString) (keys : List GoString) (tx_id : GoString) (n : ℕ) (s : State (traced k))
      → handled x (sync_all (traced k) keys tx_id n s).1.1.1 ≡ count x keys + handled x s.1.1
  unfolding sync_all
  sync_all-handled x [] tx_id n s = omega arith
  sync_all-handled x (key ∷ keys) tx_id n s =
      let (e, s') = sync_service (traced k) key tx_id s in
      omega (
        arith,
        sync_all-handled x keys tx_id (count_success (traced k) e n)
            (s'.0, finish_key (traced k) key e s'.1),
        finish_key-handled x key e s'.1,
        sync_service-handled x key tx_id s,
      )

  finish_key-forgot :
      (key : GoString) (e : GoError) (n : ℕ) (v : (k.api).World × List Event)
      → length (keys_of when_forgot (finish_key (traced k) key e v).1) + n
        ≡ count_success (traced k) e n + length (keys_of when_forgot v.1)
  finish_key-forgot key (some e) n v = omega arith
  finish_key-forgot key none n v = omega arith

  -- The number of successes is the number of keys that are forgotten.
  pub sync_all-forgot :
      (keys : List GoString) (tx_id : GoString) (n : ℕ) (s : State (traced k))
      → length (keys_of when_forgot (sync_all (traced k) keys tx_id n s).1.1.1) + n
        ≡ (sync_all (traced k) keys tx_id n s).0 + length (keys_of when_forgot s.1.1)
  unfolding sync_all
  sync_all-forgot [] tx_id n s = omega arith
  sync_all-forgot (key ∷ keys) tx_id n s =
      let (e, s') = sync_service (traced k) key tx_id s in
      omega (
        arith,
        sync_all-forgot keys tx_id (count_success (traced k) e n)
            (s'.0, finish_key (traced k) key e s'.1),
        finish_key-forgot key e n s'.1,
        ap length (sync_service-Same k when_forgot (λ r. refl) key tx_id s),
      )

  closed :
      (pick : Event → Option GoString)
      → IsQueuePick pick
      → ((key : GoString) → pick (finished key) ≡ none)
      → (keys rest : List GoString) (tx_id : GoString) (s : State (traced k))
      → let (n, (c', v)) = sync_all (traced k) keys tx_id 0 s in
        Same pick v.1 (close_transaction (traced k) tx_id n (c', done_all (traced k) rest v)).1.1
  closed pick q f keys rest tx_id s =
      let (n, (c', v)) = sync_all (traced k) keys tx_id 0 s in
      close_transaction-Same k pick q tx_id n (c', done_all (traced k) rest v)
      ∙ done_all-Same k pick f rest v

  process_started-got :
      (key : GoString) (rest : List GoString) (c : ServiceController) (tx_id : GoString)
      (v : (k.api).World × List Event)
      → Same when_got v.1 (process_started (traced k) key rest c (started tx_id, v)).1.1.1
  unfolding process_started
  process_started-got key rest c tx_id v =
      closed when_got (λ r. refl) (λ key. refl) (key ∷ rest) rest tx_id (c, v)
      ∙ sync_all-Same when_got (λ r. refl) (λ key. (refl, refl)) (key ∷ rest) tx_id 0 (c, v)

  process_started-finished :
      (key : GoString) (rest : List GoString) (c : ServiceController) (tx_id : GoString)
      (v : (k.api).World × List Event)
      → keys_of when_finished (process_started (traced k) key rest c (started tx_id, v)).1.1.1
        ≡ onto rest (keys_of when_finished v.1)
  unfolding process_started
  process_started-finished key rest c tx_id v =
      close_transaction-Same k when_finished (λ r. refl) tx_id _ _
      ∙ done_all-finished k rest _
      ∙ ap (onto rest) (
          sync_all-Same when_finished (λ r. refl) (λ key. (refl, refl)) (key ∷ rest) tx_id 0 (c, v))

  process_started-handled :
      (x key : GoString) (rest : List GoString) (c : ServiceController) (tx_id : GoString)
      (v : (k.api).World × List Event)
      → handled x (process_started (traced k) key rest c (started tx_id, v)).1.1.1
        ≡ count x (key ∷ rest) + handled x v.1
  unfolding process_started
  process_started-handled x key rest c tx_id v =
      rw
        (
          closed when_requeued (λ r. refl) (λ key. refl) (key ∷ rest) rest tx_id (c, v),
          closed when_forgot (λ r. refl) (λ key. refl) (key ∷ rest) rest tx_id (c, v),
        )
        (sync_all-handled x (key ∷ rest) tx_id 0 (c, v))

  -- What the turn has done before the transaction is asked for, and the request for it.
  pub before :
      (pick : Event → Option GoString)
      → IsQueuePick pick
      → (h : HaproxyHandle) (v2 v3 : (k.api).World × List Event) (r : Started)
      → start_transaction (traced k).api h v2 ≡ (r, v3)
      → Same pick v2.1 v3.1
  before pick q h v2 v3 r e =
      subst (λ p. Same pick v2.1 p.1.1) e (start_transaction-Same k pick q h v2)

  pub batch_got :
      (rounds : ℕ) (v1 v2 : (k.api).World × List Event) (rest : List GoString)
      → collect (traced k) rounds v1 ≡ (rest, v2)
      → keys_of when_got v2.1 ≡ onto rest (keys_of when_got v1.1)
  batch_got rounds v1 v2 rest e =
      subst (λ p. keys_of when_got p.1.1 ≡ onto p.0 (keys_of when_got v1.1)) e
        (collect-got k rounds v1)

  batch-Same :
      (pick : Event → Option GoString)
      → ((key : GoString) → pick (got key) ≡ none)
      → (rounds : ℕ) (v1 v2 : (k.api).World × List Event) (rest : List GoString)
      → collect (traced k) rounds v1 ≡ (rest, v2)
      → Same pick v1.1 v2.1
  batch-Same pick g rounds v1 v2 rest e =
      subst (λ p. Same pick v1.1 p.1.1) e (collect-Same k pick g rounds v1)

  -- Up to the answer to StartTransaction nothing but the taken keys is logged of the queue.
  pub until_start :
      (pick : Event → Option GoString)
      → IsQueuePick pick
      → ((key : GoString) → pick (got key) ≡ none)
      → (h : HaproxyHandle) (rounds : ℕ) (v1 v2 v3 : (k.api).World × List Event)
        (rest : List GoString) (r : Started)
      → collect (traced k) rounds v1 ≡ (rest, v2)
      → start_transaction (traced k).api h v2 ≡ (r, v3)
      → Same pick v1.1 v3.1
  until_start pick q g h rounds v1 v2 v3 rest r batch start =
      before pick q h v2 v3 r start ∙ batch-Same pick g rounds v1 v2 rest batch

  -- When the transaction has been opened, the keys that are taken are those of the batch, each key
  -- after the first is marked done in the order of the batch and the first one last, and every key
  -- is requeued or forgotten once.
  pub process_next_work_item_started :
      (c : ServiceController) (w w1 : (k.api).World) (l : List Event) (key tx_id : GoString)
      (rest : List GoString) (v2 v3 : (k.api).World × List Event)
      → k.queue_get w ≡ (some key, w1)
      → collect (traced k) (extra_rounds c.max_batch_size) (w1, got key ∷ l) ≡ (rest, v2)
      → start_transaction (traced k).api c.handler v2 ≡ (started tx_id, v3)
      → let l' = (process_next_work_item (traced k) (c, (w, l))).1.1.1 in
        (keys_of when_got l' ≡ onto (key ∷ rest) (keys_of when_got l))
        × (keys_of when_finished l' ≡ key ∷ onto rest (keys_of when_finished l))
        × ((x : GoString) → handled x l' ≡ count x (key ∷ rest) + handled x l)
  unfolding process_next_work_item process_first process_collected
  process_next_work_item_started c w w1 l key tx_id rest v2 v3 taken batch start =
      let finish =
        until_start when_finished (λ r. refl) (λ key. refl) c.handler _ _ v2 v3 rest _ batch
          start in
      let requeue =
        until_start when_requeued (λ r. refl) (λ key. refl) c.handler _ _ v2 v3 rest _ batch
          start in
      let forget =
        until_start when_forgot (λ r. refl) (λ key. refl) c.handler _ _ v2 v3 rest _ batch start in
      rw (taken, batch, start)
        (
          process_started-got key rest c tx_id v3
              ∙ before when_got (λ r. refl) c.handler v2 v3 _ start
              ∙ batch_got _ _ v2 rest batch,
          ap (λ t. key ∷ t) (process_started-finished key rest c tx_id v3 ∙ ap (onto rest) finish),
          λ x.
              process_started-handled x key rest c tx_id v3
              ∙ ap (λ t. count x (key ∷ rest) + t)
                  (ap₂ (λ s t. count x s + count x t) requeue forget),
        )
