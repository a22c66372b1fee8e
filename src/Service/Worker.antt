-- ===== src/Service/Worker.antt =====
-- controller/service_controller.go: the event handlers, processNextWorkItem and runWorker.
use pod_proxier.Base.{
  ℕ, zero, suc, ◌+◌, true, false, ltb, Option, none, some, List, [], ◌∷◌, if◌then◌else◌,
}
use pod_proxier.Base.Int.{ℤ, pos_part, neg_part, sub_ℕ, wrap64}
use pod_proxier.GoString.{GoString, ◌==◌}
use pod_proxier.Haproxy.Response.{GoError}
use pod_proxier.Haproxy.Handle.{
  Started, started, failed, panicked, start_transaction, commit_transaction, discard_transaction,
}
use pod_proxier.Service.State.{ServiceController, KubeService}
use pod_proxier.Service.Cluster.{Cluster}
use pod_proxier.Service.Mapping.{State, sync_service}

-- How a call of processNextWorkItem ends: true, false, or a panic.
pub data Turn : Type 0 where
  more quit crashed : Turn

-- What a delete event holds: the Service, or the key under which the cache has last had it.
pub data Deleted : Type 0 where
  last_seen : KubeService → Deleted
  tombstone : GoString → Deleted

-- The rounds of `for i := 0; i < maxBatchSize-1; i++`.
abbrev pub extra_rounds : ℤ → ℕ
extra_rounds m = pos_part (wrap64 (sub_ℕ (pos_part m) (suc (neg_part m))))

module _ (k : Cluster) where
  abbrev World : Type 0
  World = (k.api).World

  -- An event handler's key, or the error of the key function, which is only reported.
  unfoldable pub enqueue : Option GoString → World → World
  enqueue none w = w
  enqueue (some key) w = (k.queue_add key w).1

  unfoldable pub handle_service_add : (KubeService → Option GoString) → KubeService → World → World
  handle_service_add key_of service w = enqueue (key_of service) w

  unfoldable pub handle_service_update :
      (KubeService → Option GoString) → KubeService → KubeService → World → World
  handle_service_update key_of old_service new_service w =
      if old_service.resource_version == new_service.resource_version
      then w
      else enqueue (key_of new_service) w

  unfoldable pub handle_service_delete : (KubeService → Option GoString) → Deleted → World → World
  handle_service_delete key_of (last_seen service) w = enqueue (key_of service) w
  handle_service_delete key_of (tombstone key) w = enqueue (some key) w

  -- After a Get inside the loop: stop when the queue shuts down, else go on.
  abbrev pub collect_next :
      (World → List GoString × World) → Option GoString × World → List GoString × World
  collect_next go_on (none, w) = ([], w)
  collect_next go_on (some key, w) = let (keys, w') = go_on w in (key ∷ keys, w')

  -- The rest of the batch: at most `rounds` keys, while the queue has some.
  unfoldable pub collect : ℕ → World → List GoString × World
  collect zero w = ([], w)
  collect (suc rounds) w =
      let (len, w') = k.queue_len w in
      elim (ltb 0 len) [ false ↦ ([], w') | true ↦ collect_next (collect rounds) (k.queue_get w') ]

  unfoldable pub requeue_all : List GoString → World → World
  requeue_all [] w = w
  requeue_all (key ∷ keys) w = requeue_all keys (k.queue_add_rate_limited key w).1

  unfoldable pub done_all : List GoString → World → World
  done_all [] w = w
  done_all (key ∷ keys) w = done_all keys (k.queue_done key w).1

  -- Requeue the key after an error, forget it after a success.
  abbrev pub finish_key : GoString → GoError → World → World
  finish_key key (some _) w = (k.queue_add_rate_limited key w).1
  finish_key key none w = (k.queue_forget key w).1

  abbrev pub count_success : GoError → ℕ → ℕ
  count_success (some _) n = n
  count_success none n = n + 1

  -- The loop over the batch, with the number of successes.
  unfoldable pub sync_all : List GoString → GoString → ℕ → State k → ℕ × State k
  sync_all [] tx_id n s = (n, s)
  sync_all (key ∷ keys) tx_id n s =
      let (err, s') = sync_service k key tx_id s in
      sync_all keys tx_id (count_success err n) (s'.0, finish_key key err s'.1)

  -- Commit if some key succeeded, else discard. The error of either is only reported.
  unfoldable pub close_transaction : GoString → ℕ → State k → State k
  close_transaction tx_id n (c, w) =
      if ltb 0 n
      then (c, (commit_transaction k.api c.handler tx_id w).1)
      else (c, (discard_transaction k.api c.handler tx_id w).1)

  -- From the answer to StartTransaction on. `rest` is the batch without its first key.
  unfoldable pub process_started :
      GoString → List GoString → ServiceController → Started × World → Turn × State k
  process_started key rest c (failed _, w) = (more, (c, requeue_all (key ∷ rest) w))
  process_started key rest c (panicked, w) = (crashed, (c, w))
  process_started key rest c (started tx_id, w) =
      let (n, (c', w')) = sync_all (key ∷ rest) tx_id 0 (c, w) in
      (more, close_transaction tx_id n (c', done_all rest w'))

  -- The deferred Done of the first key runs last, after a panic too.
  abbrev pub deferred_done : GoString → Turn × State k → Turn × State k
  deferred_done key (turn, (c, w)) = (turn, (c, (k.queue_done key w).1))

  -- With the whole batch at hand.
  unfoldable pub process_collected :
      GoString → ServiceController → List GoString × World → Turn × State k
  process_collected key c (rest, w) =
      deferred_done key (process_started key rest c (start_transaction k.api c.handler w))

  -- After the first Get.
  unfoldable pub process_first : ServiceController → Option GoString × World → Turn × State k
  process_first c (none, w) = (quit, (c, w))
  process_first c (some key, w) =
      process_collected key c (collect (extra_rounds c.max_batch_size) w)

  unfoldable pub process_next_work_item : State k → Turn × State k
  process_next_work_item (c, w) = process_first c (k.queue_get w)

  -- `for c.processNextWorkItem() {}` for at most the given number of turns.
  unfoldable pub run_worker : ℕ → State k → State k
  run_worker zero s = s
  run_worker (suc turns) s =
      let (turn, s') = process_next_work_item s in
      let rest = run_worker turns s' in elim turn [ more ↦ rest | quit ↦ s' | crashed ↦ s' ]
