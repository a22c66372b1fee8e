-- ===== src/Service/Quiet.antt =====
-- The worker in service_controller.go: properties of the outside world that its calls of the queue,
-- the clock and the cache keep, through a whole turn.
use pod_proxier.Base.{
  All, ℕ, zero, suc, Option, none, some, List, [], ◌∷◌, ltb, Bool-cases, inl, inr,
}
use pod_proxier.GoString.{GoString}
use pod_proxier.Haproxy.Response.{GoError}
use pod_proxier.Haproxy.Api.{Request}
use pod_proxier.Haproxy.Scope.{IsScoped}
use pod_proxier.Haproxy.Handle.{
  Started, started, failed, panicked, start_transaction, get_version, do_request,
  commit_transaction, discard_transaction,
}
use pod_proxier.Service.State.{ServiceController}
use pod_proxier.Service.Cluster.{Cluster}
use pod_proxier.Service.Mapping.{State, sync_service}
use pod_proxier.Service.Frame.{sync_service-keeps}
use pod_proxier.Service.Worker.{
  Turn, more, quit, crashed, extra_rounds, close_transaction, process_started, process_collected,
  process_first, process_next_work_item, run_worker, collect, collect_next, requeue_all, done_all,
  finish_key, sync_all,
}

-- Of a key that has been taken.
abbrev pub Taken : (GoString → Type 0) → Option GoString → Type 0
Taken Q none = Unit {0}
Taken Q (some key) = Q key

-- Where nothing is asked of the keys.
pub no_demand : (o : Option GoString) → Taken (λ key. Unit {0}) o
no_demand none = tt
no_demand (some key) = tt

pub any_keys : (keys : List GoString) → All (λ key. Unit {0}) keys
any_keys [] = tt
any_keys (key ∷ keys) = (tt, any_keys keys)

-- The queue, the clock and the cache keep the property P of the world, and Q holds of each key that
-- the queue hands out.
pub record IsQuiet (k : Cluster) (P : (k.api).World → Type 0) (Q : GoString → Type 0) : Type 0 where
  pub clock : (w : (k.api).World) → P w → P (k.now w).1
  pub gets : (w : (k.api).World) → P w → P (k.queue_get w).1 × Taken Q (k.queue_get w).0
  pub measures : (w : (k.api).World) → P w → P (k.queue_len w).1
  pub requeues : (key : GoString) (w : (k.api).World) → P w → P (k.queue_add_rate_limited key w).1
  pub forgets : (key : GoString) (w : (k.api).World) → P w → P (k.queue_forget key w).1
  pub finishes : (key : GoString) (w : (k.api).World) → Q key → P w → P (k.queue_done key w).1
  pub caches : (key : GoString) (w : (k.api).World) → P w → P (k.get_by_key key w).1

module _ (k : Cluster) (P : (k.api).World → Type 0) (Q : GoString → Type 0)
    (quiet : IsQuiet k P Q) where
  collect_next-keeps :
      (go_on : (k.api).World → List GoString × (k.api).World)
      → ((w : (k.api).World) → P w → P (go_on w).1 × All Q (go_on w).0)
      → (r : Option GoString × (k.api).World) → P r.1 × Taken Q r.0
      → P (collect_next k go_on r).1 × All Q (collect_next k go_on r).0
  collect_next-keeps go_on keeps (none, w) (p, _) = (p, tt)
  collect_next-keeps go_on keeps (some key, w) (p, q) = let (p', all) = keeps w p in (p', (q, all))

  pub collect-keeps :
      (rounds : ℕ) (w : (k.api).World)
      → P w
      → P (collect k rounds w).1 × All Q (collect k rounds w).0
  unfolding collect
  collect-keeps zero w p = (p, tt)
  collect-keeps (suc rounds) w p = elim (Bool-cases (ltb 0 (k.queue_len w).0)) [
    | inr e ↦ rw (e, collect) (quiet.measures w p, tt)
    | inl e ↦
        rw (e, collect)
          (collect_next-keeps (collect k rounds) (collect-keeps rounds) _
            (quiet.gets _ (quiet.measures w p)))
  ]

  pub requeue_all-keeps :
      (keys : List GoString) (w : (k.api).World) → P w → P (requeue_all k keys w)
  unfolding requeue_all
  requeue_all-keeps [] w p = p
  requeue_all-keeps (key ∷ keys) w p = requeue_all-keeps keys _ (quiet.requeues key w p)

  pub done_all-keeps :
      (keys : List GoString) (w : (k.api).World) → All Q keys → P w → P (done_all k keys w)
  unfolding done_all
  done_all-keeps [] w all p = p
  done_all-keeps (key ∷ keys) w (q, all) p = done_all-keeps keys _ all (quiet.finishes key w q p)

  finish_key-keeps :
      (key : GoString) (e : GoError) (w : (k.api).World) → P w → P (finish_key k key e w)
  finish_key-keeps key (some e) w p = quiet.requeues key w p
  finish_key-keeps key none w p = quiet.forgets key w p

  pub sync_all-keeps :
      (keys : List GoString) (tx_id : GoString) (n : ℕ) (s : State k)
      → ((r : Request) (w : (k.api).World) → IsScoped tx_id r → P w → P ((k.api).send r w).1)
      → P s.1
      → P ((sync_all k keys tx_id n s).1).1
  unfolding sync_all
  sync_all-keeps [] tx_id n s sends p = p
  sync_all-keeps (key ∷ keys) tx_id n s sends p = sync_all-keeps keys tx_id _ _ sends (
      finish_key-keeps key (sync_service k key tx_id s).0 _
        (sync_service-keeps k tx_id P sends quiet.clock quiet.caches key s p))

module _ (k : Cluster) (P : (k.api).World → Type 0) (Q : GoString → Type 0) (quiet : IsQuiet k P Q)
    (sends : (r : Request) (w : (k.api).World) → P w → P ((k.api).send r w).1) where
  pub start_transaction-keeps :
      (c : ServiceController) (w : (k.api).World) → P w → P (start_transaction k.api c.handler w).1
  unfolding start_transaction get_version do_request
  start_transaction-keeps c w p = sends _ _ (sends _ w p)

  close_transaction-keeps :
      (tx_id : GoString) (n : ℕ) (s : State k) → P s.1 → P (close_transaction k tx_id n s).1
  unfolding close_transaction commit_transaction discard_transaction do_request
  close_transaction-keeps tx_id n (c, w) p = elim (Bool-cases (ltb 0 n)) [
    | inl e ↦ rw e (sends _ w p)
    | inr e ↦ rw e (sends _ w p)
  ]

  process_started-keeps :
      (key : GoString) (rest : List GoString) (c : ServiceController) (r : Started × (k.api).World)
      → All Q rest
      → P r.1
      → P ((process_started k key rest c r).1).1
  unfolding process_started
  process_started-keeps key rest c (failed e, w) all p =
      requeue_all-keeps k P Q quiet (key ∷ rest) w p
  process_started-keeps key rest c (panicked, w) all p = p
  process_started-keeps key rest c (started tx_id, w) all p = close_transaction-keeps tx_id _ _ (
      done_all-keeps k P Q quiet rest _ all
        (sync_all-keeps k P Q quiet (key ∷ rest) tx_id 0 (c, w) (λ r w _ p. sends r w p) p))

  -- What a whole turn keeps, from its first key on.
  pub process_first-keeps :
      (c : ServiceController) (r : Option GoString × (k.api).World)
      → P r.1 × Taken Q r.0
      → P ((process_first k c r).1).1
  unfolding process_first process_collected
  process_first-keeps c (none, w) (p, _) = p
  process_first-keeps c (some key, w) (p, q) =
      let (p', all) = collect-keeps k P Q quiet (extra_rounds c.max_batch_size) w p in
      quiet.finishes key _ q (process_started-keeps key _ c _ all (start_transaction-keeps c _ p'))

  process_next_work_item-keeps : (s : State k) → P s.1 → P ((process_next_work_item k s).1).1
  unfolding process_next_work_item
  process_next_work_item-keeps (c, w) p = process_first-keeps c (k.queue_get w) (quiet.gets w p)

  -- What any number of turns keeps.
  pub run_worker-keeps : (turns : ℕ) (s : State k) → P s.1 → P (run_worker k turns s).1
  unfolding run_worker
  run_worker-keeps zero s p = p
  run_worker-keeps (suc turns) s p =
      let p' = process_next_work_item-keeps s p in
      next (process_next_work_item k s).0 p' (run_worker-keeps turns _ p')
    where
      next :
          (turn : Turn)
          → P (process_next_work_item k s).1.1
          → P (run_worker k turns (process_next_work_item k s).1).1
          → P
              (elim turn as (λ t. State k) [
                | more ↦ run_worker k turns (process_next_work_item k s).1
                | quit ↦ (process_next_work_item k s).1
                | crashed ↦ (process_next_work_item k s).1
              ]).1
      next more p later = later
      next quit p later = p
      next crashed p later = p
