-- ===== src/Service/Drain.antt =====
-- runWorker in service_controller.go, the loop itself: what `for c.processNextWorkItem() {}` does,
-- and that a queue that has been shut down ends it.
use pod_proxier.Base.{ℕ, zero, suc, ◌≤◌, ◌≡◌, ◌≢◌, refl, Option, none, some, arith}
use pod_proxier.GoString.{GoString}
use pod_proxier.Haproxy.Api.{Request}
use pod_proxier.Service.State.{ServiceController}
use pod_proxier.Service.Cluster.{Cluster}
use pod_proxier.Service.Mapping.{State}
use pod_proxier.Service.Quiet.{IsQuiet, no_demand, process_first-keeps}
use pod_proxier.Service.Worker.{
  Turn, more, quit, crashed, process_first, process_next_work_item, run_worker,
}

module _ (k : Cluster) where
  -- The loop from one state ends in another: the last turn does not answer true.
  pub data Loop : State k → State k → Type 0 where
    ends :
        (s : State k)
        → (process_next_work_item k s).0 ≢ more
        → Loop s (process_next_work_item k s).1
    again :
        (s t : State k)
        → (process_next_work_item k s).0 ≡ more
        → Loop (process_next_work_item k s).1 t
        → Loop s t

  -- The queue has been shut down: what is added to it is dropped, so that the number of the keys that
  -- it still hands out never grows, and each key that it hands out is one less.
  pub record IsDraining (left : (k.api).World → ℕ) : Type 0 where
    pub takes :
        (w w' : (k.api).World) (key : GoString)
        → k.queue_get w ≡ (some key, w')
        → suc (left w') ≤ left w
    pub gets : (w : (k.api).World) → left (k.queue_get w).1 ≤ left w
    pub measures : (w : (k.api).World) → left (k.queue_len w).1 ≤ left w
    pub requeues :
        (key : GoString) (w : (k.api).World) → left (k.queue_add_rate_limited key w).1 ≤ left w
    pub forgets : (key : GoString) (w : (k.api).World) → left (k.queue_forget key w).1 ≤ left w
    pub finishes : (key : GoString) (w : (k.api).World) → left (k.queue_done key w).1 ≤ left w
    pub caches : (key : GoString) (w : (k.api).World) → left (k.get_by_key key w).1 ≤ left w
    pub clock : (w : (k.api).World) → left (k.now w).1 ≤ left w
    pub sends : (r : Request) (w : (k.api).World) → left ((k.api).send r w).1 ≤ left w

module _ (k : Cluster) (left : (k.api).World → ℕ) (draining : IsDraining k left) where
  within-IsQuiet : (n : ℕ) → IsQuiet k (λ w. left w ≤ n) (λ key. Unit {0})
  within-IsQuiet n = record {
    clock = λ w p. omega (arith, draining.clock w);
    gets = λ w p. (omega (arith, draining.gets w), no_demand _);
    measures = λ w p. omega (arith, draining.measures w);
    requeues = λ key w p. omega (arith, draining.requeues key w);
    forgets = λ key w p. omega (arith, draining.forgets key w);
    finishes = λ key w _ p. omega (arith, draining.finishes key w);
    caches = λ key w p. omega (arith, draining.caches key w);
  }

  shorter :
      (c : ServiceController) (w : (k.api).World) (r : Option GoString × (k.api).World)
      → k.queue_get w ≡ r
      → (process_first k c r).0 ≡ more
      → suc (left ((process_first k c r).1).1) ≤ left w
  unfolding process_first
  shorter c w (none, w') taken turn = cc
  shorter c w (some key, w') taken turn = omega (
    arith,
    draining.takes w w' key taken,
    process_first-keeps k (λ v. left v ≤ left w') (λ key. Unit {0}) (within-IsQuiet (left w'))
        (λ r v p. omega (arith, draining.sends r v)) c (some key, w') (omega arith, tt),
  )

  pub process_next_work_item_shorter :
      (s : State k)
      → (process_next_work_item k s).0 ≡ more
      → suc (left (process_next_work_item k s).1.1) ≤ left s.1
  unfolding process_next_work_item
  process_next_work_item_shorter (c, w) turn = shorter c w (k.queue_get w) refl turn

  -- When the queue has been shut down, runWorker comes to the end of its loop in one more turn than
  -- there are keys left, at most.
  pub run_worker-Loop :
      (turns : ℕ) (s : State k) → suc (left s.1) ≤ turns → Loop k s (run_worker k turns s)
  unfolding run_worker
  run_worker-Loop zero s enough = absurd (nothing_below (left s.1) enough)
    where
      nothing_below : (n : ℕ) → ¬ (suc n ≤ 0)
      nothing_below n h = omega arith
  run_worker-Loop (suc turns) s enough =
      go (process_next_work_item k s).0 refl
        (λ e. run_worker-Loop turns _ (omega (arith, process_next_work_item_shorter s e)))
    where
      next : State k
      next = (process_next_work_item k s).1

      go :
          (t : Turn)
          → (process_next_work_item k s).0 ≡ t
          → ((process_next_work_item k s).0 ≡ more → Loop k next (run_worker k turns next))
          → Loop k s (elim (process_next_work_item k s).0 [
            | more ↦ run_worker k turns next
            | quit ↦ next
            | crashed ↦ next
          ])
      go more e later = rw e (again s _ e (later e))
      go quit e later = rw e (ends s (λ h. cc))
      go crashed e later = rw e (ends s (λ h. cc))
