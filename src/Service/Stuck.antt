-- ===== src/Service/Stuck.antt =====
-- processNextWorkItem in service_controller.go and the keys that it never marks done: what a work
-- queue promises, and what becomes of a batch whose transaction cannot be opened.
use pod_proxier.Base.{
  ℕ, zero, suc, ◌≡◌, ◌≢◌, refl, ◌∙◌, sym, subst, Option, none, some, List, [], ◌∷◌, ◌++◌, All,
  Bool-cases, inl, inr, ltb, arith,
}
use pod_proxier.GoString.{GoString, ◌==◌, eq_iff}
use pod_proxier.Haproxy.Api.{Request}
use pod_proxier.Haproxy.Handle.{failed, start_transaction}
use pod_proxier.Service.State.{ServiceController}
use pod_proxier.Service.Cluster.{Cluster}
use pod_proxier.Service.Mapping.{State}
use pod_proxier.Service.Trace.{Event, got, note_got, traced}
use pod_proxier.Service.Batch.{when_got, keys_of}
use pod_proxier.Service.Turns.{count}
use pod_proxier.Service.Failure.{process_started-failed}
use pod_proxier.Service.Quiet.{
  IsQuiet, Taken, collect-keeps, requeue_all-keeps, start_transaction-keeps, run_worker-keeps,
}
use pod_proxier.Service.Worker.{
  extra_rounds, collect, collect_next, process_collected, process_first, process_next_work_item,
  run_worker,
}

-- client-go's work queue: a key that has been handed out is being processed until it is marked done,
-- and is not handed out again before that. Nothing else ends its processing.
pub record IsWorkQueue (k : Cluster) (busy : GoString → (k.api).World → Type 0) : Type 0 where
  pub waits :
      (w w' : (k.api).World) (key : GoString) → k.queue_get w ≡ (some key, w') → ¬ (busy key w)
  pub takes : (w w' : (k.api).World) (key : GoString) → k.queue_get w ≡ (some key, w') → busy key w'
  pub gets : (x : GoString) (w : (k.api).World) → busy x w → busy x (k.queue_get w).1
  pub measures : (x : GoString) (w : (k.api).World) → busy x w → busy x (k.queue_len w).1
  pub requeues :
      (x key : GoString) (w : (k.api).World) → busy x w → busy x (k.queue_add_rate_limited key w).1
  pub forgets : (x key : GoString) (w : (k.api).World) → busy x w → busy x (k.queue_forget key w).1
  pub finishes :
      (x key : GoString) (w : (k.api).World) → x ≢ key → busy x w → busy x (k.queue_done key w).1
  pub caches : (x key : GoString) (w : (k.api).World) → busy x w → busy x (k.get_by_key key w).1
  pub clock : (x : GoString) (w : (k.api).World) → busy x w → busy x (k.now w).1
  pub sends :
      (x : GoString) (r : Request) (w : (k.api).World) → busy x w → busy x ((k.api).send r w).1

-- How often the key has been taken.
abbrev pub taken : GoString → List Event → ℕ
taken x l = count x (keys_of when_got l)

module _ (k : Cluster) (busy : GoString → (k.api).World → Type 0) (queue : IsWorkQueue k busy) where
  -- The key is being processed, and has been taken n times.
  abbrev IsHeld : GoString → ℕ → (k.api).World × List Event → Type 0
  IsHeld x n (w, l) = busy x w × (taken x l ≡ n)

  other_taken : (x key : GoString) (l : List Event) → x ≢ key → taken x (got key ∷ l) ≡ taken x l
  other_taken x key l differ = elim (Bool-cases (key == x)) [
    | inl e ↦ absurd (differ (sym ((eq_iff key x).0 e)))
    | inr e ↦ rw e (omega arith)
  ]

  got-IsHeld :
      (x : GoString) (n : ℕ) (w : (k.api).World) (l : List Event)
      (r : Option GoString × (k.api).World)
      → k.queue_get w ≡ r
      → IsHeld x n (w, l)
      → IsHeld x n (r.1, note_got r.0 l) × Taken (λ key. x ≢ key) r.0
  got-IsHeld x n w l (none, w') e (held, times) =
      ((subst (λ r. busy x r.1) e (queue.gets x w held), times), tt)
  got-IsHeld x n w l (some key, w') e (held, times) = (
    (subst (λ r. busy x r.1) e (queue.gets x w held), other_taken x key l differ ∙ times),
    differ,
  )
    where
      differ : x ≢ key
      differ same = queue.waits w w' key e (subst (λ y. busy y w) same held)

  IsHeld-IsQuiet : (x : GoString) (n : ℕ) → IsQuiet (traced k) (IsHeld x n) (λ key. x ≢ key)
  IsHeld-IsQuiet x n = record {
    clock = λ (w, l) (held, times). (queue.clock x w held, times);
    gets = λ (w, l) p. got-IsHeld x n w l (k.queue_get w) refl p;
    measures = λ (w, l) (held, times). (queue.measures x w held, times);
    requeues = λ key (w, l) (held, times). (queue.requeues x key w held, times);
    forgets = λ key (w, l) (held, times). (queue.forgets x key w held, times);
    finishes = λ key (w, l) differ (held, times). (queue.finishes x key w differ held, times);
    caches = λ key (w, l) (held, times). (queue.caches x key w held, times);
  }

  IsHeld-sends :
      (x : GoString) (n : ℕ) (r : Request) (v : (k.api).World × List Event)
      → IsHeld x n v
      → IsHeld x n ((traced k).api.send r v).1
  IsHeld-sends x n r (w, l) (held, times) = (queue.sends x r w held, times)

  -- Every key of a batch is being processed when the batch is complete.
  abbrev AllBusy : List GoString × ((k.api).World × List Event) → Type 0
  AllBusy (keys, v) = All (λ x. busy x v.0) keys

  collect_next-busy :
      (rounds : ℕ) (w : (k.api).World) (l : List Event) (r : Option GoString × (k.api).World)
      → ((v : (k.api).World × List Event) → AllBusy (collect (traced k) rounds v))
      → k.queue_get w ≡ r
      → AllBusy (collect_next (traced k) (collect (traced k) rounds) (r.0, (r.1, note_got r.0 l)))
  collect_next-busy rounds w l (none, w') later e = tt
  collect_next-busy rounds w l (some key, w') later e = (
    (collect-keeps (traced k) (IsHeld key _) (λ y. key ≢ y) (IsHeld-IsQuiet key _) rounds
        (w', got key ∷ l) (queue.takes w w' key e, refl)).0.0,
    later (w', got key ∷ l),
  )

  collect-busy :
      (rounds : ℕ) (v : (k.api).World × List Event) → AllBusy (collect (traced k) rounds v)
  unfolding collect
  collect-busy zero v = tt
  collect-busy (suc rounds) (w, l) = elim (Bool-cases (ltb 0 (k.queue_len w).0)) [
    | inr e ↦ rw (e, collect) tt
    | inl e ↦
        rw (e, collect)
          (collect_next-busy rounds (k.queue_len w).1 l (k.queue_get (k.queue_len w).1)
            (collect-busy rounds) refl)
  ]

  All-middle :
      (P : GoString → Type 0) (front back : List GoString) (x : GoString)
      → All P (front ++ (x ∷ back))
      → P x
  All-middle P [] back x (p, _) = p
  All-middle P (y ∷ front) back x (_, all) = All-middle P front back x all

  still_held :
      (x : GoString) (turns : ℕ) (s : State (traced k))
      → busy x s.1.0
      → taken x (run_worker (traced k) turns s).1.1 ≡ taken x s.1.1
  still_held x turns s held =
      (run_worker-keeps (traced k) (IsHeld x _) (λ y. x ≢ y) (IsHeld-IsQuiet x _) (IsHeld-sends x _)
        turns s (held, refl)).1

  -- When the transaction cannot be opened, no key of the batch but the first is ever taken from the
  -- queue again, in any number of turns.
  pub process_next_work_item_stuck :
      (c : ServiceController) (w w1 : (k.api).World) (l : List Event) (key x e : GoString)
      (front back : List GoString) (v2 v3 : (k.api).World × List Event)
      → k.queue_get w ≡ (some key, w1)
      → collect (traced k) (extra_rounds c.max_batch_size) (w1, got key ∷ l)
        ≡ (front ++ (x ∷ back), v2)
      → start_transaction (traced k).api c.handler v2 ≡ (failed e, v3)
      → (turns : ℕ)
      → let s = (process_next_work_item (traced k) (c, (w, l))).1 in
        taken x (run_worker (traced k) turns s).1.1 ≡ taken x s.1.1
  unfolding process_next_work_item process_first process_collected
  process_next_work_item_stuck c w w1 l key x e front back v2 v3 first batch start turns =
      still_held x turns (process_next_work_item (traced k) (c, (w, l))).1 (
        rw (first, batch, start, process_started-failed k key e (front ++ (x ∷ back)) c v3)
          (queue.finishes x key _ differ
            (requeue_all-keeps (traced k) (IsHeld x _) (λ y. x ≢ y) (IsHeld-IsQuiet x _)
              (key ∷ (front ++ (x ∷ back))) v3 (held, refl)).0))
    where
      differ : x ≢ key
      differ same =
          All-middle (λ y. key ≢ y) front back x
            (subst (λ r. All (λ y. key ≢ y) r.0) batch
              (collect-keeps (traced k) (IsHeld key _) (λ y. key ≢ y) (IsHeld-IsQuiet key _)
                (extra_rounds c.max_batch_size) (w1, got key ∷ l)
                (queue.takes w w1 key first, refl)).1)
            (sym same)

      held_before : busy x v2.0
      held_before =
          All-middle (λ y. busy y v2.0) front back x
            (subst AllBusy batch (collect-busy (extra_rounds c.max_batch_size) (w1, got key ∷ l)))

      held : busy x v3.0
      held =
          subst (λ r. busy x r.1.0) start
            (start_transaction-keeps (traced k) (IsHeld x _) (λ y. x ≢ y) (IsHeld-IsQuiet x _)
              (IsHeld-sends x _) c v2 (held_before, refl)).0
