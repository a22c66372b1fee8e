-- ===== src/Tests/Desk.antt =====
-- A work queue that keeps the keys that are being processed, and a turn that fails on it.
use pod_proxier.Base.Int.{wrap64}
use pod_proxier.Base.{
  ◌≡◌, ◌≢◌, refl, ap, subst, ◌∙◌, sym, inl, inr, true, false, Bool-cases, Option, none, some, List,
  [], ◌∷◌, ◌++◌, if◌then◌else◌, length, keep, arith,
}
use pod_proxier.GoString.{GoString, str, ◌==◌, eq_iff}
use pod_proxier.Haproxy.Api.{get_field}
use pod_proxier.Haproxy.Handle.{start_transaction, get_version, do_request, new_request}
use pod_proxier.Service.State.{member}
use pod_proxier.Service.Cluster.{Cluster, absent}
use pod_proxier.Service.Trace.{Event, got, traced}
use pod_proxier.Service.Stuck.{IsWorkQueue, taken, process_next_work_item_stuck}
use pod_proxier.Service.Worker.{run_worker, process_next_work_item, collect}
use pod_proxier.Tests.Fixtures.{cluster_with, codec, reply, fresh}

pub record Desk : Type 0 where
  pub waiting : List GoString
  pub held : List GoString

-- The first key in the queue, unless it is being processed.
abbrev give : List GoString → List GoString → Option GoString × Desk
give [] held = (none, record { waiting = []; held = held })
give (key ∷ keys) held =
    if member held key
    then (none, record { waiting = key ∷ keys; held = held })
    else (some key, record { waiting = keys; held = key ∷ held })

-- An API that opens no transaction.
abbrev desk : Cluster
desk = record {
  api = record { World = Desk; send = λ r w. (reply 500 r, w); codec = codec };
  now = λ w. (100, w);
  queue_get = λ w. give w.waiting w.held;
  queue_len = λ w. (length w.waiting, w);
  queue_add = λ key w. (tt, record w { waiting = w.waiting ++ key ∷ [] });
  queue_add_rate_limited = λ key w. (tt, record w { waiting = w.waiting ++ key ∷ [] });
  queue_forget = λ key w. (tt, w);
  queue_done =
      λ key w. (tt, record w { held = keep (λ y. if y == key then false else true) w.held });
  get_by_key = λ key w. (absent, w);
  split_key = (cluster_with 500).split_key;
}

abbrev IsHeld : GoString → Desk → Type 0
IsHeld key w = member w.held key ≡ true

member-keep :
    (x key : GoString) (held : List GoString)
    → x ≢ key
    → member held x ≡ true
    → member (keep (λ y. if y == key then false else true) held) x ≡ true
unfolding member
member-keep x key [] differ h = h
member-keep x key (y ∷ held) differ h =
    ground (arith, member-keep x key held differ, eq_iff y x, eq_iff y key)

give_held :
    (keys held : List GoString) (x : GoString)
    → member held x ≡ true
    → member (give keys held).1.held x ≡ true
unfolding member
give_held [] held x h = h
give_held (key ∷ keys) held x h = ground (arith, eq_iff key x)

-- What is handed out was not being processed, and is now.
give-some :
    (keys held : List GoString) (key : GoString)
    → (give keys held).0 ≡ some key
    → (member held key ≡ false) × (member (give keys held).1.held key ≡ true)
unfolding member
give-some [] held key h = cc
give-some (first ∷ keys) held key h = elim (Bool-cases (member held first)) [
  | inl e ↦ absurd (none_≢_some key (rw e at h))
  | inr e ↦
      let same = unwrap first key (rw e at h) in
      rw e (ap (member held) (sym same) ∙ e, ground (arith, eq_iff first key))
]
  where
    unwrap : (a b : GoString) → ◌≡◌ {A = Option GoString} (some a) (some b) → a ≡ b
    unwrap a b q = cc

    none_≢_some : (key : GoString) → ◌≡◌ {A = Option GoString} none (some key) → ⊥
    none_≢_some key q = cc

true_≢_false : true ≡ false → ⊥
true_≢_false h = cc

desk_queue : IsWorkQueue desk IsHeld
desk_queue = record {
  waits = λ w w' key e held.
      true_≢_false (sym held ∙ (give-some w.waiting w.held key (ap (λ r. r.0) e)).0);
  takes = λ w w' key e.
      subst (λ v. IsHeld key v) (ap (λ r. r.1) e)
        (give-some w.waiting w.held key (ap (λ r. r.0) e)).1;
  gets = λ x w held. give_held w.waiting w.held x held;
  measures = λ x w held. held;
  requeues = λ x key w held. held;
  forgets = λ x key w held. held;
  finishes = λ x key w differ held. member-keep x key w.held differ held;
  caches = λ x key w held. held;
  clock = λ x w held. held;
  sends = λ x r w held. held;
}

abbrev two_keys : Desk
two_keys = record { waiting = str "default/web" ∷ str "default/old" ∷ []; held = [] }

abbrev one_taken : Desk
one_taken = record { waiting = str "default/old" ∷ []; held = str "default/web" ∷ [] }

abbrev both_taken : Desk
both_taken = record { waiting = []; held = str "default/old" ∷ str "default/web" ∷ [] }

abbrev start_log : List Event
unfolding start_transaction get_version do_request new_request
start_log =
    (start_transaction (traced desk).api fresh.handler
      (both_taken, got (str "default/old") ∷ got (str "default/web") ∷ [])).1.1

process_next_work_item_stuck_example :
    let s = (process_next_work_item (traced desk) (fresh, (two_keys, []))).1 in
    taken (str "default/old") (run_worker (traced desk) 5 s).1.1 ≡ taken (str "default/old") s.1.1
unfolding collect wrap64 start_transaction get_version do_request get_field ◌==◌ member
process_next_work_item_stuck_example =
    process_next_work_item_stuck desk IsHeld desk_queue fresh two_keys one_taken []
      (str "default/web") (str "default/old") (str "failed to start transaction: 7") [] []
      (both_taken, got (str "default/old") ∷ got (str "default/web") ∷ []) (both_taken, start_log)
      refl refl refl 5
