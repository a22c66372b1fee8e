-- ===== src/Tests/Worker.antt =====
-- Runs of the V2 controller's worker, and its theorems at a concrete input.
use pod_proxier.Base.Int.{wrap64}
use pod_proxier.Service.Failure.{process_next_work_item_failed}
use pod_proxier.Base.{ℕ, ◌⊎◌, length, ltb}
use pod_proxier.Service.Cluster.{malformed, broken}
use pod_proxier.Service.Mapping.{sync_service}
use pod_proxier.Service.Discard.{sync_service_error, sync_all_unsuccessful}
use pod_proxier.Service.Commit.{closing, process_next_work_item_closes}
use pod_proxier.Service.Worker.{sync_all}
use pod_proxier.Service.Batch.{when_forgot}
use pod_proxier.Service.Trace.{sent, finished}
use pod_proxier.Tests.Fixtures.{idle}
use pod_proxier.Base.{◌+◌, ◌≡◌, refl, List, [], ◌∷◌}
use pod_proxier.GoString.{GoString, str, ◌==◌}
use pod_proxier.Haproxy.Api.{get_field}
use pod_proxier.Haproxy.Handle.{start_transaction, get_version, do_request, new_request}
use pod_proxier.Service.Step.{Reach}
use pod_proxier.Service.Reach.{run_worker-Reach}
use pod_proxier.Service.Consistency.{IsConsistent}
use pod_proxier.Service.Invariants.{IsSelected}
use pod_proxier.Service.Safety.{run_worker-IsConsistent, run_worker-IsSelected}
use pod_proxier.Service.Trace.{Event, got, traced}
use pod_proxier.Service.Batch.{when_got, when_finished, when_requeued, keys_of, onto}
use pod_proxier.Service.Turns.{count, handled, process_next_work_item_started}
use pod_proxier.Service.Worker.{run_worker, process_next_work_item, collect, more}
use pod_proxier.Tests.Fixtures.{cluster_with, fresh, busy, Outside}

run_worker-IsConsistent_example : IsConsistent (run_worker (cluster_with 201) 3 (fresh, busy)).0
run_worker-IsConsistent_example =
    run_worker-IsConsistent (cluster_with 201) 3 (fresh, busy) (refl, refl)

run_worker-IsSelected_example : IsSelected (run_worker (cluster_with 201) 3 (fresh, busy)).0
run_worker-IsSelected_example =
    run_worker-IsSelected (cluster_with 201) 3 (fresh, busy) (refl, refl)

run_worker-Reach_example : Reach fresh (run_worker (cluster_with 201) 3 (fresh, busy)).0
run_worker-Reach_example = run_worker-Reach (cluster_with 201) 3 (fresh, busy)

-- After the first key has been taken, and after the second.
abbrev one_left : Outside
one_left = record busy { waiting = str "default/old" ∷ [] }

abbrev none_left : Outside
none_left = record busy { waiting = [] }

-- The whole queue is one batch.
collect-busy : collect (cluster_with 201) 49 one_left ≡ (str "default/old" ∷ [], none_left)
unfolding collect
collect-busy = refl

-- The log of a turn up to the answer to StartTransaction.
abbrev start_log : List Event
unfolding start_transaction get_version do_request new_request
start_log =
    (start_transaction (traced (cluster_with 201)).api fresh.handler
      (none_left, got (str "default/old") ∷ got (str "default/web") ∷ [])).1.1

process_next_work_item_started_example :
    let l' = (process_next_work_item (traced (cluster_with 201)) (fresh, (busy, []))).1.1.1 in
    (keys_of when_got l' ≡ onto (str "default/web" ∷ str "default/old" ∷ []) [])
    × (keys_of when_finished l' ≡ str "default/web" ∷ onto (str "default/old" ∷ []) [])
    × ((x : GoString)
        → handled x l' ≡ count x (str "default/web" ∷ str "default/old" ∷ []) + handled x [])
unfolding collect wrap64 start_transaction get_version do_request get_field ◌==◌
process_next_work_item_started_example =
    process_next_work_item_started (cluster_with 201) fresh busy one_left [] (str "default/web")
      (str "t1") (str "default/old" ∷ [])
      (none_left, got (str "default/old") ∷ got (str "default/web") ∷ []) (none_left, start_log)
      refl refl refl

-- An API that refuses to open a transaction.
process_next_work_item_failed_example :
    let (turn, (c', v')) = process_next_work_item (traced (cluster_with 500)) (fresh, (busy, [])) in
    (turn ≡ more)
    × (c' ≡ fresh)
    × (keys_of when_got v'.1 ≡ onto (str "default/web" ∷ str "default/old" ∷ []) [])
    × (keys_of when_requeued v'.1 ≡ onto (str "default/web" ∷ str "default/old" ∷ []) [])
    × (keys_of when_finished v'.1 ≡ str "default/web" ∷ [])
unfolding collect wrap64 start_transaction get_version do_request get_field ◌==◌
process_next_work_item_failed_example =
    process_next_work_item_failed (cluster_with 500) fresh busy one_left [] (str "default/web")
      (str "failed to start transaction: 7") (str "default/old" ∷ [])
      (none_left, got (str "default/old") ∷ got (str "default/web") ∷ []) (none_left, start_log)
      refl refl refl

process_next_work_item_closes_example :
    let l' = (process_next_work_item (traced (cluster_with 201)) (fresh, (busy, []))).1.1.1 in
    (n : ℕ) × (earlier : List Event) × (l'
      ≡ finished (str "default/web")
        ∷ sent (closing (cluster_with 201) fresh.handler (str "t1") (ltb 0 n))
        ∷ earlier)
    × (length (keys_of when_forgot l') ≡ n + length (keys_of when_forgot []))
unfolding collect wrap64 start_transaction get_version do_request get_field ◌==◌
process_next_work_item_closes_example =
    process_next_work_item_closes (cluster_with 201) fresh busy one_left [] (str "default/web")
      (str "t1") (str "default/old" ∷ [])
      (none_left, got (str "default/old") ∷ got (str "default/web") ∷ []) (none_left, start_log)
      refl refl refl

sync_service_error_example :
    (((cluster_with 201).split_key (str "web") ≡ malformed (str "unexpected key format"))
      ⊎ (((cluster_with 201).get_by_key (str "web") idle).0 ≡ broken (str "unexpected key format")))
    × ((sync_service (cluster_with 201) (str "web") (str "t1") (fresh, idle)).1.0 ≡ fresh)
unfolding sync_service
sync_service_error_example =
    sync_service_error (cluster_with 201) (str "web") (str "t1") (str "unexpected key format")
      (fresh, idle) refl

sync_all_unsuccessful_example :
    (sync_all (cluster_with 201) (str "web" ∷ str "db" ∷ []) (str "t1") 0 (fresh, idle)).1.0 ≡ fresh
unfolding sync_all sync_service
sync_all_unsuccessful_example =
    sync_all_unsuccessful (cluster_with 201) (str "web" ∷ str "db" ∷ []) (str "t1") 0 (fresh, idle)
      refl
