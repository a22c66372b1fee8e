-- ===== src/Service/Failure.antt =====
-- One turn of the worker in which the transaction cannot be opened.
use pod_proxier.Base.{◌≡◌, refl, ap, ◌∙◌, some, List, ◌∷◌}
use pod_proxier.GoString.{GoString}
use pod_proxier.Haproxy.Handle.{failed, start_transaction}
use pod_proxier.Service.State.{ServiceController}
use pod_proxier.Service.Cluster.{Cluster}
use pod_proxier.Service.Trace.{Event, got, traced}
use pod_proxier.Service.Worker.{
  more, extra_rounds, collect, requeue_all, process_started, process_collected, process_first,
  process_next_work_item,
}
use pod_proxier.Service.Batch.{
  when_got, when_finished, when_requeued, keys_of, onto, requeue_all-requeued, requeue_all-Same,
}
use pod_proxier.Service.Turns.{until_start, batch_got, before}

module _ (k : Cluster) where
  pub process_started-failed :
      (key e : GoString) (rest : List GoString) (c : ServiceController)
      (v : (k.api).World × List Event)
      → process_started (traced k) key rest c (failed e, v)
        ≡ (more, (c, requeue_all (traced k) (key ∷ rest) v))
  unfolding process_started
  process_started-failed key e rest c v = refl

  -- When the transaction cannot be opened, every key of the batch is requeued, but only the first
  -- is marked done: the others stay in the queue's set of keys that are being processed.
  pub process_next_work_item_failed :
      (c : ServiceController) (w w1 : (k.api).World) (l : List Event) (key e : GoString)
      (rest : List GoString) (v2 v3 : (k.api).World × List Event)
      → k.queue_get w ≡ (some key, w1)
      → collect (traced k) (extra_rounds c.max_batch_size) (w1, got key ∷ l) ≡ (rest, v2)
      → start_transaction (traced k).api c.handler v2 ≡ (failed e, v3)
      → let (turn, (c', v')) = process_next_work_item (traced k) (c, (w, l)) in
        (turn ≡ more)
        × (c' ≡ c)
        × (keys_of when_got v'.1 ≡ onto (key ∷ rest) (keys_of when_got l))
        × (keys_of when_requeued v'.1 ≡ onto (key ∷ rest) (keys_of when_requeued l))
        × (keys_of when_finished v'.1 ≡ key ∷ keys_of when_finished l)
  unfolding process_next_work_item process_first process_collected
  process_next_work_item_failed c w w1 l key e rest v2 v3 taken batch start =
      let finish =
        until_start k when_finished (λ r. refl) (λ key. refl) c.handler _ _ v2 v3 rest _ batch
          start in
      let requeue =
        until_start k when_requeued (λ r. refl) (λ key. refl) c.handler _ _ v2 v3 rest _ batch
          start in
      rw (taken, batch, start, process_started-failed key e rest c v3)
        (
          refl,
          refl,
          requeue_all-Same k when_got (λ key. refl) (key ∷ rest) v3
              ∙ before k when_got (λ r. refl) c.handler v2 v3 _ start
              ∙ batch_got k _ _ v2 rest batch,
          requeue_all-requeued k (key ∷ rest) v3 ∙ ap (onto (key ∷ rest)) requeue,
          ap (λ t. key ∷ t)
              (requeue_all-Same k when_finished (λ key. refl) (key ∷ rest) v3 ∙ finish),
        )
