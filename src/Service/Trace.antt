-- ===== src/Service/Trace.antt =====
-- The outside world with a log of what is done to it, the latest first.
use pod_proxier.Base.{
  ◌≡◌, ◌≢◌, refl, ap, ◌∙◌, inl, inr, ◌⊎◌, Option, none, some, List, [], ◌∷◌, ◌++◌, All,
}
use pod_proxier.GoString.{GoString, str}
use pod_proxier.Haproxy.Api.{Request, get}
use pod_proxier.Haproxy.Scope.{IsScoped, Ends}
use pod_proxier.Service.State.{ServiceController}
use pod_proxier.Service.Cluster.{Cluster}
use pod_proxier.Service.Mapping.{sync_service}
use pod_proxier.Service.Frame.{sync_service-keeps}

pub data Event : Type 0 where
  added : GoString → Event
  sent : Request → Event
  got : GoString → Event
  finished : GoString → Event
  requeued : GoString → Event
  forgot : GoString → Event

abbrev pub note_got : Option GoString → List Event → List Event
note_got none l = l
note_got (some key) l = got key ∷ l

-- The cluster, with a log beside its world.
abbrev pub traced : Cluster → Cluster
traced k = record {
  api = record {
    World = (k.api).World × List Event;
    send = λ r (w, l). let (a, w') = (k.api).send r w in (a, (w', sent r ∷ l));
    codec = (k.api).codec;
  };
  now = λ (w, l). let (t, w') = k.now w in (t, (w', l));
  queue_get = λ (w, l). let (key, w') = k.queue_get w in (key, (w', note_got key l));
  queue_len = λ (w, l). let (n, w') = k.queue_len w in (n, (w', l));
  queue_add = λ key (w, l). let (u, w') = k.queue_add key w in (u, (w', added key ∷ l));
  queue_add_rate_limited =
      λ key (w, l). let (u, w') = k.queue_add_rate_limited key w in (u, (w', requeued key ∷ l));
  queue_forget = λ key (w, l). let (u, w') = k.queue_forget key w in (u, (w', forgot key ∷ l));
  queue_done = λ key (w, l). let (u, w') = k.queue_done key w in (u, (w', finished key ∷ l));
  get_by_key = λ key (w, l). let (r, w') = k.get_by_key key w in (r, (w', l));
  split_key = k.split_key;
}

-- A read, or a write in the transaction; no key is added, taken, marked done, requeued or forgotten.
abbrev pub IsInTransaction : GoString → Event → Type 0
IsInTransaction tx_id (sent r) = (r.method ≡ get) ⊎ Ends (str "transaction_id=" ++ tx_id) r.path
IsInTransaction tx_id _ = ⊥

in_transaction :
    (tx_id : GoString) (r : Request)
    → tx_id ≢ []
    → IsScoped tx_id r
    → IsInTransaction tx_id (sent r)
in_transaction tx_id r open_tx (inl read) = inl read
in_transaction tx_id r open_tx (inr (q, inl empty, ends)) = absurd (open_tx empty)
in_transaction tx_id r open_tx (inr (q, inr e, (front, ends))) =
    inr (front, ends ∙ ap (λ t. front ++ t) e)

-- What has been logged since the log was `l`.
abbrev pub Since : (Event → Type 0) → List Event → List Event → Type 0
Since Q l l' = (new : List Event) × (l' ≡ new ++ l) × All Q new

-- While a key is synchronised in a transaction, every request to the API is a read or carries the
-- id of that transaction, and no key is added to the work queue, taken from it, marked done,
-- requeued or forgotten.
pub sync_service-IsInTransaction :
    (k : Cluster) (key tx_id : GoString) (c : ServiceController) (w : (k.api).World)
    (l : List Event)
    → tx_id ≢ []
    → Since (IsInTransaction tx_id) l (((sync_service (traced k) key tx_id (c, (w, l))).1).1).1
sync_service-IsInTransaction k key tx_id c w l open_tx =
    sync_service-keeps (traced k) tx_id (λ v. Since (IsInTransaction tx_id) l v.1)
      (λ r v scoped (new, e, all).
        (sent r ∷ new, ap (λ t. sent r ∷ t) e, (in_transaction tx_id r open_tx scoped, all)))
      (λ v p. p) (λ key' v p. p) key (c, (w, l)) ([], refl, tt)
