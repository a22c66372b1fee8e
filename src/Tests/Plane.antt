-- ===== src/Tests/Plane.antt =====
-- A Data Plane API that keeps the writes of its transactions, and the promises that it keeps.
use pod_proxier.Base.{
  ℕ, ◌≡◌, ◌≢◌, refl, ap, ◌∙◌, inl, inr, Bool, true, false, ◌&&◌, ◌||◌, Bool-cases, Option, none,
  some, List, [], ◌∷◌, ◌++◌, if◌then◌else◌, keep, arith,
}
use pod_proxier.GoString.{GoString, str, ◌==◌, eq_iff, has_prefix, contains}
use pod_proxier.Haproxy.Types.{transaction_path}
use pod_proxier.Haproxy.Api.{Api, Request, Method, get, post, put, delete, get_field}
use pod_proxier.Haproxy.Handle.{HaproxyHandle, start_of, started, failed, new_request}
use pod_proxier.Haproxy.Scope.{Ends}
use pod_proxier.Haproxy.Plane.{
  DataPlane, IsPlain, tagged, accepts, commits, opening, committing, discarding,
}
use pod_proxier.Tests.Fixtures.{codec, status}

-- The running configuration, the writes of the open transactions, and the queue.
pub record Site : Type 0 where
  pub live : List Request
  pub log : List Request
  pub waiting : List GoString
  pub time : ℕ

-- Does the text end in q?
unfoldable pub ends_with : GoString → GoString → Bool
ends_with q [] = [] == q
ends_with q (c ∷ s) = (c ∷ s) == q || ends_with q s

ends_with-append : (front q : GoString) → ends_with q (front ++ q) ≡ true
unfolding ends_with ◌==◌
ends_with-append [] [] = refl
ends_with-append [] (c ∷ q) = ground (arith, (eq_iff (c ∷ q) (c ∷ q)).1 refl)
ends_with-append (c ∷ front) q = ground (arith, ends_with-append front q)

Ends-ends_with : (q s : GoString) → Ends q s → ends_with q s ≡ true
Ends-ends_with q s (front, e) = ap (ends_with q) e ∙ ends_with-append front q

has_prefix_self : (t u : GoString) → has_prefix (t ++ u) t ≡ true
unfolding has_prefix
has_prefix_self [] u = refl
has_prefix_self (c ∷ t) u = ground (arith, has_prefix_self t u)

contains-append : (front t u : GoString) → contains (front ++ (t ++ u)) t ≡ true
unfolding contains
contains-append [] [] [] = refl
contains-append [] [] (c ∷ u) = refl
contains-append [] (c ∷ t) u = ground (arith, has_prefix_self (c ∷ t) u)
contains-append (c ∷ front) t u = ground (arith, contains-append front t u)

-- Does the request belong to a transaction?
abbrev in_transaction : Request → Bool
in_transaction r = contains r.path (str "transaction_id=")

-- Does it open, commit or delete one?
abbrev manages : Request → Bool
manages r = has_prefix r.path transaction_path

Ends-in_transaction :
    (tx_id : GoString) (r : Request) → Ends (tagged tx_id) r.path → in_transaction r ≡ true
Ends-in_transaction tx_id r (front, e) =
    ap (λ s. contains s (str "transaction_id=")) e
    ∙ contains-append front (str "transaction_id=") tx_id

abbrev waiting_in : GoString → Site → List Request
waiting_in tx_id w = keep (λ r. ends_with (tagged tx_id) r.path) w.log

-- The text behind a path and a slash.
abbrev behind : GoString → GoString → GoString
behind [] [] = []
behind [] (c ∷ s) = s
behind (a ∷ p) [] = []
behind (a ∷ p) (c ∷ s) = behind p s

abbrev judged : Request → ℕ → ℕ
judged r code = if manages r && in_transaction r then 404 else code

unfoldable pub site_code : Request → ℕ
site_code r = elim r.method [
  | get ↦ 200
  | post ↦ judged r 201
  | put ↦ judged r 202
  | delete ↦ judged r 204
]

-- What a write does, where `managed` is what the management of a transaction does.
abbrev done : Request → Site → Site → Site
done r w managed =
    if manages r
    then (if in_transaction r then w else managed)
    else if in_transaction r
    then record w { log = r ∷ w.log }
    else w

unfoldable pub site_after : Request → Site → Site
site_after r w = elim r.method [
  | get ↦ w
  | post ↦ done r w (record w { log = [] })
  | put ↦ done r w (record w { live = waiting_in (behind transaction_path r.path) w ++ w.live })
  | delete ↦ done r w w
]

-- One transaction is open at a time, and its id is `t1`. What is asked for exists.
abbrev pub site : Api
site = record { World = Site; send = λ r w. (status (site_code r), site_after r w); codec = codec }

module _ (tx_id : GoString) (r : Request) (w : Site) where
  abbrev IsKept : Type 0
  IsKept =
      ((site_after r w).live ≡ w.live)
      × (waiting_in tx_id (site_after r w) ≡ (
          if accepts r.method (status (site_code r))
          then r ∷ waiting_in tx_id w
          else waiting_in tx_id w))

  -- By what the request is.
  kept_by :
      (m : Method)
      → m ≢ get
      → r.method ≡ m
      → in_transaction r ≡ true
      → ends_with (tagged tx_id) r.path ≡ true
      → (b : Bool) → manages r ≡ b
      → IsKept
  unfolding site_after site_code
  kept_by get other q inside own b managed = absurd (other refl)
  kept_by post other q inside own true managed = rw (q, inside, managed) (refl, refl)
  kept_by put other q inside own true managed = rw (q, inside, managed) (refl, refl)
  kept_by delete other q inside own true managed = rw (q, inside, managed) (refl, refl)
  kept_by post other q inside own false managed = rw (q, inside, managed, own) (refl, refl)
  kept_by put other q inside own false managed = rw (q, inside, managed, own) (refl, refl)
  kept_by delete other q inside own false managed = rw (q, inside, managed, own) (refl, refl)

  pub site_writes : r.method ≢ get → Ends (tagged tx_id) r.path → IsKept
  site_writes other ends =
      kept_by r.method other refl (Ends-in_transaction tx_id r ends)
        (Ends-ends_with (tagged tx_id) r.path ends) (manages r) refl

pub site_reads : (r : Request) (w : Site) → r.method ≡ get → site_after r w ≡ w
unfolding site_after
site_reads r w q = rw q refl

module _ (r : Request) (w : Site) (managed : manages r ≡ true) where
  pub opened_by :
      (h : HaproxyHandle) (b : Bool)
      → r.method ≡ post
      → in_transaction r ≡ b
      → ((site_after r w).live ≡ w.live)
        × ((tx_id : GoString)
            → start_of site h (status (site_code r)) ≡ started tx_id
            → (tx_id ≢ []) × (waiting_in tx_id (site_after r w) ≡ []))
  unfolding site_after site_code get_field ◌==◌
  opened_by h true q inside =
      rw (q, managed, inside) (refl, λ tx_id e. absurd (failed_≢_started _ tx_id e))
    where
      failed_≢_started : (e tx_id : GoString) → failed e ≡ started tx_id → ⊥
      failed_≢_started e tx_id q = cc
  opened_by h false q outside = rw (q, managed, outside) (refl, λ tx_id e. (named tx_id e, refl))
    where
      named : (tx_id : GoString) → started (str "t1") ≡ started tx_id → tx_id ≢ []
      named tx_id e empty = cc

  pub closed_by :
      (text : GoString) (b : Bool)
      → r.method ≡ put
      → behind transaction_path r.path ≡ text
      → in_transaction r ≡ b
      → (site_after r w).live
        ≡ (if commits (status (site_code r)) then waiting_in text w ++ w.live else w.live)
  unfolding site_after site_code
  closed_by text true q path inside = rw (q, managed, inside) refl
  closed_by text false q path outside = rw (q, managed, outside, path) refl

  pub discarded_by :
      (b : Bool) → r.method ≡ delete → in_transaction r ≡ b → (site_after r w).live ≡ w.live
  unfolding site_after
  discarded_by true q inside = rw (q, managed, inside) refl
  discarded_by false q outside = rw (q, managed, outside) refl

unfoldable pub site_plane : DataPlane site
unfolding has_prefix new_request
site_plane = record {
  live = λ w. w.live;
  pending = waiting_in;
  reads = λ r w q.
      (ap (λ v. v.live) (site_reads r w q), λ tx_id. ap (waiting_in tx_id) (site_reads r w q));
  writes = λ tx_id r w open_tx other ends. site_writes tx_id r w other ends;
  opens = λ h text w. opened_by (opening site h text) w refl h _ refl refl;
  closes = λ h text w. closed_by (committing site h text) w refl text _ refl refl refl;
  discards = λ h text w. discarded_by (discarding site h text) w refl _ refl refl;
}

judged_≢ : (r : Request) (n : ℕ) → n ≢ 0 → judged r n ≢ 0
judged_≢ r n h = elim (Bool-cases (manages r && in_transaction r)) [
  | inl e ↦ rw e (omega arith)
  | inr e ↦ rw e h
]

none_≢_some : (e : GoString) → ◌≡◌ {A = Option GoString} none (some e) → ⊥
none_≢_some e q = cc

site_code_≢ : (r : Request) (m : Method) → r.method ≡ m → site_code r ≢ 0
unfolding site_code
site_code_≢ r get q = rw q (omega arith)
site_code_≢ r post q = rw q (judged_≢ r 201 (omega arith))
site_code_≢ r put q = rw q (judged_≢ r 202 (omega arith))
site_code_≢ r delete q = rw q (judged_≢ r 204 (omega arith))

pub site_plain : IsPlain site
unfolding contains has_prefix
site_plain = record {
  has_code = λ r w answered. site_code_≢ r r.method refl;
  no_error_text = λ r w e q. absurd (none_≢_some e q);
  no_body_text = λ r w differs. refl;
  backends = λ b. refl;
  frontends = λ b. refl;
  binds = λ b. refl;
  servers = λ b. refl;
}
