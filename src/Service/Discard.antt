-- ===== src/Service/Discard.antt =====
-- When syncService returns an error, and what a batch without a success has done.
use pod_proxier.Base.{
  ℕ, ◌+◌, ◌≤◌, ◌≡◌, refl, ap, ◌∙◌, sym, ◌⊎◌, inl, inr, none, some, List, [], ◌∷◌, arith,
}
use pod_proxier.GoString.{GoString}
use pod_proxier.Haproxy.Response.{GoError}
use pod_proxier.Service.State.{ServiceController}
use pod_proxier.Service.Cluster.{Cluster, Split, parts, malformed, Found, found, absent, broken}
use pod_proxier.Service.Mapping.{State, sync_found, sync_service}
use pod_proxier.Service.Worker.{sync_all, count_success, finish_key}

unwrap : (e e' : GoString) → ◌≡◌ {A = GoError} (some e) (some e') → e ≡ e'
unwrap e e' h = cc

module _ (k : Cluster) where
  sync_found_error :
      (namespace name tx_id e : GoString) (c : ServiceController) (r : Found × (k.api).World)
      → (sync_found k namespace name tx_id c r).0 ≡ some e
      → (r.0 ≡ broken e) × ((sync_found k namespace name tx_id c r).1 ≡ (c, r.1))
  unfolding sync_found
  sync_found_error namespace name tx_id e c (broken e', w) h = (cc, refl)
  sync_found_error namespace name tx_id e c (absent, w) h = cc
  sync_found_error namespace name tx_id e c (found service, w) h = cc

  pub sync_service-malformed :
      (key tx_id e : GoString) (c : ServiceController) (w : (k.api).World)
      → k.split_key key ≡ malformed e
      → sync_service k key tx_id (c, w) ≡ (some e, (c, w))
  unfolding sync_service
  sync_service-malformed key tx_id e c w q = rw (q, sync_service) refl

  pub sync_service-parts :
      (key tx_id namespace name : GoString) (c : ServiceController) (w : (k.api).World)
      → k.split_key key ≡ parts namespace name
      → sync_service k key tx_id (c, w) ≡ sync_found k namespace name tx_id c (k.get_by_key key w)
  unfolding sync_service
  sync_service-parts key tx_id namespace name c w q = rw (q, sync_service) refl

  -- syncService returns an error only where the key cannot be split or the cache fails, and then
  -- the controller is as it was: a port that could not be mapped is no error.
  pub sync_service_error :
      (key tx_id e : GoString) (s : State k)
      → (sync_service k key tx_id s).0 ≡ some e
      → ((k.split_key key ≡ malformed e) ⊎ ((k.get_by_key key s.1).0 ≡ broken e))
        × ((sync_service k key tx_id s).1.0 ≡ s.0)
  sync_service_error key tx_id e (c, w) h = go (k.split_key key) refl
    where
      go :
          (p : Split)
          → k.split_key key ≡ p
          → ((k.split_key key ≡ malformed e) ⊎ ((k.get_by_key key w).0 ≡ broken e))
            × ((sync_service k key tx_id (c, w)).1.0 ≡ c)
      go (malformed e') q =
          let same = sync_service-malformed key tx_id e' c w q in
          (
            inl (q ∙ ap malformed (unwrap e' e (sym (ap (λ r. r.0) same) ∙ h))),
            ap (λ r. r.1.0) same,
          )
      go (parts namespace name) q =
          let same = sync_service-parts key tx_id namespace name c w q in
          let (cache, kept) =
            sync_found_error namespace name tx_id e c (k.get_by_key key w)
              (sym (ap (λ r. r.0) same) ∙ h) in
          (inr cache, ap (λ r. r.1.0) same ∙ ap (λ r. r.0) kept)

  count_success-le : (e : GoError) (n : ℕ) → n ≤ count_success k e n
  count_success-le none n = omega arith
  count_success-le (some e) n = omega arith

  sync_all-le :
      (keys : List GoString) (tx_id : GoString) (n : ℕ) (s : State k)
      → n ≤ (sync_all k keys tx_id n s).0
  unfolding sync_all
  sync_all-le [] tx_id n s = omega arith
  sync_all-le (key ∷ keys) tx_id n s =
      let (e, s') = sync_service k key tx_id s in
      omega (
        arith,
        count_success-le e n,
        sync_all-le keys tx_id (count_success k e n) (s'.0, finish_key k key e s'.1),
      )

  failed_only :
      (key tx_id : GoString) (keys : List GoString) (n : ℕ) (s : State k) (r : GoError × State k)
      → sync_service k key tx_id s ≡ r
      → (sync_all k keys tx_id (count_success k r.0 n) (r.1.0, finish_key k key r.0 r.1.1)).0 ≡ n
      → (count_success k r.0 n ≡ n) × (r.1.0 ≡ s.0)
  failed_only key tx_id keys n s (none, s') e h =
      absurd (omega (arith, sync_all-le keys tx_id (n + 1) (s'.0, finish_key k key none s'.1)))
  failed_only key tx_id keys n s (some e', s') e h =
      (refl, sym (ap (λ r. r.1.0) e) ∙ (sync_service_error key tx_id e' s (ap (λ r. r.0) e)).1)

  -- A batch without a success leaves the controller as it was, so that nothing is lost when its
  -- transaction is discarded.
  pub sync_all_unsuccessful :
      (keys : List GoString) (tx_id : GoString) (n : ℕ) (s : State k)
      → (sync_all k keys tx_id n s).0 ≡ n
      → (sync_all k keys tx_id n s).1.0 ≡ s.0
  unfolding sync_all
  sync_all_unsuccessful [] tx_id n s h = refl
  sync_all_unsuccessful (key ∷ keys) tx_id n s h =
      let r = sync_service k key tx_id s in
      let (none_counted, kept) = failed_only key tx_id keys n s r refl h in
      sync_all_unsuccessful keys tx_id (count_success k r.0 n) _ (h ∙ sym none_counted) ∙ kept
