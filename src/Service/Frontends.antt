-- ===== src/Service/Frontends.antt =====
-- The names of the frontends that belong to the V2 controller's mappings.
use mathlib.Core.List.{append_assoc}
use pod_proxier.Base.{
  ℕ, zero, suc, subst, ◌+◌, ◌/◌, ◌%◌, ◌^◌, ◌≤◌, ◌<◌, ◌≡◌, ◌≢◌, refl, sym, ap, ◌∙◌, inl, inr, some,
  [], ◌∷◌, ◌++◌, All-append, arith, ltb, Bool-cases,
}
use pod_proxier.Base.Int.{pos}
use pod_proxier.GoString.{GoString, str}
use pod_proxier.GoString.Number.{digits, itoa, format_int, magnitude}
use pod_proxier.GoString.Decimal.{magnitude-itoa}
use pod_proxier.GoString.Prefix.{Lacks}
use pod_proxier.Haproxy.Handle.{cat}
use pod_proxier.Service.State.{ServiceController, ServiceMapping, lookup}
use pod_proxier.Service.Consistency.{inserted, erased}
use pod_proxier.Service.Step.{Step, attempt, add, remove, Reach, here, next}
use pod_proxier.Service.Cluster.{Cluster}
use pod_proxier.Service.Mapping.{State}
use pod_proxier.Service.Worker.{run_worker}
use pod_proxier.Service.Reach.{run_worker-Reach}
use pod_proxier.Service.Invariants.{IsFresh}
use pod_proxier.Service.Safety.{run_worker-IsConsistent}

-- A list whose last part is not free of the byte.
not_free : (c : ℕ) (s b : GoString) → Lacks c (s ++ (c ∷ b)) → ⊥
not_free c [] b free = free.0 refl
not_free c (x ∷ s) b free = not_free c s b free.1

tails : (x y : ℕ) (s t : GoString) → x ∷ s ≡ y ∷ t → s ≡ t
tails x y s t h = cc

-- What follows the last occurrence of a byte is determined.
after_last :
    (c : ℕ) (s t a b : GoString) → Lacks c a → Lacks c b → s ++ (c ∷ a) ≡ t ++ (c ∷ b) → a ≡ b
after_last c [] [] a b la lb h = tails c c a b h
after_last c [] (y ∷ t) a b la lb h = absurd (not_free c t b (subst (Lacks c) (tails c y a _ h) la))
after_last c (x ∷ s) [] a b la lb h =
    absurd (not_free c s a (subst (Lacks c) (sym (tails x c _ b h)) lb))
after_last c (x ∷ s) (y ∷ t) a b la lb h = after_last c s t a b la lb (tails x y _ _ h)

digits-Lacks : (fuel n : ℕ) → Lacks 58 (digits fuel n)
unfolding digits
digits-Lacks zero n = tt
digits-Lacks (suc fuel) n = elim (Bool-cases (ltb n 10)) [
  | inl e ↦ rw (e, digits) ((omega arith), tt)
  | inr e ↦
      rw (e, digits)
        (All-append (λ a. a ≢ 58) (digits fuel (n / 10)) ((48 + n % 10) ∷ [])
          (digits-Lacks fuel (n / 10)) (omega arith, tt))
]

itoa-injective : (p q : ℕ) → p < 2 ^ 64 → q < 2 ^ 64 → itoa p ≡ itoa q → p ≡ q
itoa-injective p q hp hq e = same (sym (magnitude-itoa p hp) ∙ ap magnitude e ∙ magnitude-itoa q hq)
  where
    same : some p ≡ some q → p ≡ q
    same h = cc

-- The name that processServiceWithTx gives the frontend of a mapping.
abbrev pub frontend_text : ServiceMapping → GoString
frontend_text m = cat (
    str "SVC_FRONTEND_"
    ∷ m.namespace
    ∷ str "."
    ∷ m.service_name
    ∷ str ":"
    ∷ format_int (pos m.mapped_port)
    ∷ [])

frontend_text-injective :
    (m n : ServiceMapping)
    → m.mapped_port < 2 ^ 64
    → n.mapped_port < 2 ^ 64
    → frontend_text m ≡ frontend_text n
    → m.mapped_port ≡ n.mapped_port
unfolding format_int itoa
frontend_text-injective m n hm hn e = itoa-injective m.mapped_port n.mapped_port hm hn (
    after_last 58 (front m) (front n) (itoa m.mapped_port) (itoa n.mapped_port)
      (digits-Lacks (suc m.mapped_port) m.mapped_port)
      (digits-Lacks (suc n.mapped_port) n.mapped_port) (split m ∙ e ∙ sym (split n)))
  where
    front : ServiceMapping → GoString
    front m = str "SVC_FRONTEND_" ++ (m.namespace ++ (46 ∷ m.service_name))

    split : (m : ServiceMapping) → front m ++ (58 ∷ itoa m.mapped_port) ≡ frontend_text m
    split m =
        ap (λ t. str "SVC_FRONTEND_" ++ t)
          (append_assoc m.namespace (46 ∷ m.service_name) (58 ∷ itoa m.mapped_port))

-- Every mapping stands with the name of its frontend.
record IsNamed (c : ServiceController) : Type 0 where
  named :
      (key : GoString) (m : ServiceMapping)
      → lookup key c.service_mappings ≡ some m
      → m.frontend_name ≡ frontend_text m

Step-IsNamed : {c d : ServiceController} → Step c d → IsNamed c → IsNamed d
Step-IsNamed {c} (attempt p free) v = record { named = v.named }
Step-IsNamed {c} (add service port p t namespace target fresh low high free _) v = record {
  named = λ key m e. elim (inserted c _ _ key m e) [
    | inl (k, same) ↦ rw (← same) refl
    | inr old ↦ v.named key m old
  ];
}
Step-IsNamed {c} (remove key m there) v = record {
  named = λ j n e. v.named j n (erased c key m j n e).1;
}

Reach-IsNamed : {c d : ServiceController} → Reach c d → IsNamed c → IsNamed d
Reach-IsNamed here v = v
Reach-IsNamed (next r st) v = Step-IsNamed st (Reach-IsNamed r v)

Step-end : {c d : ServiceController} → Step c d → d.port_range_end ≡ c.port_range_end
Step-end (attempt p _) = refl
Step-end (add service port p t _ _ _ _ _ _ _) = refl
Step-end (remove key m _) = refl

Reach-end : {c d : ServiceController} → Reach c d → d.port_range_end ≡ c.port_range_end
Reach-end here = refl
Reach-end (next r st) = Step-end st ∙ Reach-end r

module _ (k : Cluster) (turns : ℕ) (s : State k) where
  ports_bounded :
      IsFresh s.0
      → s.0.port_range_end ≤ 65535
      → (key : GoString) (m : ServiceMapping)
      → lookup key (run_worker k turns s).0.service_mappings ≡ some m
      → m.mapped_port < 2 ^ 64
  ports_bounded fresh high key m there =
      let (_, below, _) = (run_worker-IsConsistent k turns s fresh).marked key m there in
      omega (arith, Reach-end (run_worker-Reach k turns s))

  IsFresh-IsNamed : IsFresh s.0 → IsNamed s.0
  unfolding lookup
  IsFresh-IsNamed fresh = record { named = λ key m e. ground (arith, ap (lookup key) fresh.0) }

  -- From a controller without mappings and taken ports whose range ends at 65535 or below, after
  -- any number of turns of the worker: two mappings with one name of a frontend are the same.
  pub run_worker_frontends :
      (key key' : GoString) (m m' : ServiceMapping)
      → IsFresh s.0
      → s.0.port_range_end ≤ 65535
      → lookup key (run_worker k turns s).0.service_mappings ≡ some m
      → lookup key' (run_worker k turns s).0.service_mappings ≡ some m'
      → m.frontend_name ≡ m'.frontend_name
      → key ≡ key'
  run_worker_frontends key key' m m' fresh high e e' same =
      let v = Reach-IsNamed (run_worker-Reach k turns s) (IsFresh-IsNamed fresh) in
      (run_worker-IsConsistent k turns s fresh).distinct key key' m m' e e' (
        frontend_text-injective m m' (ports_bounded fresh high key m e)
          (ports_bounded fresh high key' m' e') (sym (v.named key m e) ∙ same ∙ v.named key' m' e'))
