-- ===== src/Service/Listing.antt =====
-- ListServiceMappings: its order, and that it lists every mapping once.
use mathlib.Core.List.{Perm}
use mathlib.Core.List.Perm
use pod_proxier.Base.{
  ℕ, ◌≤◌, List, [], ◌∷◌, All, map, arith, ltb, ltb-true, ltb-false, Bool-cases, inl, inr,
}
use pod_proxier.Service.State.{ServiceController, ServiceMapping, Mappings}
use pod_proxier.Service.Mapping.{listed, insert_by_time, sort_mappings, list_service_mappings}

-- Each mapping is at least as young as all that follow it.
abbrev pub IsLatestFirst : List ServiceMapping → Type 0
IsLatestFirst [] = Unit
IsLatestFirst (m ∷ ms) = All (λ n. n.created_at ≤ m.created_at) ms × IsLatestFirst ms

All-le_trans :
    (a b : ℕ) (ms : List ServiceMapping)
    → a ≤ b
    → All (λ n. n.created_at ≤ a) ms
    → All (λ n. n.created_at ≤ b) ms
All-le_trans a b [] h all = tt
All-le_trans a b (m ∷ ms) h (here, there) = (omega arith, All-le_trans a b ms h there)

insert_by_time-All :
    (m : ServiceMapping) (ms : List ServiceMapping) (t : ℕ)
    → m.created_at ≤ t
    → All (λ n. n.created_at ≤ t) ms
    → All (λ n. n.created_at ≤ t) (insert_by_time m ms)
unfolding insert_by_time
insert_by_time-All m [] t h all = (h, tt)
insert_by_time-All m (n ∷ ns) t h (here, there) =
    elim (Bool-cases (ltb m.created_at n.created_at)) [
      | inl e ↦ rw (e, insert_by_time) (here, insert_by_time-All m ns t h there)
      | inr e ↦ rw (e, insert_by_time) (h, (here, there))
    ]

insert_by_time-IsLatestFirst :
    (m : ServiceMapping) (ms : List ServiceMapping)
    → IsLatestFirst ms
    → IsLatestFirst (insert_by_time m ms)
unfolding insert_by_time
insert_by_time-IsLatestFirst m [] h = (tt, tt)
insert_by_time-IsLatestFirst m (n ∷ ns) (all, rest) =
    elim (Bool-cases (ltb m.created_at n.created_at)) [
      | inl e ↦
          rw (e, insert_by_time)
            (
              insert_by_time-All m ns n.created_at
                  (omega (arith, ltb-true m.created_at n.created_at e)) all,
              insert_by_time-IsLatestFirst m ns rest,
            )
      | inr e ↦
          rw (e, insert_by_time)
            (let older = ltb-false m.created_at n.created_at e in
              ((older, All-le_trans n.created_at m.created_at ns older all), (all, rest)))
    ]

sort_mappings-IsLatestFirst : (ms : Mappings) → IsLatestFirst (sort_mappings ms)
unfolding sort_mappings
sort_mappings-IsLatestFirst [] = tt
sort_mappings-IsLatestFirst ((_, m) ∷ ms) =
    insert_by_time-IsLatestFirst (listed m) (sort_mappings ms) (sort_mappings-IsLatestFirst ms)

insert_by_time-Perm :
    (m : ServiceMapping) (ms : List ServiceMapping) → Perm (insert_by_time m ms) (m ∷ ms)
unfolding insert_by_time
insert_by_time-Perm m [] = Perm.refl (m ∷ [])
insert_by_time-Perm m (n ∷ ns) = elim (Bool-cases (ltb m.created_at n.created_at)) [
  | inl e ↦
      rw (e, insert_by_time)
        (Perm.trans (Perm.cons n (insert_by_time-Perm m ns)) (Perm.swap m n ns))
  | inr e ↦ rw (e, insert_by_time) (Perm.refl (m ∷ n ∷ ns))
]

sort_mappings-Perm : (ms : Mappings) → Perm (sort_mappings ms) (map (λ (_, m). listed m) ms)
unfolding sort_mappings
sort_mappings-Perm [] = Perm.refl []
sort_mappings-Perm ((_, m) ∷ ms) =
    Perm.trans (insert_by_time-Perm (listed m) (sort_mappings ms))
      (Perm.cons (listed m) (sort_mappings-Perm ms))

-- ListServiceMappings lists every mapping once, without its bind's name, the latest first.
pub list_service_mappings-IsLatestFirst :
    (c : ServiceController)
    → IsLatestFirst (list_service_mappings c)
      × Perm (list_service_mappings c) (map (λ (_, m). listed m) c.service_mappings)
unfolding list_service_mappings
list_service_mappings-IsLatestFirst c =
    (sort_mappings-IsLatestFirst c.service_mappings, sort_mappings-Perm c.service_mappings)
