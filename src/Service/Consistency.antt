-- ===== src/Service/Consistency.antt =====
-- The invariant that ties the mappings to the ports, and what keeps it.
use pod_proxier.Base.{
  ℕ, ◌≤◌, ◌≡◌, ◌≢◌, ◌⊎◌, sym, ◌∙◌, true, false, none, some, arith, inl, inr, Bool-cases,
  if◌then◌else◌, ◌==◌ as nat_eq, ==_iff,
}
use pod_proxier.GoString.{GoString, ◌==◌, eq_iff}
use pod_proxier.Service.State.{
  ServiceController, ServiceMapping, lookup, insert, erase, is_allocated, set_allocated,
}
use pod_proxier.Service.Maps.{lookup-insert, lookup-erase, is_allocated-set_allocated}

-- Every mapping has a port of the range that is marked as taken, no two mappings have one port,
-- and every marked port belongs to a mapping.
pub record IsConsistent (c : ServiceController) : Type 0 where
  pub marked :
      (key : GoString) (m : ServiceMapping)
      → lookup key c.service_mappings ≡ some m
      → (c.port_range_start ≤ m.mapped_port)
        × (m.mapped_port ≤ c.port_range_end)
        × (is_allocated m.mapped_port c.port_allocations ≡ true)
  pub distinct :
      (key key' : GoString) (m m' : ServiceMapping)
      → lookup key c.service_mappings ≡ some m
      → lookup key' c.service_mappings ≡ some m'
      → m.mapped_port ≡ m'.mapped_port
      → key ≡ key'
  pub owned :
      (p : ℕ)
      → is_allocated p c.port_allocations ≡ true
      → (key : GoString) × (m : ServiceMapping) × (lookup key c.service_mappings ≡ some m)
        × (m.mapped_port ≡ p)

-- Marking a port and recording a mapping for it under a new key.
abbrev pub with_mapping : GoString → ServiceMapping → ServiceController → ServiceController
with_mapping key m c = record c {
  service_mappings = insert key m c.service_mappings;
  port_allocations = set_allocated m.mapped_port true c.port_allocations;
}

-- Dropping a key and freeing its port.
abbrev pub without_mapping : GoString → ServiceMapping → ServiceController → ServiceController
without_mapping key m c = record c {
  service_mappings = erase key c.service_mappings;
  port_allocations = set_allocated m.mapped_port false c.port_allocations;
}

-- Marking a port and freeing it again.
abbrev pub with_attempt : ℕ → ServiceController → ServiceController
with_attempt p c = record c {
  port_allocations = set_allocated p false (set_allocated p true c.port_allocations);
}

module _ (c : ServiceController) (v : IsConsistent c) where
  with_attempt_marks :
      (p q : ℕ)
      → is_allocated p c.port_allocations ≡ false
      → is_allocated q (with_attempt p c).port_allocations ≡ is_allocated q c.port_allocations
  with_attempt_marks p q free = ground (
    arith,
    is_allocated-set_allocated p q false (set_allocated p true c.port_allocations),
    is_allocated-set_allocated p q true c.port_allocations,
  )

  -- A failed attempt leaves no trace.
  pub with_attempt-IsConsistent :
      (p : ℕ) → is_allocated p c.port_allocations ≡ false → IsConsistent (with_attempt p c)
  with_attempt-IsConsistent p free = record {
    marked = λ key m e.
        let (low, high, used) = v.marked key m e in
        (low, high, with_attempt_marks p m.mapped_port free ∙ used);
    distinct = v.distinct;
    owned = λ q used. v.owned q (sym (with_attempt_marks p q free) ∙ used);
  }

module _ (c : ServiceController) (key : GoString) (m : ServiceMapping) where
  -- Where an entry of the new map comes from.
  pub inserted :
      (j : GoString) (n : ServiceMapping)
      → lookup j (with_mapping key m c).service_mappings ≡ some n
      → ((key ≡ j) × (m ≡ n)) ⊎ (lookup j c.service_mappings ≡ some n)
  inserted j n e = elim (Bool-cases (key == j)) [
    | inl same ↦
        inl ((eq_iff key j).0 same, ground (arith, lookup-insert key j m c.service_mappings))
    | inr differ ↦ inr (ground (arith, lookup-insert key j m c.service_mappings))
  ]

  pub lookup_new : lookup key (with_mapping key m c).service_mappings ≡ some m
  lookup_new = ground (arith, lookup-insert key key m c.service_mappings, eq_iff key key)

  pub lookup_old :
      (j : GoString) (n : ServiceMapping)
      → lookup key c.service_mappings ≡ none
      → lookup j c.service_mappings ≡ some n
      → lookup j (with_mapping key m c).service_mappings ≡ some n
  lookup_old j n fresh e = ground (arith, lookup-insert key j m c.service_mappings, eq_iff key j)

  marks :
      (q : ℕ)
      → is_allocated q (with_mapping key m c).port_allocations
        ≡ (if nat_eq m.mapped_port q then true else is_allocated q c.port_allocations)
  marks q = is_allocated-set_allocated m.mapped_port q true c.port_allocations

  -- A new mapping on a free port of the range.
  pub with_mapping-IsConsistent :
      IsConsistent c
      → lookup key c.service_mappings ≡ none
      → c.port_range_start ≤ m.mapped_port
      → m.mapped_port ≤ c.port_range_end
      → is_allocated m.mapped_port c.port_allocations ≡ false
      → IsConsistent (with_mapping key m c)
  with_mapping-IsConsistent v fresh low high free = record {
    marked = λ j n e. elim (inserted j n e) [
      | inl (_, same) ↦ ground (arith, marks n.mapped_port)
      | inr old ↦ ground (arith, marks n.mapped_port, v.marked j n old)
    ];
    distinct = λ j j' n n' e e' ports. elim (inserted j n e) [
      | inl (k, same) ↦ elim (inserted j' n' e') [
        | inl (k', _) ↦ sym k ∙ k'
        | inr old' ↦ absurd (ground (arith, v.marked j' n' old'))
      ]
      | inr old ↦ elim (inserted j' n' e') [
        | inl (k', same) ↦ absurd (ground (arith, v.marked j n old))
        | inr old' ↦ v.distinct j j' n n' old old' ports
      ]
    ];
    owned = λ q used. elim (Bool-cases (nat_eq m.mapped_port q)) [
      | inl same ↦ (key, m, lookup_new, (==_iff m.mapped_port q).0 same)
      | inr differ ↦
          let (j, n, e, p) = v.owned q (ground (arith, marks q)) in
          (j, n, lookup_old j n fresh e, p)
    ];
  }

  pub erased :
      (j : GoString) (n : ServiceMapping)
      → lookup j (without_mapping key m c).service_mappings ≡ some n
      → (key ≢ j) × (lookup j c.service_mappings ≡ some n)
  erased j n e = ground (arith, lookup-erase key j c.service_mappings, eq_iff key j)

  kept :
      (j : GoString) (n : ServiceMapping)
      → key ≢ j
      → lookup j c.service_mappings ≡ some n
      → lookup j (without_mapping key m c).service_mappings ≡ some n
  kept j n differ e = ground (arith, lookup-erase key j c.service_mappings, eq_iff key j)

  frees :
      (q : ℕ)
      → is_allocated q (without_mapping key m c).port_allocations
        ≡ (if nat_eq m.mapped_port q then false else is_allocated q c.port_allocations)
  frees q = is_allocated-set_allocated m.mapped_port q false c.port_allocations

  still_marked :
      (q : ℕ)
      → m.mapped_port ≢ q
      → is_allocated q c.port_allocations ≡ true
      → is_allocated q (without_mapping key m c).port_allocations ≡ true
  still_marked q differ used = ground (arith, frees q)

  freed :
      (q : ℕ)
      → is_allocated q (without_mapping key m c).port_allocations ≡ true
      → (m.mapped_port ≢ q) × (is_allocated q c.port_allocations ≡ true)
  freed q used = ground (arith, frees q)

  -- Removing a mapping that is there.
  pub without_mapping-IsConsistent :
      IsConsistent c
      → lookup key c.service_mappings ≡ some m
      → IsConsistent (without_mapping key m c)
  without_mapping-IsConsistent v there = record {
    marked = λ j n e.
        let (differ, old) = erased j n e in
        let (low, high, used) = v.marked j n old in
        (
          low,
          high,
          still_marked n.mapped_port (λ ports. differ (v.distinct key j m n there old ports)) used,
        );
    distinct =
        λ j j' n n' e e' ports. v.distinct j j' n n' (erased j n e).1 (erased j' n' e').1 ports;
    owned = λ q used.
        let (differ, old) = freed q used in
        let (j, n, e, p) = v.owned q old in
        (j, n, kept j n (λ same. differ (same_port j n e same ∙ p)) e, p);
  }
    where
      same_port :
          (j : GoString) (n : ServiceMapping)
          → lookup j c.service_mappings ≡ some n
          → key ≡ j
          → m.mapped_port ≡ n.mapped_port
      same_port j n e same = cc
