-- ===== src/Kademlia/RoutingTable/Collect/Cover.antt =====
-- Which nodes collect_node of src/ss_p2p/kademlia/k_routing_table.cpp returns.
use mathlib.Core.List.{mem-append, mem-append_left, mem-append_right, not-mem-nil, Mem-prop}
use mathlib.Core.Bool.{Bool-set}
use mathlib.Core.Logic.Or
use ss_p2p_node_controller.Common.{
  ℕ, ◌+◌, ◌-◌, ◌≤◌, ◌<◌, true, false, ◌≡◌, refl, ◌∙◌, ◌⊎◌, inl, inr, Bool-cases, leb, leb→le,
  not_leb→lt, List, [], Mem, length, length-append, some, arith,
}
use ss_p2p_node_controller.Kademlia.Node.{KNode}
use ss_p2p_node_controller.Kademlia.Bucket
use ss_p2p_node_controller.Kademlia.Bucket.{contains}
use ss_p2p_node_controller.Kademlia.Bucket.Select.{get_node_back-Collected}
use ss_p2p_node_controller.Kademlia.RoutingTable.{
  RoutingTable, bucket_at, get_bucket, calc_branch, index_of,
}
use ss_p2p_node_controller.Kademlia.RoutingTable.Placement.{IsWellFormed, calc_branch_bounds}
use ss_p2p_node_controller.Kademlia.RoutingTable.Collect.{
  Search, visit, upper, lower, round, goes_on, start, max_rounds, collect_node,
}
use ss_p2p_node_controller.Kademlia.RoutingTable.Collect.Bounds.{
  Flags, search_inv, round-Flags, start-Flags,
}

module _ {E : Type 0} (t : RoutingTable E) (root n : ℕ) (ig : List (KNode E)) where
  -- The two outcomes of a visit to one side.
  pub upper-cases :
      (s : Search E)
      → ((s.count + 1 ≤ root)
          × (upper t root n ig s ≡ record s { ret = visit t root n ig (root - s.count) s.ret }))
        ⊎ ((root ≤ s.count) × (upper t root n ig s ≡ record s { upper_flag = true }))
  unfolding upper
  upper-cases s = elim (Bool-cases (leb (s.count + 1) root)) [
    | inl e ↦ inl (leb→le _ _ e, rw e)
    | inr e ↦ inr (ground arith, rw e)
  ]

  pub lower-cases :
      (s : Search E)
      → ((root + s.count ≤ 160)
          × (lower t root n ig s ≡ record s { ret = visit t root n ig (root + s.count) s.ret }))
        ⊎ ((160 < root + s.count) × (lower t root n ig s ≡ record s { lower_flag = true }))
  unfolding lower
  lower-cases s = elim (Bool-cases (leb (root + s.count) 160)) [
    | inl e ↦ inl (leb→le _ _ e, rw e)
    | inr e ↦ inr (not_leb→lt _ _ e, rw e)
  ]

  -- A property of the list of results that every visit to a branch keeps holds at the end of a round.
  pub round_keeps {ℓ} :
      (P : List (KNode E) → Type ℓ)
      → ((b : ℕ) (ret : List (KNode E)) → P ret → P (visit t root n ig b ret))
      → (s : Search E) → P s.ret
      → P (round t root n ig s).ret
  unfolding round upper lower
  round_keeps P keep s p = elim (Bool-cases (leb (s.count + 1) root)) [
    | inl u ↦ elim (Bool-cases (leb (root + s.count) 160)) [
      | inl l ↦ rw (u, l) (keep _ _ (keep _ _ p))
      | inr l ↦ rw (u, l) (keep _ _ p)
    ]
    | inr u ↦ elim (Bool-cases (leb (root + s.count) 160)) [
      | inl l ↦ rw (u, l) (keep _ _ p)
      | inr l ↦ rw (u, l) p
    ]
  ]

  -- The nodes found so far are nodes of the table that are not ignored.
  abbrev pub Sound : List (KNode E) → Type 0
  Sound ret =
      (x : KNode E) → Mem x ret → Mem x (bucket_at t (index_of t x)) × (contains x.id ig ≡ false)

  visit-Sound :
      IsWellFormed t → (b : ℕ) (ret : List (KNode E)) → Sound ret → Sound (visit t root n ig b ret)
  unfolding visit
  visit-Sound w b ret s x m =
      let new = get_node_back-Collected (n - length ret) ig (get_bucket t b) in
      (
        Or.elim Mem-prop (mem-append.0 m) (λ old. (s x old).0)
            (λ added. let home = new.inside x added in rw (w.placed (b - 1) x home) home),
        Or.elim (Bool-set _ _) (mem-append.0 m) (λ old. (s x old).1)
            (λ added. new.unignored x added),
      )

  visit_keeps :
      (b : ℕ) (ret : List (KNode E)) (x : KNode E) → Mem x ret → Mem x (visit t root n ig b ret)
  unfolding visit
  visit_keeps b ret x m = mem-append_left _ m

  visit_grows : (b : ℕ) (ret : List (KNode E)) → length ret ≤ length (visit t root n ig b ret)
  unfolding visit
  visit_grows b ret =
      omega (arith, length-append ret (Bucket.get_node_back (n - length ret) ig (get_bucket t b)))

  visit_adds :
      (b : ℕ) (ret : List (KNode E)) (x : KNode E)
      → length (visit t root n ig b ret) < n
      → Mem x (get_bucket t b)
      → contains x.id ig ≡ false
      → Mem x (visit t root n ig b ret)
  unfolding visit
  visit_adds b ret x short home free =
      let new = get_node_back-Collected (n - length ret) ig (get_bucket t b) in
      let added = Bucket.get_node_back (n - length ret) ig (get_bucket t b) in
      mem-append_right ret (new.exhaustive (omega (arith, length-append ret added)) x home free)

  upper_keeps :
      (s : Search E)
      → ((x : KNode E) → Mem x s.ret → Mem x (upper t root n ig s).ret)
        × (length s.ret ≤ length (upper t root n ig s).ret)
        × ((upper t root n ig s).count ≡ s.count)
  upper_keeps s = elim (upper-cases s) [
    | inl (_, e) ↦
        rw e (visit_keeps (root - s.count) s.ret, visit_grows (root - s.count) s.ret, refl)
    | inr (_, e) ↦ rw e (λ x m. m, omega arith, refl)
  ]

  lower_keeps :
      (s : Search E)
      → ((x : KNode E) → Mem x s.ret → Mem x (lower t root n ig s).ret)
        × (length s.ret ≤ length (lower t root n ig s).ret)
  lower_keeps s = elim (lower-cases s) [
    | inl (_, e) ↦ rw e (visit_keeps (root + s.count) s.ret, visit_grows (root + s.count) s.ret)
    | inr (_, e) ↦ rw e (λ x m. m, omega arith)
  ]

  upper_adds :
      (s : Search E) (i : ℕ) (x : KNode E)
      → length (upper t root n ig s).ret < n
      → i + s.count + 1 ≡ root
      → Mem x (bucket_at t i)
      → contains x.id ig ≡ false
      → Mem x (upper t root n ig s).ret
  upper_adds s i x short at_i home free = elim (upper-cases s) [
    | inl (_, e) ↦
        let here : i ≡ root - s.count - 1 = omega arith in
        rw e (visit_adds (root - s.count) s.ret x (rw e at short) (rw here at home) free)
    | inr (beyond, e) ↦ absurd (omega arith)
  ]

  lower_adds :
      (s : Search E) (i : ℕ) (x : KNode E)
      → length (lower t root n ig s).ret < n
      → i + 1 ≡ root + s.count
      → i < 160
      → Mem x (bucket_at t i)
      → contains x.id ig ≡ false
      → Mem x (lower t root n ig s).ret
  lower_adds s i x short at_i inside home free = elim (lower-cases s) [
    | inl (_, e) ↦
        let here : i ≡ root + s.count - 1 = omega arith in
        rw e (visit_adds (root + s.count) s.ret x (rw e at short) (rw here at home) free)
    | inr (beyond, e) ↦ absurd (omega arith)
  ]

  -- If nodes are still missing, every wanted node of the branches seen so far has been found.
  abbrev pub Covered : Search E → Type 0
  Covered s =
      length s.ret < n
      → (i : ℕ) (x : KNode E) → root ≤ i + s.count
      → i + 2 ≤ root + s.count
      → Mem x (bucket_at t i)
      → contains x.id ig ≡ false
      → Mem x s.ret

  both_sides :
      (s : Search E)
      → IsWellFormed t
      → Covered s
      → length (lower t root n ig (upper t root n ig s)).ret < n
      → (i : ℕ) (x : KNode E) → root ≤ i + s.count + 1
      → i + 1 ≤ root + s.count
      → Mem x (bucket_at t i)
      → contains x.id ig ≡ false
      → Mem x (lower t root n ig (upper t root n ig s)).ret
  both_sides s w c short i x above below home free =
      let s' = upper t root n ig s in
      let (up, up_len, up_count) = upper_keeps s in
      let (down, down_len) = lower_keeps s' in
      elim (Bool-cases (leb root (i + s.count))) [
        | inr first ↦ down x (upper_adds s i x (omega arith) (ground arith) home free)
        | inl above' ↦ elim (Bool-cases (leb (i + 2) (root + s.count))) [
          | inl below' ↦
              down x (up x (c (omega arith) i x (leb→le _ _ above') (leb→le _ _ below') home free))
          | inr last ↦ lower_adds s' i x short (ground arith) (inside w i x home) home free
        ]
      ]
    where
      inside : IsWellFormed t → (j : ℕ) (y : KNode E) → Mem y (bucket_at t j) → j < 160
      inside v j y m = omega (arith, v.placed j y m, (calc_branch_bounds t.self_id y.id).1)

  -- What holds of the loop's variables at the start of every round.
  record Progress (s : Search E) : Type 0 where
    flags : Flags t root n ig s
    sound : Sound s.ret
    covered : Covered s

  round-Progress : IsWellFormed t → (s : Search E) → Progress s → Progress (round t root n ig s)
  round-Progress w s p = record {
    flags = round-Flags t root n ig s p.flags;
    sound = round_keeps Sound (visit-Sound w) s p.sound;
    covered =
        unfold round in
        (λ short i x above below home free.
          let same = (lower_count (upper t root n ig s)) ∙ (upper_keeps s).2 in
          both_sides s w p.covered short i x (omega arith) (omega arith) home free);
  }
    where
      lower_count : (s' : Search E) → (lower t root n ig s').count ≡ s'.count
      lower_count s' = elim (lower-cases s') [ inl (_, e) ↦ rw e | inr (_, e) ↦ rw e ]

  start-Progress : IsWellFormed t → Progress (start t root n ig)
  start-Progress w = record {
    flags = start-Flags t root n ig;
    sound = unfold start in visit-Sound w root [] (λ x m. absurd (not-mem-nil m));
    covered =
        unfold start in
        (λ short i x above below home free.
          let here : i ≡ root - 1 = omega arith in
          visit_adds root [] x short (rw here at home) free);
  }

  -- When the loop ends with nodes still missing, both flags are up and every branch was visited.
  complete :
      (s : Search E)
      → IsWellFormed t
      → Progress s
      → goes_on t root n ig s ≡ false
      → length s.ret < n
      → (i : ℕ) (x : KNode E) → Mem x (bucket_at t i)
      → contains x.id ig ≡ false
      → Mem x s.ret
  complete s w p done short i x home free =
      p.covered short i x (omega (arith, p.flags.upper_done both.0, p.flags.positive))
        (omega (
          arith,
          p.flags.lower_done both.1,
          w.placed i x home,
          (calc_branch_bounds t.self_id x.id).1,
        ))
        home free
    where
      both : (s.upper_flag ≡ true) × (s.lower_flag ≡ true)
      both = unfold goes_on in (let d = done in ground arith)

-- On a well-formed table, every node that collect_node returns lies in the table and is not
-- ignored; and if it returns fewer nodes than max_count, it returns every node of the table that
-- is not ignored.
pub collect_node_complete :
    {E : Type 0} (root_node : KNode E) (max_count : ℕ) (ig : List (KNode E)) (t : RoutingTable E)
    (r : List (KNode E))
    → IsWellFormed t
    → collect_node root_node max_count ig t ≡ some r
    → ((x : KNode E) → Mem x r → Mem x (bucket_at t (index_of t x)) × (contains x.id ig ≡ false))
      × (length r < max_count
          → (i : ℕ) (x : KNode E) → Mem x (bucket_at t i)
          → contains x.id ig ≡ false
          → Mem x r)
unfolding collect_node
collect_node_complete root_node max_count ig t r w e =
    let root = calc_branch t.self_id root_node.id in
    let (s, p, same, done) =
      search_inv t root max_count ig (Progress t root max_count ig)
        (λ s more p. round-Progress t root max_count ig w s p) max_rounds
        (start t root max_count ig) r (start-Progress t root max_count ig w) e in
    rw (← same) (p.sound, λ short. complete t root max_count ig s w p done short)
