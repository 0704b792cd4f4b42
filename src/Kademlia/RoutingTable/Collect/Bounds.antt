-- ===== src/Kademlia/RoutingTable/Collect/Bounds.antt =====
-- collect_node of src/ss_p2p/kademlia/k_routing_table.cpp ends, and how many nodes it returns.
use mathlib.Core.Bool.{false≢true}
use ss_p2p_node_controller.Common.{
  ℕ, zero, suc, ◌+◌, ◌-◌, ◌≤◌, ◌<◌, max, true, false, ◌≡◌, inl, inr, Bool-cases, leb, List, [],
  length, length-append, none, some, leb→le, not_leb→lt, sym, ◌∙◌, arith,
}
use ss_p2p_node_controller.Kademlia.Node.{KNode}
use ss_p2p_node_controller.Kademlia.Bucket
use ss_p2p_node_controller.Kademlia.Bucket.Select.{get_node_back-Collected}
use ss_p2p_node_controller.Kademlia.RoutingTable.{RoutingTable, get_bucket, calc_branch}
use ss_p2p_node_controller.Kademlia.RoutingTable.Placement.{calc_branch_bounds}
use ss_p2p_node_controller.Kademlia.RoutingTable.Collect.{
  Search, visit, upper, lower, round, goes_on, search, start, max_rounds, collect_node,
}

module _ {E : Type 0} (t : RoutingTable E) (root n : ℕ) (ig : List (KNode E)) where
  -- An invariant of the rounds holds when the loop ends, and it ends by its condition.
  pub search_inv {ℓ} :
      (P : Search E → Type ℓ)
      → ((s : Search E) → goes_on t root n ig s ≡ true → P s → P (round t root n ig s))
      → (rounds : ℕ) (s : Search E) (r : List (KNode E)) → P s
      → search t root n ig rounds s ≡ some r
      → (s' : Search E) × P s' × (s'.ret ≡ r) × (goes_on t root n ig s' ≡ false)
  unfolding search
  search_inv P keep zero s r p e = absurd (none-ne-some e)
    where
      none-ne-some : none ≡ some r → ⊥
      none-ne-some h = cc
  search_inv P keep (suc k) s r p e = elim (Bool-cases (goes_on t root n ig s)) [
    | inl more ↦ search_inv P keep k (round t root n ig s) r (keep s more p) (rw more at e)
    | inr done ↦ (s, p, some_injective s.ret r (rw done at e), done)
  ]
    where
      some_injective : (a b : List (KNode E)) → some a ≡ some b → a ≡ b
      some_injective a b h = cc

  -- The flags are raised exactly when the branches on their side are used up.
  pub record Flags (s : Search E) : Type 0 where
    pub positive : 1 ≤ s.count
    pub upper_done : s.upper_flag ≡ true → root < s.count
    pub lower_done : s.lower_flag ≡ true → 161 < root + s.count
    pub upper_set : 2 ≤ s.count → root < s.count → s.upper_flag ≡ true
    pub lower_set : 2 ≤ s.count → 161 < root + s.count → s.lower_flag ≡ true

  pub round-Flags : (s : Search E) → Flags s → Flags (round t root n ig s)
  unfolding round upper lower
  round-Flags s f = ground arith

  pub start-Flags : Flags (start t root n ig)
  unfolding start
  start-Flags = ground arith

  -- The loop is over before the counter has passed 161.
  stops : (s : Search E) → root ≤ 160 → Flags s → 162 ≤ s.count → goes_on t root n ig s ≡ false
  unfolding goes_on
  stops s h f late = ground (arith, f.upper_set, f.lower_set)

  pub count-round : (s : Search E) → (round t root n ig s).count ≡ s.count + 1
  unfolding round upper lower
  count-round s = ground arith

  early : (s : Search E) → root ≤ 160 → Flags s → goes_on t root n ig s ≡ true → s.count ≤ 161
  early s h f more = elim (Bool-cases (leb s.count 161)) [
    | inl small ↦ leb→le s.count 161 small
    | inr large ↦ absurd (false≢true (sym (stops s h f (not_leb→lt s.count 161 large)) ∙ more))
  ]

  search_total :
      (rounds : ℕ) (s : Search E)
      → root ≤ 160
      → Flags s
      → s.count ≤ 162
      → 163 ≤ rounds + s.count
      → (r : List (KNode E)) × (search t root n ig rounds s ≡ some r)
  unfolding search
  search_total zero s h f c e = absurd (omega arith)
  search_total (suc k) s h f c e = elim (Bool-cases (goes_on t root n ig s)) [
    | inl more ↦ rw more (
        search_total k (round t root n ig s) h (round-Flags s f)
          (omega (arith, count-round s, early s h f more)) (omega (arith, count-round s)))
    | inr done ↦ (s.ret, rw done)
  ]

  -- A visit adds at most the nodes that remain, but one node if none remain.
  length-visit :
      (b : ℕ) (ret : List (KNode E))
      → length (visit t root n ig b ret) ≤ length ret + max 1 (n - length ret)
  unfolding visit
  length-visit b ret = omega (
    arith,
    length-append ret (Bucket.get_node_back (n - length ret) ig (get_bucket t b)),
    (get_node_back-Collected (n - length ret) ig (get_bucket t b)).bounded,
  )

  abbrev Fits : Search E → Type 0
  Fits s = length s.ret ≤ n + 1

  round-Fits : (s : Search E) → goes_on t root n ig s ≡ true → Fits s → Fits (round t root n ig s)
  unfolding round upper lower goes_on
  round-Fits s more f = ground (
    arith,
    length-visit (root - s.count) s.ret,
    length-visit (root + s.count) s.ret,
    length-visit (root + s.count) (visit t root n ig (root - s.count) s.ret),
  )

  start-Fits : Fits (start t root n ig)
  unfolding start
  start-Fits = omega (arith, length-visit root [])

module _ {E : Type 0} (root_node : KNode E) (max_count : ℕ) (ig : List (KNode E))
    (t : RoutingTable E) where
  -- collect_node always ends: its loop stops by its own condition within 162 rounds, for every
  -- table, root node, limit and list of ignored nodes. It then returns at most max_count + 1 nodes.
  pub collect_node_total :
      (r : List (KNode E)) × (collect_node root_node max_count ig t ≡ some r)
      × (length r ≤ max_count + 1)
  unfolding collect_node
  collect_node_total =
      let root = calc_branch t.self_id root_node.id in
      let s = start t root max_count ig in
      let (r, e) =
        search_total t root max_count ig max_rounds s (calc_branch_bounds t.self_id root_node.id).0
          (start-Flags t root max_count ig) (count_start root) (count_start' root) in
      let (s', fits, same, _) =
        search_inv t root max_count ig (Fits t root max_count ig) (round-Fits t root max_count ig)
          max_rounds s r (start-Fits t root max_count ig) e in
      (r, e, rw (← same) fits)
    where
      count_start : (root : ℕ) → (start t root max_count ig).count ≤ 162
      count_start root = unfold start in (omega arith)

      count_start' : (root : ℕ) → 163 ≤ max_rounds + (start t root max_count ig).count
      count_start' root = unfold start in (omega arith)
