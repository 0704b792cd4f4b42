-- ===== src/Kademlia/RoutingTable/Collect/Distinct.antt =====
-- collect_node of src/ss_p2p/kademlia/k_routing_table.cpp and nodes that it might return twice.
use mathlib.Core.List.{
  mem-append, exists_of_mem-map, map-append, Nodup-append, Nodup-nil, not-mem-nil, Disjoint,
}
use mathlib.Core.HLevel.{⊥_prop}
use mathlib.Core.Logic.{∥∥₁_elim}
use mathlib.Core.Logic.Or
use native.Mathlib.Bridge.{le_prop}
use ss_p2p_node_controller.Common.{
  ℕ, ◌+◌, ◌-◌, ◌≤◌, ◌<◌, ◌≡◌, refl, sym, ap, ◌∙◌, inl, inr, ◌⊎◌, List, [], Mem, Nodup, length, some,
  arith,
}
use ss_p2p_node_controller.Kademlia.Node.{KNode, ids}
use ss_p2p_node_controller.Kademlia.Bucket
use ss_p2p_node_controller.Kademlia.Bucket.Select.{Collected, get_node_back-Collected}
use ss_p2p_node_controller.Kademlia.RoutingTable.{
  RoutingTable, get_bucket, calc_branch, calc_branch_index, index_of,
}
use ss_p2p_node_controller.Kademlia.RoutingTable.Placement.{IsWellFormed}
use ss_p2p_node_controller.Kademlia.RoutingTable.Collect.{
  Search, visit, upper, round, start, max_rounds, collect_node,
}
use ss_p2p_node_controller.Kademlia.RoutingTable.Collect.Bounds.{search_inv}
use ss_p2p_node_controller.Kademlia.RoutingTable.Collect.Cover.{upper-cases, lower-cases}

module _ {E : Type 0} (t : RoutingTable E) (root n : ℕ) (ig : List (KNode E))
    (w : IsWellFormed t) where
  -- The results have distinct ids and stem from buckets with `lo ≤ index + 1` and `index + 2 ≤ hi`.
  record Spread (lo hi : ℕ) (ret : List (KNode E)) : Type 0 where
    distinct : Nodup (ids ret)
    above : (x : KNode E) → Mem x ret → lo ≤ index_of t x + 1
    below : (x : KNode E) → Mem x ret → index_of t x + 2 ≤ hi

  -- A visit to a branch outside the range gives ids that are not there yet.
  visit-distinct :
      (b lo hi : ℕ) (ret : List (KNode E))
      → (b < lo) ⊎ (hi ≤ b)
      → 1 ≤ b
      → Spread lo hi ret
      → Nodup (ids (visit t root n ig b ret))
  unfolding visit
  visit-distinct b lo hi ret out pos s =
      rw (map-append (λ (k : KNode E). k.id) ret new)
        (Nodup-append.1 (s.distinct, added.distinct (w.valid (b - 1)).distinct, apart))
    where
      new : List (KNode E)
      new = Bucket.get_node_back (n - length ret) ig (get_bucket t b)

      added : Collected (n - length ret) ig (get_bucket t b) new
      added = get_node_back-Collected (n - length ret) ig (get_bucket t b)

      clash : (x y : KNode E) → Mem x ret → Mem y new → x.id ≡ y.id → ⊥
      clash x y mx my e =
          let home : index_of t y ≡ b - 1 = w.placed (b - 1) y (added.inside y my) in
          let same : index_of t x ≡ index_of t y = ap (calc_branch_index t.self_id) e in
          let lo_x = s.above x mx in
          let hi_x = s.below x mx in absurd (elim out [ inl l ↦ omega arith | inr h ↦ omega arith ])

      apart : Disjoint (ids ret) (ids new)
      apart id m m' = ∥∥₁_elim (exists_of_mem-map m) ⊥_prop (λ (x, mx, ex).
          ∥∥₁_elim (exists_of_mem-map m') ⊥_prop (λ (y, my, ey). clash x y mx my (ex ∙ sym ey)))

  visit-Spread :
      (b lo hi lo' hi' : ℕ) (ret : List (KNode E))
      → (b < lo) ⊎ (hi ≤ b)
      → 1 ≤ b
      → (lo' ≤ lo) × (lo' ≤ b)
      → (hi ≤ hi') × (b + 1 ≤ hi')
      → Spread lo hi ret
      → Spread lo' hi' (visit t root n ig b ret)
  visit-Spread b lo hi lo' hi' ret out pos los his s = record {
    distinct = visit-distinct b lo hi ret out pos s;
    above =
        unfold visit in
        (λ x m.
          Or.elim le_prop ((mem-append {s = ret}).0 m) (λ old. omega (arith, s.above x old))
            (λ new. omega (arith, home x new)));
    below =
        unfold visit in
        (λ x m.
          Or.elim le_prop ((mem-append {s = ret}).0 m) (λ old. omega (arith, s.below x old))
            (λ new. omega (arith, home x new)));
  }
    where
      home :
          (x : KNode E)
          → Mem x (Bucket.get_node_back (n - length ret) ig (get_bucket t b))
          → index_of t x ≡ b - 1
      home x m =
          w.placed (b - 1) x
            ((get_node_back-Collected (n - length ret) ig (get_bucket t b)).inside x m)

  record Apart (s : Search E) : Type 0 where
    counted : 1 ≤ s.count
    spread : Spread (root + 1 - s.count) (root + s.count) s.ret

  upper-Spread :
      (s : Search E)
      → Apart s
      → Spread (root - s.count) (root + s.count) (upper t root n ig s).ret
        × ((upper t root n ig s).count ≡ s.count)
  upper-Spread s a = elim (upper-cases t root n ig s) [
    | inl (h, e) ↦ rw e (
      visit-Spread (root - s.count) (root + 1 - s.count) (root + s.count) (root - s.count)
          (root + s.count) s.ret (inl (omega arith)) (omega arith) (omega arith)
          (omega (arith, a.counted)) a.spread,
      refl,
    )
    | inr (h, e) ↦ rw e (widen (root - s.count) (root + s.count) (omega arith) (omega arith), refl)
  ]
    where
      widen : (lo hi : ℕ) → lo ≤ root + 1 - s.count → root + s.count ≤ hi → Spread lo hi s.ret
      widen lo hi l h = record {
        distinct = a.spread.distinct;
        above = λ x m. omega (arith, a.spread.above x m);
        below = λ x m. omega (arith, a.spread.below x m);
      }

  round-Apart : (s : Search E) → Apart s → Apart (round t root n ig s)
  unfolding round
  round-Apart s a =
      let s' = upper t root n ig s in
      let (up, count') = upper-Spread s a in
      elim (lower-cases t root n ig s') [
        | inl (h, e) ↦
            rw (e, count')
              (record {
                counted = omega arith;
                spread =
                    visit-Spread (root + s.count) (root - s.count) (root + s.count)
                      (root + 1 - (s.count + 1)) (root + (s.count + 1)) s'.ret (inr (omega arith))
                      (omega (arith, a.counted)) (omega arith) (omega arith) up;
              })
        | inr (h, e) ↦
            rw (e, count')
              (record {
                counted = omega arith;
                spread = record {
                  distinct = up.distinct;
                  above = λ x m. omega (arith, up.above x m);
                  below = λ x m. omega (arith, up.below x m);
                };
              })
      ]

  start-Apart : 1 ≤ root → Apart (start t root n ig)
  unfolding start
  start-Apart h = record {
    counted = omega arith;
    spread =
        visit-Spread root (root + 1) 0 (root + 1 - 1) (root + 1) [] (inl (omega arith)) h
          (omega arith) (omega arith)
          (record {
            distinct = Nodup-nil;
            above = λ x m. absurd (not-mem-nil m);
            below = λ x m. absurd (not-mem-nil m);
          });
  }

-- On a well-formed table, collect_node returns no two nodes with one id, unless the id of the root
-- node shares all its bits with the id of the table's own node (branch 0).
pub collect_node-Nodup :
    {E : Type 0} (root_node : KNode E) (max_count : ℕ) (ig : List (KNode E)) (t : RoutingTable E)
    (r : List (KNode E))
    → IsWellFormed t
    → 1 ≤ calc_branch t.self_id root_node.id
    → collect_node root_node max_count ig t ≡ some r
    → Nodup (ids r)
unfolding collect_node
collect_node-Nodup root_node max_count ig t r w h e =
    let root = calc_branch t.self_id root_node.id in
    let (s, a, same, _) =
      search_inv t root max_count ig (Apart t root max_count ig w)
        (λ s more a. round-Apart t root max_count ig w s a) max_rounds (start t root max_count ig) r
        (start-Apart t root max_count ig w h) e in
    rw (← same) a.spread.distinct
