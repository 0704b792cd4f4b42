-- ===== src/Kademlia/RoutingTable/Placement.antt =====
-- Where the routing table of src/ss_p2p/kademlia/k_routing_table.cpp keeps a node.
use mathlib.Core.List.{not-mem-nil, Nodup-nil}
use mathlib.Core.Logic.Or
use native.Mathlib.Nat.{ℕ_set}
use ss_p2p_node_controller.Common.{
  ℕ, zero, suc, ◌≤◌, ◌<◌, ◌≡◌, ◌≢◌, refl, inl, inr, [], Mem, length, get_or, length-set,
  get_or-set_self, get_or-set_ne, ℕ_discrete, ap, ◌∙◌, ◌⊎◌, arith,
}
use ss_p2p_node_controller.Kademlia.NodeId.{NodeId}
use ss_p2p_node_controller.Kademlia.Node.{KNode}
use ss_p2p_node_controller.Kademlia.Bucket.{Bucket}
use ss_p2p_node_controller.Kademlia.Bucket.Invariant.{
  IsValid, auto_update-IsValid, swap_node-IsValid, move_back-IsValid, delete_node-IsValid,
}
use ss_p2p_node_controller.Kademlia.Bucket.Members.{
  mem-auto_update, mem-swap_node, mem-move_back, mem-delete_node,
}
use ss_p2p_node_controller.Kademlia.RoutingTable.{
  RoutingTable, init, empty_buckets, k_bucket_count, bucket_at, set_bucket, calc_branch,
  calc_branch_index, index_of, auto_update, swap_node, move_back_at, delete_node_at,
}

-- A branch is at most 160, so the index of a bucket is always in range.
pub calc_branch_bounds :
    (self_id id : NodeId) → (calc_branch self_id id ≤ 160) × (calc_branch_index self_id id < 160)
unfolding calc_branch calc_branch_index
calc_branch_bounds self_id id = omega arith

pub record IsWellFormed {E : Type 0} (t : RoutingTable E) : Type 0 where
  pub size : length t.table ≡ 160
  pub valid : (i : ℕ) → IsValid (bucket_at t i)
  pub placed : (i : ℕ) (x : KNode E) → Mem x (bucket_at t i) → index_of t x ≡ i

empty-IsValid : {E : Type 0} → IsValid {E = E} []
empty-IsValid = record { bounded = omega arith; distinct = Nodup-nil }

get_or-empty_buckets : {E : Type 0} (n i : ℕ) → get_or (empty_buckets {E = E} n) i [] ≡ []
unfolding empty_buckets
get_or-empty_buckets zero i = refl
get_or-empty_buckets (suc n) zero = refl
get_or-empty_buckets (suc n) (suc i) = get_or-empty_buckets n i

length-empty_buckets : (E : Type 0) (n : ℕ) → length (empty_buckets {E = E} n) ≡ n
unfolding empty_buckets
length-empty_buckets E zero = refl
length-empty_buckets E (suc n) = ap suc (length-empty_buckets E n)

module _ {E : Type 0} where
  pub bucket_at-init : (self_id : NodeId) (i : ℕ) → bucket_at (init {E = E} self_id) i ≡ []
  unfolding init
  bucket_at-init self_id i = get_or-empty_buckets {E = E} k_bucket_count i

  pub init-IsWellFormed : (self_id : NodeId) → IsWellFormed {E = E} (init self_id)
  unfolding init
  init-IsWellFormed self_id = record {
    size = length-empty_buckets E k_bucket_count;
    valid = λ i. rw (get_or-empty_buckets {E = E} k_bucket_count i) empty-IsValid;
    placed =
        λ i x m. absurd (not-mem-nil (rw (get_or-empty_buckets {E = E} k_bucket_count i) at m));
  }

  pub set_bucket-cases :
      (t : RoutingTable E) (i j : ℕ) (b : Bucket E)
      → IsWellFormed t
      → i < 160
      → ((i ≡ j) × (bucket_at (set_bucket t i b) j ≡ b))
        ⊎ ((i ≢ j) × (bucket_at (set_bucket t i b) j ≡ bucket_at t j))
  set_bucket-cases t i j b w h = elim (ℕ_discrete i j) [
    | yes e ↦ inl (e, rw (← e) (get_or-set_self t.table i b [] (omega (arith, w.size))))
    | no e ↦ inr (e, get_or-set_ne t.table i j b [] e)
  ]

  -- A write of one bucket keeps the table well formed if the new bucket is valid and holds nodes of
  -- its own index only.
  set_bucket-IsWellFormed :
      (t : RoutingTable E) (i : ℕ) (b : Bucket E)
      → IsWellFormed t
      → i < 160
      → IsValid b
      → ((x : KNode E) → Mem x b → index_of t x ≡ i)
      → IsWellFormed (set_bucket t i b)
  set_bucket-IsWellFormed t i b w h v p = record {
    size = length-set t.table i b ∙ w.size;
    valid = λ j. elim (set_bucket-cases t i j b w h) [
      | inl (e, new) ↦ rw new v
      | inr (e, old) ↦ rw old (w.valid j)
    ];
    placed = λ j x m. elim (set_bucket-cases t i j b w h) [
      | inl (e, new) ↦ p x (rw new at m) ∙ e
      | inr (e, old) ↦ w.placed j x (rw old at m)
    ];
  }

  pub index-lt : (t : RoutingTable E) (kn : KNode E) → index_of t kn < 160
  index-lt t kn = (calc_branch_bounds t.self_id kn.id).1

  pub auto_update-IsWellFormed :
      (kn : KNode E) (t : RoutingTable E) → IsWellFormed t → IsWellFormed (auto_update kn t).0
  unfolding auto_update
  auto_update-IsWellFormed kn t w =
      set_bucket-IsWellFormed t (index_of t kn) _ w (index-lt t kn)
        (auto_update-IsValid kn _ (w.valid (index_of t kn)))
        (λ x m.
          Or.elim (ℕ_set _ _) (mem-auto_update kn x _ m) (w.placed (index_of t kn) x)
            (λ e. ap (index_of t) e))

  -- swap_node needs the new node to belong to the bucket of the old one.
  swap_node-IsWellFormed :
      (src dest : KNode E) (t : RoutingTable E)
      → IsWellFormed t
      → index_of t dest ≡ index_of t src
      → IsWellFormed (swap_node src dest t)
  unfolding swap_node
  swap_node-IsWellFormed src dest t w same =
      set_bucket-IsWellFormed t (index_of t src) _ w (index-lt t src)
        (swap_node-IsValid src dest _ (w.valid (index_of t src)))
        (λ x m.
          Or.elim (ℕ_set _ _) (mem-swap_node src dest x _ m) (w.placed (index_of t src) x)
            (λ e. ap (index_of t) e ∙ same))

  pub move_back_at-IsWellFormed :
      (i : ℕ) (kn : KNode E) (t : RoutingTable E)
      → i < 160
      → IsWellFormed t
      → IsWellFormed (move_back_at i kn t)
  unfolding move_back_at
  move_back_at-IsWellFormed i kn t h w =
      set_bucket-IsWellFormed t i _ w h (move_back-IsValid kn _ (w.valid i))
        (λ x m. w.placed i x (mem-move_back kn x _ m))

  pub delete_node_at-IsWellFormed :
      (i : ℕ) (kn : KNode E) (t : RoutingTable E)
      → i < 160
      → IsWellFormed t
      → IsWellFormed (delete_node_at i kn t)
  unfolding delete_node_at
  delete_node_at-IsWellFormed i kn t h w =
      set_bucket-IsWellFormed t i _ w h (delete_node-IsValid kn _ (w.valid i))
        (λ x m. w.placed i x (mem-delete_node kn x _ m))

-- The calls that change a routing table; connection_maintainer's calls on a bucket name its index.
pub data Call (E : Type 0) : Type 0 where
  updates : KNode E → Call E
  swaps : KNode E → KNode E → Call E
  moves deletes : ℕ → KNode E → Call E

-- The program's calls: the buckets that it names exist, and a node is swapped with one of its own
-- bucket.
abbrev pub Allowed : {E : Type 0} → RoutingTable E → Call E → Type 0
Allowed t (updates kn) = Unit
Allowed t (swaps src dest) = index_of t dest ≡ index_of t src
Allowed t (moves i kn) = i < 160
Allowed t (deletes i kn) = i < 160

unfoldable pub step : {E : Type 0} → RoutingTable E → Call E → RoutingTable E
step t (updates kn) = (auto_update kn t).0
step t (swaps src dest) = swap_node src dest t
step t (moves i kn) = move_back_at i kn t
step t (deletes i kn) = delete_node_at i kn t

-- The tables that a new table can become.
pub data Reach {E : Type 0} (self_id : NodeId) : RoutingTable E → Type 0 where
  here : Reach self_id (init self_id)
  next :
      {t : RoutingTable E} (c : Call E) → Reach self_id t → Allowed t c → Reach self_id (step t c)

module _ {E : Type 0} where
  step-IsWellFormed :
      (t : RoutingTable E) (c : Call E) → Allowed t c → IsWellFormed t → IsWellFormed (step t c)
  unfolding step
  step-IsWellFormed t (updates kn) a w = auto_update-IsWellFormed kn t w
  step-IsWellFormed t (swaps src dest) a w = swap_node-IsWellFormed src dest t w a
  step-IsWellFormed t (moves i kn) a w = move_back_at-IsWellFormed i kn t a w
  step-IsWellFormed t (deletes i kn) a w = delete_node_at-IsWellFormed i kn t a w

  -- Whatever calls of auto_update, of swap_node within one bucket, and of move_back and delete_node
  -- on existing buckets a new routing table has seen, it has 160 buckets, each of at most four
  -- nodes with distinct ids, and every node lies in the bucket with the index that
  -- calc_branch_index gives it.
  pub Reach-IsWellFormed :
      (self_id : NodeId) (t : RoutingTable E) → Reach self_id t → IsWellFormed t
  Reach-IsWellFormed self_id _ here = init-IsWellFormed self_id
  Reach-IsWellFormed self_id _ (next {t} c r a) =
      step-IsWellFormed t c a (Reach-IsWellFormed self_id t r)
