-- ===== src/Kademlia/RoutingTable/Iterator.antt =====
-- k_bucket_iterator of src/ss_p2p/kademlia/k_routing_table.cpp and the walk over all buckets in
-- connection_maintainer::send_refresh_ping (src/ss_p2p/kademlia/connection_maintainer.cpp).
-- `_bucket_itr` is the index that it points to, and `_branch` a signed number, which never falls
-- below 0 here: `operator--` first makes it -1 at 0, which is out of range, and then 0.
pub mod Walk
use ss_p2p_node_controller.Common.{
  ℕ, zero, suc, ◌+◌, ◌-◌, ◌≤◌, ◌<◌, Bool, true, false, ◌||◌, ◌≡◌, refl, sym, ap, ◌∙◌, inl, inr,
  Bool-cases, if◌then◌else◌, leb, List, [], ◌∷◌, ◌++◌, length, get_or, Option, none, some, arith,
}
use ss_p2p_node_controller.Kademlia.Node.{KNode}
use ss_p2p_node_controller.Kademlia.Bucket
use ss_p2p_node_controller.Kademlia.Bucket.{Bucket}
use ss_p2p_node_controller.Kademlia.RoutingTable.{RoutingTable, bucket_at, k_bucket_count}

pub record BucketIterator : Type 0 where
  pub bucket_itr : ℕ
  pub branch : ℕ

-- `get_begin_bucket_iterator`.
unfoldable pub get_begin_bucket_iterator : BucketIterator
get_begin_bucket_iterator = record { bucket_itr = 0; branch = 1 }

unfoldable pub is_invalid : BucketIterator → Bool
is_invalid itr = leb itr.branch 0 || leb 161 itr.branch

-- Both forms of `operator++` leave this behind.
unfoldable pub increment : BucketIterator → BucketIterator
unfolding is_invalid
increment itr =
    let moved = record itr { branch = itr.branch + 1 } in
    if is_invalid moved
    then record itr { branch = k_bucket_count + 1 }
    else record moved { bucket_itr = itr.bucket_itr + 1 }

-- Both forms of `operator--`. The position moves forwards, as in the source.
unfoldable pub decrement : BucketIterator → BucketIterator
unfolding is_invalid
decrement itr =
    let moved = record itr { branch = itr.branch - 1 } in
    if is_invalid moved
    then record itr { branch = 0 }
    else record moved { bucket_itr = itr.bucket_itr + 1 }

-- `to_begin` goes back by the branch plus one; `none` is a position before the first bucket, which is
-- undefined behaviour.
unfoldable pub to_begin : BucketIterator → Option BucketIterator
to_begin itr =
    if leb (itr.branch + 1) itr.bucket_itr
    then some (record { bucket_itr = itr.bucket_itr - (itr.branch + 1); branch = 1 })
    else none

-- `operator*` and `get_raw`.
abbrev pub deref : {E : Type 0} → RoutingTable E → BucketIterator → Bucket E
deref t itr = bucket_at t itr.bucket_itr

unfoldable pub get_nodes : {E : Type 0} → RoutingTable E → BucketIterator → List (KNode E)
unfolding is_invalid
get_nodes t itr = if is_invalid itr then [] else Bucket.get_nodes (deref t itr)

-- The nested loops of send_refresh_ping: the index of the bucket and the node of each ping, in the
-- order in which they are sent. The rounds bound the outer loop; `none` means that they ran out.
abbrev pub tag : {E : Type 0} → ℕ → List (KNode E) → List (ℕ × KNode E)
tag i [] = []
tag i (n ∷ ns) = (i, n) ∷ tag i ns

unfoldable pub refresh_walk :
    {E : Type 0}
    → RoutingTable E
    → ℕ
    → BucketIterator
    → List (ℕ × KNode E)
    → Option (List (ℕ × KNode E))
refresh_walk t zero itr sent = none
refresh_walk t (suc rounds) itr sent =
    let rest =
      refresh_walk t rounds (increment itr) (sent ++ tag itr.bucket_itr (get_nodes t itr)) in
    if is_invalid itr then some sent else rest

-- The buckets from index `i` on, with their indices.
abbrev pub tag_from : {E : Type 0} → ℕ → List (Bucket E) → List (ℕ × KNode E)
tag_from i [] = []
tag_from i (b ∷ bs) = tag i b ++ tag_from (suc i) bs
