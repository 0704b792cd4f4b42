-- ===== src/Kademlia/RoutingTable/Iterator/Walk.antt =====
-- The walk of src/ss_p2p/kademlia/connection_maintainer.cpp over the buckets, and how the two
-- directions of the bucket iterator fit together.
use mathlib.Core.List.{append-nil, append_assoc}
use ss_p2p_node_controller.Common.{
  ℕ, zero, suc, ◌+◌, ◌≤◌, ◌<◌, false, ◌≡◌, refl, ◌∙◌, List, [], ◌∷◌, ◌++◌, length, get_or, none,
  some, arith,
}
use ss_p2p_node_controller.Kademlia.Node.{KNode}
use ss_p2p_node_controller.Kademlia.Bucket
use ss_p2p_node_controller.Kademlia.Bucket.{Bucket}
use ss_p2p_node_controller.Kademlia.RoutingTable.{RoutingTable, bucket_at}
use ss_p2p_node_controller.Kademlia.RoutingTable.Iterator.{
  BucketIterator, get_begin_bucket_iterator, is_invalid, increment, decrement, get_nodes, tag,
  tag_from, refresh_walk, to_begin,
}

abbrev at_index : ℕ → BucketIterator
at_index i = record { bucket_itr = i; branch = i + 1 }

increment_inside : (i : ℕ) → i < 159 → increment (at_index i) ≡ at_index (i + 1)
unfolding increment
increment_inside i h = ground arith

-- From no bucket that the walk reaches to_begin finds the first one: it leaves the array.
to_begin-at_index : (i : ℕ) → to_begin (at_index i) ≡ none
unfolding to_begin
to_begin-at_index i = ground arith

increment_last : increment (at_index 159) ≡ record { bucket_itr = 159; branch = 161 }
unfolding increment
increment_last = refl

valid_inside : (i : ℕ) → i < 160 → is_invalid (at_index i) ≡ false
unfolding is_invalid
valid_inside i h = ground arith

module _ {E : Type 0} (t : RoutingTable E) where
  walk_step :
      (i k : ℕ) (sent : List (ℕ × KNode E))
      → i < 160
      → refresh_walk t (suc k) (at_index i) sent
        ≡ refresh_walk t k (increment (at_index i)) (sent ++ tag i (bucket_at t i))
  unfolding refresh_walk get_nodes Bucket.get_nodes
  walk_step i k sent h = rw (valid_inside i h)

  walk_end :
      (k : ℕ) (sent : List (ℕ × KNode E))
      → refresh_walk t (suc k) (record { bucket_itr = 159; branch = 161 }) sent ≡ some sent
  unfolding refresh_walk is_invalid
  walk_end k sent = refl

  walk_from :
      (b : Bucket E) (bs : List (Bucket E)) (i k : ℕ) (sent : List (ℕ × KNode E))
      → i + length (b ∷ bs) ≡ 160
      → length (b ∷ bs) < k
      → ((j : ℕ) → bucket_at t (i + j) ≡ get_or (b ∷ bs) j [])
      → refresh_walk t k (at_index i) sent ≡ some (sent ++ tag_from i (b ∷ bs))
  walk_from b bs i zero sent size rounds same = absurd (omega arith)
  walk_from b [] i (suc zero) sent size rounds same = absurd (omega arith)
  walk_from b [] i (suc (suc k)) sent size rounds same =
      let last : i ≡ 159 = omega arith in
      let first : i + 0 ≡ i = omega arith in
      let here : bucket_at t i ≡ b = rw first at (same 0) in
      walk_step i (suc k) sent (omega arith)
      ∙ (rw (here, last, increment_last) (walk_end k (sent ++ tag 159 b) ∙ rw append-nil))
  walk_from b (c ∷ cs) i (suc k) sent size rounds same =
      let first : i + 0 ≡ i = omega arith in
      let here : bucket_at t i ≡ b = rw first at (same 0) in
      walk_step i k sent (omega arith)
      ∙ (rw (here, increment_inside i (omega arith))
          (walk_from c cs (i + 1) k (sent ++ tag i b) (omega arith) (omega arith) later
            ∙ (let e : i + 1 ≡ suc i = omega arith in rw (e, append_assoc))))
    where
      later : (j : ℕ) → bucket_at t (i + 1 + j) ≡ get_or (c ∷ cs) j []
      later j = let e : i + 1 + j ≡ i + suc j = omega arith in rw e (same (suc j))

  -- On a table of 160 buckets, the loop of send_refresh_ping ends and has sent one ping for each
  -- stored node: bucket after bucket from index 0 to 159, in the order of each bucket, and each
  -- ping is bound to the bucket in which its node lies.
  pub refresh_walk-all :
      length t.table ≡ 160
      → refresh_walk t 161 get_begin_bucket_iterator [] ≡ some (tag_from 0 t.table)
  unfolding get_begin_bucket_iterator
  refresh_walk-all size = go t.table refl size
    where
      go :
          (bs : List (Bucket E))
          → t.table ≡ bs
          → length bs ≡ 160
          → refresh_walk t 161 (at_index 0) [] ≡ some (tag_from 0 bs)
      go [] e h = absurd (omega arith)
      go (b ∷ bs) e h =
          walk_from b bs 0 161 [] (omega arith) (omega arith)
            (λ j. let z : 0 + j ≡ j = omega arith in rw (z, e))

-- operator-- does not undo operator++: away from the ends the branch is the old one again, but the
-- position that the iterator dereferences lies two buckets further on.
pub decrement-increment :
    (itr : BucketIterator)
    → 1 ≤ itr.branch
    → itr.branch < 160
    → decrement (increment itr) ≡ record itr { bucket_itr = itr.bucket_itr + 2 }
unfolding decrement increment
decrement-increment itr h k = ground arith
