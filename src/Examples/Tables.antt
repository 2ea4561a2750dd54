-- ===== src/Examples/Tables.antt =====
-- The routing table's theorems on a table of five peers.
use kadrtt_test_plan.Base.{ℕ, ◌≡◌, inr, Bool, true, some, List, [], ◌∷◌, arith}
use kadrtt_test_plan.Keyspace.{common_prefix_len}
use kadrtt_test_plan.Table.{Table}
use kadrtt_test_plan.Table.Buckets.{next_bucket}
use kadrtt_test_plan.Table.Invariant.{IsPlaced}
use kadrtt_test_plan.Table.Totals.{IsSized, next_bucket_total}
use kadrtt_test_plan.Table.Refreshing.{IdsDiffer}
use kadrtt_test_plan.Bucket.{Bucket}
use kadrtt_test_plan.Table.Totals.{IsSized, next_bucket_total}
use kadrtt_test_plan.Examples.{info, bucket_of, small_env, table_with, five_peers}

pub five_peers-IsPlaced : (kad_rtt : Bool) → IsPlaced small_env (table_with kad_rtt 2 five_peers)
unfolding common_prefix_len
five_peers-IsPlaced kad_rtt = record {
  nonempty = omega arith;
  placed = ground arith;
  apart = ground arith;
  fresh = ground arith;
}

five_peers-IsSized : (kad_rtt : Bool) → IsSized small_env 8 (table_with kad_rtt 2 five_peers)
unfolding common_prefix_len
five_peers-IsSized kad_rtt = record {
  nonempty = omega arith;
  below = ground arith;
  room = inr (omega arith);
}

five_peers-IdsDiffer : IdsDiffer five_peers
five_peers-IdsDiffer = ground arith

next_bucket_total_example :
    (t' : Table ℕ) × (next_bucket small_env 8 (table_with true 2 five_peers) ≡ some t')
    × IsSized small_env 8 t'
next_bucket_total_example =
    next_bucket_total small_env 8 8 (table_with true 2 five_peers) (five_peers-IsSized true)
      (omega arith) (omega arith)

abbrev with_empty : List Bucket
with_empty = bucket_of 0 (info 130 9000000 ∷ []) ∷ bucket_of 1 [] ∷ bucket_of 2 [] ∷ []

-- The first bucket has one peer, which is slower than peer 200.
abbrev one_slow : List Bucket
one_slow = bucket_of 0 (info 130 9000000 ∷ []) ∷ bucket_of 1 (info 70 7000000 ∷ []) ∷ []

-- Its bucket, now empty, is dropped.
