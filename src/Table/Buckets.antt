-- ===== src/Table/Buckets.antt =====
-- removePeer and nextBucket of table.go: how the list of buckets shrinks and grows.
use kadrtt_test_plan.Base.{
  ℕ, zero, suc, ◌+◌, ◌-◌, Bool, true, false, Option, none, some, List, [], ◌∷◌, ◌++◌, leb, ◌==◌,
  if◌then◌else◌, length, get_elem?, ◌>>=◌,
}
use kadrtt_test_plan.Keyspace.{PeerId}
use kadrtt_test_plan.Bucket.{Bucket, new_bucket, len, remove, split}
use kadrtt_test_plan.Table.{Env, Table, peer_removed, update_at, bucket_id_for_peer}
use kadrtt_test_plan.Table.Estimator.{set_opt_values}

-- One round of the loop of `removePeer`, on the two last buckets: drop the last if it is empty; or
-- drop the one before it if that is; or leave the loop, `none`.
unfoldable pub trim_once : List Bucket → Option (List Bucket)
trim_once [] = none
trim_once (b ∷ []) = none
trim_once (b ∷ c ∷ []) =
    if len c == 0 then some (b ∷ []) else if len b == 0 then some (c ∷ []) else none
trim_once (b ∷ c ∷ d ∷ bs) = elim (trim_once (c ∷ d ∷ bs)) [ some l ↦ some (b ∷ l) | none ↦ none ]

-- The loop. Each round drops a bucket, so the number of buckets is fuel enough.
unfoldable pub trim : ℕ → List Bucket → List Bucket
trim zero bs = bs
trim (suc n) bs = elim (trim_once bs) [ some l ↦ trim n l | none ↦ bs ]

module _ {F : Type 0} (env : Env F) where
  unfoldable pub filter_remove : PeerId → Table F → Table F
  filter_remove p t = elim t.df [ some f ↦ record t { df = some (env.df_remove p f) } | none ↦ t ]

  unfoldable pub remove_peer : PeerId → Table F → Option (Table F × Bool)
  unfolding filter_remove
  remove_peer p t =
      let i = bucket_id_for_peer env t p in
      get_elem? t.buckets i >>= λ b.
      if (remove p b).1
      then (let bs = update_at i (λ b'. (remove p b').0) t.buckets in
          some (
            record (filter_remove p t) {
              buckets = trim (length bs) bs;
              notices = peer_removed p ∷ t.notices;
            },
            true,
          ))
      else some (t, false)

  -- The single bucket of a new table gets its parameters.
  unfoldable pub first_values : Table F → Option (Table F)
  first_values t = if length t.buckets - 1 == 0 then set_opt_values env 0 t else some t

  -- The last bucket `b` cut in two.
  unfoldable pub halves : Table F → Bucket → Bucket × Bucket
  halves t b =
      split env.hashing (length t.buckets - 1) t.local
        (new_bucket t.next_ref (env.floats.of_int 0) (env.floats.of_int 1)) b

  unfoldable pub cut : Table F → Bucket → Table F
  cut t b = record t {
    buckets =
        update_at (length t.buckets - 1) (λ _. (halves t b).0) t.buckets ++ (halves t b).1 ∷ [];
    next_ref = t.next_ref + 1;
  }

  -- Under KadRTT the new bucket gets its parameters.
  unfoldable pub last_values : Table F → Option (Table F)
  last_values t = if t.is_kad_rtt then set_opt_values env (length t.buckets - 1) t else some t

  -- What `nextBucket` does before it may call itself, and whether it does. The size of the new
  -- bucket that is compared is read before `setOptValues` sets it.
  unfoldable pub unfold_last : Table F → Option (Table F × Bool)
  unfold_last t = first_values t >>= λ t0. get_elem? t0.buckets (length t0.buckets - 1) >>= λ b.
      last_values (cut t0 b) >>= λ t2.
      let bsize = if t0.is_kad_rtt then (halves t0 b).1.k else t0.bucket_size in
      some (t2, leb bsize (len (halves t0 b).1))

  -- `none` too where the fuel runs out.
  unfoldable pub next_bucket : ℕ → Table F → Option (Table F)
  next_bucket zero t = none
  next_bucket (suc n) t = elim (unfold_last t) [
    | some (t', more) ↦ elim more [ true ↦ next_bucket n t' | false ↦ some t' ]
    | none ↦ none
  ]
