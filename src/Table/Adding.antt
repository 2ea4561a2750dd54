-- ===== src/Table/Adding.antt =====
-- addPeer and addPeer2 of table.go, and TryAddPeer and TryAddPeer2, which take the lock and call them.
use kadrtt_test_plan.Base.{
  ℕ, ◌-◌, Bool, true, false, ◌&&◌, Option, none, some, ◌∷◌, ltb, ◌==◌, if◌then◌else◌, length,
  get_elem?, ◌>>=◌,
}
use kadrtt_test_plan.Keyspace.{PeerId}
use kadrtt_test_plan.Bucket.{PeerInfo, Bucket, len, get_peer, update_peer_in, push_front, min_peer}
use kadrtt_test_plan.Table.{
  Env, Table, peer_added, Error, rejected_high_latency, rejected_no_capacity, rejected_by_filter,
  update_at, update_ref, bucket_id_for_peer, dht_id_of,
}
use kadrtt_test_plan.Table.Buckets.{remove_peer, next_bucket, filter_remove}

-- The table, and Go's pair of a bool and an error.
abbrev pub Added : Type 0 → Type 0
Added F = Table F × Bool × Option Error

-- The arguments of a call, with the time at which it is made and the fuel of `nextBucket`.
pub record Request : Type 0 where
  pub peer : PeerId
  pub query_peer : Bool
  pub is_replaceable : Bool
  pub rtt : ℕ
  pub now : ℕ
  pub fuel : ℕ

module _ {F : Type 0} (env : Env F) where
  unfoldable pub info_of : Request → PeerInfo
  info_of r = record {
    id = r.peer;
    last_useful_at = if r.query_peer then r.now else 0;
    last_successful_outbound_query_at = r.now;
    added_at = r.now;
    dht_id = dht_id_of env r.peer;
    replaceable = r.is_replaceable;
    rtt = r.rtt;
  }

  -- `bucket.pushFront` through a pointer, and the callback.
  unfoldable pub insert : ℕ → PeerInfo → Table F → Table F
  insert ref info t = record t {
    buckets = update_ref ref (push_front info) t.buckets;
    notices = peer_added info.id ∷ t.notices;
  }

  -- The peer is in the table: it is marked useful if it never was and we query it.
  unfoldable pub bump : Request → ℕ → PeerInfo → Table F → Table F
  bump r i found t =
      if found.last_useful_at == 0 && r.query_peer
      then record t {
        buckets =
            update_at i
              (λ b. record b {
                list = update_peer_in r.peer (λ x. record x { last_useful_at = r.now }) b.list;
              })
              t.buckets;
      }
      else t

  -- The peer passed to the filter is taken off it again.
  unfoldable pub give_up : Request → Table F → Added F
  give_up r t = (filter_remove env r.peer t, false, some rejected_no_capacity)

  unfoldable pub replaceable_first : PeerInfo → PeerInfo → Bool
  replaceable_first p1 p2 = p1.replaceable

  unfoldable pub evict : Request → Bucket → PeerId → Table F → Option (Added F)
  evict r b victim t = remove_peer env victim t >>= λ (t', removed).
      some (if removed then (insert b.ref (info_of r) t', true, none) else give_up r t')

  -- A replaceable peer of the full bucket makes place.
  unfoldable pub replace : Request → Bucket → Table F → Option (Added F)
  replace r b t = elim (min_peer replaceable_first b) [
    | some v ↦ if v.replaceable then evict r b v.id t else some (give_up r t)
    | none ↦ some (give_up r t)
  ]

  -- The last bucket is unfolded, and the peer's bucket looked up again. `limit` is how many peers
  -- that bucket may have.
  unfoldable pub after_unfold :
      (Table F → Bucket → ℕ)
      → (Request → Bucket → Table F → Option (Added F))
      → Request
      → Table F
      → Option (Added F)
  after_unfold limit when_full r t = next_bucket env r.fuel t >>= λ t'.
      get_elem? t'.buckets (bucket_id_for_peer env t' r.peer) >>= λ b.
      if ltb (len b) (limit t' b)
      then some (insert b.ref (info_of r) t', true, none)
      else when_full r b t'

  -- The peer is not in the table, and its latency and its groups are accepted.
  unfoldable pub place :
      (Table F → Bucket → ℕ)
      → (Table F → Bucket → ℕ)
      → (Request → Bucket → Table F → Option (Added F))
      → Request
      → ℕ
      → Bucket
      → Table F
      → Option (Added F)
  place limit limit_unfolded when_full r i b t =
      if ltb (len b) (limit t b)
      then some (insert b.ref (info_of r) t, true, none)
      else if i == length t.buckets - 1
      then after_unfold limit_unfolded when_full r t
      else when_full r b t

  -- The checks that come first, in the order of the code; then `place_it`.
  unfoldable pub admit :
      (ℕ → Bucket → Table F → Option (Added F)) → Request → ℕ → Bucket → Table F → Option (Added F)
  admit place_it r i b t = elim (get_peer r.peer b) [
    | some found ↦ some (bump r i found t, false, none)
    | none ↦
        if ltb t.max_latency (env.latency_ewma r.peer)
        then some (t, false, some rejected_high_latency)
        else elim t.df [
          | none ↦ place_it i b t
          | some f ↦
              let (f', allowed) = env.df_try_add r.peer f in
              if allowed
              then place_it i b (record t { df = some f' })
              else some (record t { df = some f' }, false, some rejected_by_filter)
        ]
  ]

  -- The bucket size, and under KadRTT the bucket's own `k`.
  abbrev pub plain_limit : Table F → Bucket → ℕ
  plain_limit t b = t.bucket_size

  abbrev pub rtt_limit : Table F → Bucket → ℕ
  rtt_limit t b = if t.is_kad_rtt then b.k else t.bucket_size

  -- addPeer: an entry has no RTT. Its limit after an unfolding is the bucket's `k` under KadRTT.
  unfoldable pub add_peer : Request → Table F → Option (Added F)
  add_peer r t =
      let i = bucket_id_for_peer env t r.peer in
      get_elem? t.buckets i >>= λ b.
      admit (place plain_limit rtt_limit replace (record r { rtt = 0 })) (record r { rtt = 0 }) i b
        t

  unfoldable pub add_peer2 : Request → Table F → Option (Added F)
  add_peer2 r t =
      let i = bucket_id_for_peer env t r.peer in
      get_elem? t.buckets i >>= λ b. admit (place plain_limit plain_limit replace r) r i b t
