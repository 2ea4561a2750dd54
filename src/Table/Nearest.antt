-- ===== src/Table/Nearest.antt =====
-- NearestPeers, NearestPeer and Find of table.go, with sorting.go and kadrttsorting.go.
use kadrtt_test_plan.Base.{
  ℕ, zero, suc, ◌*◌, Bool, true, false, ◌&&◌, Option, none, some, List, [], ◌∷◌, ◌++◌, map, leb,
  ltb, ◌==◌, if◌then◌else◌, length, get_elem?, take, select, sort_by, ◌>>=◌,
}
use kadrtt_test_plan.Keyspace.{
  Bytes, PeerId, Hashing, set_bytes, id_less, common_prefix_len, convert_peer_id,
}
use kadrtt_test_plan.Bucket.{PeerInfo, Bucket, get_peer}
use kadrtt_test_plan.Table.{Env, Table, bucket_index, bucket_id_for_peer, peers_of}

-- `peerRTTDistance`, and `peerDistance` where the RTT is not read.
pub record PeerDistance : Type 0 where
  pub p : PeerId
  pub distance : Bytes
  pub rtt : ℕ

unfoldable pub by_distance : PeerDistance → PeerDistance → Bool
by_distance a b = id_less a.distance b.distance

unfoldable pub by_rtt : PeerDistance → PeerDistance → Bool
by_rtt a b = leb a.rtt b.rtt

module _ (h : Hashing) where
  unfoldable pub append_peers : Bytes → List PeerDistance → List PeerInfo → List PeerDistance
  append_peers target out [] = out
  append_peers target out (x ∷ xs) =
      append_peers target
        (out ++ record { p = x.id; distance = h.xor target x.dht_id; rtt = x.rtt } ∷ []) xs

  -- SortClosestPeers.
  unfoldable pub sort_closest_peers : List PeerId → Bytes → List PeerId
  unfolding by_distance
  sort_closest_peers ps target =
      map (λ (x : PeerDistance). x.p)
        (sort_by by_distance
          (map (λ p. record { p = p; distance = h.xor target (convert_peer_id h p); rtt = 0 }) ps))

  -- The buckets before `n`, from the last to the first, while `out` is short.
  append_left : Bytes → ℕ → ℕ → List Bucket → List PeerDistance → List PeerDistance
  append_left target count zero bs out = out
  append_left target count (suc i) bs out =
      if ltb (length out) count
      then append_left target count i bs
          (elim (get_elem? bs i) [ some b ↦ append_peers target out b.list | none ↦ out ])
      else out

  drop_buckets : ℕ → List Bucket → List Bucket
  drop_buckets zero bs = bs
  drop_buckets (suc n) [] = []
  drop_buckets (suc n) (b ∷ bs) = drop_buckets n bs

  -- The target bucket; all buckets to the right if that is short; then those to the left.
  unfoldable pub gather : Bytes → ℕ → ℕ → List Bucket → Bucket → List PeerDistance
  unfolding append_left drop_buckets
  gather target count cpl bs b =
      let own = append_peers target [] b.list in
      let right =
        if ltb (length own) count
        then append_peers target own (peers_of (drop_buckets (suc cpl) bs))
        else own in
      append_left target count cpl bs right

  -- Under KadRTT: nearer than twice the least distance and no slower than the nearest peer.
  preferred : Bytes → ℕ → PeerDistance → Bool
  preferred min_dist f_rtt x =
      ltb (set_bytes x.distance) (set_bytes min_dist * 2) && leb x.rtt f_rtt

module _ {F : Type 0} (env : Env F) where
  unfoldable pub nearest_peers : Bytes → ℕ → Table F → Option (List PeerId)
  unfolding preferred
  nearest_peers id count0 t =
      let h = env.hashing in
      let cpl = bucket_index env t (common_prefix_len h id t.local) in
      get_elem? t.buckets cpl >>= λ b.
      let count = if t.is_kad_rtt then b.beta else count0 in
      let pds = take count (sort_by by_distance (gather h id count cpl t.buckets b)) in
      if t.is_kad_rtt
      then elim pds [
        | [] ↦ some []
        | first ∷ _ ↦ get_elem? t.buckets (bucket_id_for_peer env t first.p) >>= λ fb.
            get_peer first.p fb >>= λ f.
            let rttpds = sort_by by_rtt (gather h id count cpl t.buckets b) in
            some (
              map (λ (x : PeerDistance). x.p)
                (select (preferred h first.distance f.rtt) rttpds
                  ++ select (λ x. if preferred h first.distance f.rtt x then false else true)
                      rttpds))
      ]
      else some (map (λ x. x.p) pds)

  -- `none` inside is the empty ID that the code returns for no peer.
  unfoldable pub nearest_peer : Bytes → Table F → Option (Option PeerId)
  nearest_peer id t =
      nearest_peers id 1 t >>= λ peers. elim peers [ [] ↦ some none | p ∷ _ ↦ some (some p) ]

  unfoldable pub find : PeerId → Table F → Option (Option PeerId)
  find id t = nearest_peers (convert_peer_id env.hashing id) 1 t >>= λ srch. elim srch [
    | [] ↦ some none
    | p ∷ _ ↦ some (if p == id then some p else none)
  ]
