-- ===== src/Table/Reachable.antt =====
-- The operations of the routing table, in any order, from NewRoutingTable on.
use kadrtt_test_plan.Base.{
  ℕ, ◌≤◌, ◌≡◌, refl, sym, ap, ◌∙◌, inl, inr, Bool, true, false, Option, some, List, [], ◌∷◌, map,
  length, All, arith, Option-cases, ◌>>=◌,
}
use kadrtt_test_plan.Keyspace.{PeerId, Bytes}
use kadrtt_test_plan.Floats.{Floats}
use kadrtt_test_plan.Bucket.{
  PeerInfo, Bucket, get_peer, update_peer_in, update_all_with, new_bucket,
}
use kadrtt_test_plan.Table.{
  Env, Table, update_at, bucket_for_peer, bucket_id_for_peer, update_peer, dht_id_of,
  update_last_successful_outbound_query_at, update_last_useful_at, mark_all_peers_irreplaceable,
  new_routing_table,
}
use kadrtt_test_plan.Table.Buckets.{remove_peer}
use kadrtt_test_plan.Table.Adding.{Request, add_peer, add_peer2}
use kadrtt_test_plan.Table.KadRtt.{add_peer_kad_rtt}
use kadrtt_test_plan.Table.Invariant.{prefix_of, update_at-IsPlaced, remove_peer-IsPlaced}
use kadrtt_test_plan.Table.Returning.{bucket_total, remove_peer_total}
use kadrtt_test_plan.Table.Marks.{update_peer_in-All, mark_all_peers_irreplaceable-IsPlaced}
use kadrtt_test_plan.Table.Thinning.{InEach, update_at-InEach, remove_peer-Kept}
use kadrtt_test_plan.Table.Entries.{ids, AreEntries, IsHashed, AreEntries-IsThinning}
use kadrtt_test_plan.Table.Sound.{
  IsHashing, IsSound, update_peer_in-AreEntries, add_peer-IsSound, add_peer2-IsSound,
  add_peer_kad_rtt-IsSound,
}

-- A call of one of the operations that change the table; SetRTT, which nothing calls, is not among
-- them, since it panics on a peer that the table does not have.
pub data TableOp : Type 0 where
  try_add_peer try_add_peer2 try_add_peer_kad_rtt : Request → TableOp
  remove_one : PeerId → TableOp
  queried_at useful_at : PeerId → ℕ → TableOp
  mark_all : TableOp

map-ids :
    (f : PeerInfo → PeerInfo) (xs : List PeerInfo)
    → ((x : PeerInfo) → (f x).id ≡ x.id)
    → ids (map f xs) ≡ ids xs
map-ids f [] k = refl
map-ids f (x ∷ xs) k = rw (k x) (ap (◌∷◌ x.id) (map-ids f xs k))

module _ {F : Type 0} (env : Env F) where
  unfoldable pub run_op : TableOp → Table F → Option (Table F)
  run_op (try_add_peer r) t = add_peer env r t >>= λ a. some a.0
  run_op (try_add_peer2 r) t = add_peer2 env r t >>= λ a. some a.0
  run_op (try_add_peer_kad_rtt r) t = add_peer_kad_rtt env r t >>= λ a. some a.0
  run_op (remove_one p) t = remove_peer env p t >>= λ a. some a.0
  run_op (queried_at p time) t =
      update_last_successful_outbound_query_at env p time t >>= λ a. some a.0
  run_op (useful_at p time) t = update_last_useful_at env p time t >>= λ a. some a.0
  run_op mark_all t = some (mark_all_peers_irreplaceable t)

  unfoldable pub run_ops : List TableOp → Table F → Option (Table F)
  run_ops [] t = some t
  run_ops (op ∷ ops) t = run_op op t >>= λ t'. run_ops ops t'

  -- The fuel that an addition gives nextBucket is enough.
  abbrev pub HasFuel : TableOp → Type 0
  HasFuel (try_add_peer r) = 257 ≤ r.fuel
  HasFuel (try_add_peer2 r) = 257 ≤ r.fuel
  HasFuel (try_add_peer_kad_rtt r) = 257 ≤ r.fuel
  HasFuel (remove_one p) = Unit
  HasFuel (queried_at p time) = Unit
  HasFuel (useful_at p time) = Unit
  HasFuel mark_all = Unit

  pub remove_peer-IsSound :
      (p : PeerId) (t : Table F)
      → IsSound env t
      → (a : Table F × Bool) × (remove_peer env p t ≡ some a) × IsSound env a.0
  remove_peer-IsSound p t v =
      let (a, e) = remove_peer_total env p t v.placed.nonempty in
      let k = remove_peer-Kept env (AreEntries env) (AreEntries-IsThinning env) p t e in
      (
        a,
        e,
        record {
          placed = remove_peer-IsPlaced env p t v.placed e;
          entries = k.entries v.entries;
          room = rw (k.mode, k.bucket_size) v.room;
          local = rw k.local v.local;
        },
      )

  -- A write of a field of one peer.
  update_peer-IsSound :
      (p : PeerId) (f : PeerInfo → PeerInfo) (t : Table F)
      → ((x : PeerInfo) → (f x).id ≡ x.id)
      → ((x : PeerInfo) → (f x).dht_id ≡ x.dht_id)
      → IsSound env t
      → (a : Table F × Bool) × (update_peer env p f t ≡ some a) × IsSound env a.0
  unfolding update_peer bucket_for_peer
  update_peer-IsSound p f t k l v =
      let (b, g) = bucket_total env t p v.placed.nonempty in
      let i = bucket_id_for_peer env t p in
      let w = λ (b' : Bucket). record b' { list = update_peer_in p f b'.list } in
      elim (Option-cases (get_peer p b)) [
        | inl n ↦ ((t, false), ground arith, v)
        | inr (x, n) ↦ (
          (record t { buckets = update_at i w t.buckets }, true),
          ground arith,
          record {
            placed =
                update_at-IsPlaced env i w t (λ b'. refl)
                  (λ P b' a.
                    update_peer_in-All (λ x'. P (prefix_of env t x')) p f b'.list
                      (λ x' h. rw (l x') h) a)
                  v.placed;
            entries =
                update_at-InEach (AreEntries env) i w t.buckets
                  (λ b'. update_peer_in-AreEntries env p f b'.list k l) v.entries;
            room = v.room;
            local = v.local;
          },
        )
      ]

  pub update_last_successful_outbound_query_at-IsSound :
      (p : PeerId) (time : ℕ) (t : Table F)
      → IsSound env t
      → (a : Table F × Bool) × (update_last_successful_outbound_query_at env p time t ≡ some a)
        × IsSound env a.0
  unfolding update_last_successful_outbound_query_at
  update_last_successful_outbound_query_at-IsSound p time t v =
      update_peer-IsSound p (λ x. record x { last_successful_outbound_query_at = time }) t
        (λ x. refl) (λ x. refl) v

  mark_all-InEach :
      (f : PeerInfo → PeerInfo) (bs : List Bucket)
      → ((x : PeerInfo) → (f x).id ≡ x.id)
      → ((x : PeerInfo) → (f x).dht_id ≡ x.dht_id)
      → InEach (AreEntries env) bs
      → InEach (AreEntries env) (map (update_all_with f) bs)
  unfolding update_all_with
  mark_all-InEach f [] k l a = tt
  mark_all-InEach f (b ∷ bs) k l a =
      ((hashed b.list a.0.0, rw (map-ids f b.list k) a.0.1), mark_all-InEach f bs k l a.1)
    where
      hashed : (xs : List PeerInfo) → All (IsHashed env) xs → All (IsHashed env) (map f xs)
      hashed [] h = tt
      hashed (x ∷ xs) h = (l x ∙ h.0 ∙ ap (dht_id_of env) (sym (k x)), hashed xs h.1)

  pub mark_all-IsSound :
      (t : Table F) → IsSound env t → IsSound env (mark_all_peers_irreplaceable t)
  unfolding mark_all_peers_irreplaceable
  mark_all-IsSound t v = record {
    placed = mark_all_peers_irreplaceable-IsPlaced env t v.placed;
    entries =
        mark_all-InEach (λ p. record p { replaceable = false }) t.buckets (λ x. refl) (λ x. refl)
          v.entries;
    room = v.room;
    local = v.local;
  }

module _ {F : Type 0} (env : Env F) (law : IsHashing env.hashing) where
  run_op-IsSound :
      (op : TableOp) (t : Table F)
      → HasFuel env op
      → IsSound env t
      → (t' : Table F) × (run_op env op t ≡ some t') × IsSound env t'
  unfolding run_op update_last_useful_at
  run_op-IsSound (try_add_peer r) t h v =
      let (a, e, w) = add_peer-IsSound env law r t v h in (a.0, rw (e, run_op) refl, w)
  run_op-IsSound (try_add_peer2 r) t h v =
      let (a, e, w) = add_peer2-IsSound env law r t v h in (a.0, rw (e, run_op) refl, w)
  run_op-IsSound (try_add_peer_kad_rtt r) t h v =
      let (a, e, w) = add_peer_kad_rtt-IsSound env law r t v h in (a.0, rw (e, run_op) refl, w)
  run_op-IsSound (remove_one p) t h v =
      let (a, e, w) = remove_peer-IsSound env p t v in (a.0, rw (e, run_op) refl, w)
  run_op-IsSound (queried_at p time) t h v =
      let (a, e, w) = update_last_successful_outbound_query_at-IsSound env p time t v in
      (a.0, rw (e, run_op) refl, w)
  run_op-IsSound (useful_at p time) t h v =
      let (a, e, w) =
        update_peer-IsSound env p (λ x. record x { last_useful_at = time }) t (λ x. refl)
          (λ x. refl) v in
      (a.0, rw (e, run_op) refl, w)
  run_op-IsSound mark_all t h v = (mark_all_peers_irreplaceable t, refl, mark_all-IsSound env t v)

  run_ops-IsSound :
      (ops : List TableOp) (t : Table F)
      → All (HasFuel env) ops
      → IsSound env t
      → (t' : Table F) × (run_ops env ops t ≡ some t') × IsSound env t'
  unfolding run_ops
  run_ops-IsSound [] t h v = (t, refl, v)
  run_ops-IsSound (op ∷ ops) t h v =
      let (t1, e, w) = run_op-IsSound op t h.0 v in
      let (t2, f, u) = run_ops-IsSound ops t1 h.1 w in (t2, rw (e, run_ops) f, u)

  pub new_routing_table-IsSound :
      (fl : Floats) (bucket_size : ℕ) (local : Bytes) (latency grace : ℕ) (df : Option F) (now : ℕ)
      → length local ≡ 32
      → IsSound env (new_routing_table fl bucket_size local latency grace df now)
  unfolding new_routing_table new_bucket
  new_routing_table-IsSound fl bucket_size local latency grace df now l = record {
    placed = record {
      nonempty = omega arith;
      placed = tt;
      apart = (tt, tt);
      fresh = (omega arith, tt);
    };
    entries = ((tt, tt), tt);
    room = inl refl;
    local = l;
  }

  -- A hash has 32 bytes, as the local node's ID has, the XOR of two of them has 32 too, and each
  -- addition has fuel 257. Then no sequence of calls of the table's operations, from NewRoutingTable
  -- on, panics or runs on without end: TryAddPeer, TryAddPeer2, TryAddPeerKadRTT, RemovePeer, the
  -- updates of a peer's times and MarkAllPeersIrreplaceable. In the table after them there is a
  -- bucket, every peer is in the bucket of its prefix with the hash of its ID, no bucket has an ID
  -- twice, and no two buckets are one object.
  pub run_ops_total :
      (fl : Floats) (bucket_size : ℕ) (local : Bytes) (latency grace : ℕ) (df : Option F) (now : ℕ)
      (ops : List TableOp)
      → length local ≡ 32
      → All (HasFuel env) ops
      → (t : Table F) × (run_ops env ops
            (new_routing_table fl bucket_size local latency grace df now)
          ≡ some t)
        × IsSound env t
  run_ops_total fl bucket_size local latency grace df now ops l h =
      run_ops-IsSound ops (new_routing_table fl bucket_size local latency grace df now) h
        (new_routing_table-IsSound fl bucket_size local latency grace df now l)
