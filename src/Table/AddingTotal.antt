-- ===== src/Table/AddingTotal.antt =====
-- addPeer, addPeer2 and addPeerKadRTT return, and the table that they return is placed.
use kadrtt_test_plan.Base.{
  get_elem?_total, ℕ, ◌+◌, ◌≤◌, ◌<◌, ◌≡◌, refl, inl, inr, some, List, [], ◌∷◌, length, arith,
  Option-cases,
}
use kadrtt_test_plan.Keyspace.{PeerId}
use kadrtt_test_plan.Bucket.{PeerInfo, Bucket, get_peer}
use kadrtt_test_plan.Table.{Env, Table, bucket_id_for_peer}
use kadrtt_test_plan.Table.Variance.{exchange_choice}
use kadrtt_test_plan.Table.Adding.{
  Added, Request, replace, place, plain_limit, rtt_limit, add_peer, add_peer2,
}
use kadrtt_test_plan.Table.KadRtt.{
  swap, exchange, swap_single, rearrange_table, rearrange, when_full, add_peer_kad_rtt,
}
use kadrtt_test_plan.Table.Invariant.{IsPlaced}
use kadrtt_test_plan.Table.AddingPlaced.{add_peer-IsPlaced, add_peer2-IsPlaced}
use kadrtt_test_plan.Table.KadRttPlaced.{add_peer_kad_rtt-IsPlaced, refresh-IsPlaced}
use kadrtt_test_plan.Table.Totals.{returns, IsSized}
use kadrtt_test_plan.Table.Returning.{
  bucket_total, remove_peer_total, Returns, Answers, replace_total, place_total, admit_total,
}
use kadrtt_test_plan.Table.Refreshing.{IdsDiffer, in_range, refresh_total}

module _ {F : Type 0} (env : Env F) where
  add_peer-Returns :
      (m : ℕ) (r : Request) (t : Table F)
      → IsSized env m t
      → 0 < r.fuel
      → m + 2 ≤ r.fuel + length t.buckets
      → Returns env (add_peer env r t)
  unfolding add_peer
  add_peer-Returns m r t z p h =
      let r' : Request = record r { rtt = 0 } in
      let i = bucket_id_for_peer env t r.peer in
      let (b, g) = bucket_total env t r.peer z.nonempty in
      let (a, e) =
        admit_total env (place env (plain_limit env) (rtt_limit env) (replace env) r') m r' i b t
          (λ t' z' l.
            place_total env (plain_limit env) (rtt_limit env) (replace env) m r' i b t'
              (replace_total env) z' p (rw l h))
          z in
      (a, rw (g, add_peer) e)

  -- On a placed table with a bucket, whose bucket size is not 0 where it is used, with no entry
  -- that shares more than `m` bits with the local node, and with fuel for `m + 2` buckets,
  -- addPeer returns, and the table that it returns is placed, on every branch: the peer that is
  -- known, the two refusals, the free place, the unfolding of the last bucket and the
  -- replacement of an entry.
  pub add_peer_total :
      (m : ℕ) (r : Request) (t : Table F)
      → IsPlaced env t
      → IsSized env m t
      → 0 < r.fuel
      → m + 2 ≤ r.fuel + length t.buckets
      → (a : Added F) × (add_peer env r t ≡ some a) × IsPlaced env a.0
  add_peer_total m r t v z p h =
      let (a, e) = add_peer-Returns m r t z p h in (a, e, add_peer-IsPlaced env r t v e)

  add_peer2-Returns :
      (m : ℕ) (r : Request) (t : Table F)
      → IsSized env m t
      → 0 < r.fuel
      → m + 2 ≤ r.fuel + length t.buckets
      → Returns env (add_peer2 env r t)
  unfolding add_peer2
  add_peer2-Returns m r t z p h =
      let i = bucket_id_for_peer env t r.peer in
      let (b, g) = bucket_total env t r.peer z.nonempty in
      let (a, e) =
        admit_total env (place env (plain_limit env) (plain_limit env) (replace env) r) m r i b t
          (λ t' z' l.
            place_total env (plain_limit env) (plain_limit env) (replace env) m r i b t'
              (replace_total env) z' p (rw l h))
          z in
      (a, rw (g, add_peer2) e)

  -- On a placed table with a bucket, whose bucket size is not 0 where it is used, with no entry
  -- that shares more than `m` bits with the local node, and with fuel for `m + 2` buckets,
  -- addPeer2 returns, and the table that it returns is placed, on every branch.
  pub add_peer2_total :
      (m : ℕ) (r : Request) (t : Table F)
      → IsPlaced env t
      → IsSized env m t
      → 0 < r.fuel
      → m + 2 ≤ r.fuel + length t.buckets
      → (a : Added F) × (add_peer2 env r t ≡ some a) × IsPlaced env a.0
  add_peer2_total m r t v z p h =
      let (a, e) = add_peer2-Returns m r t z p h in (a, e, add_peer2-IsPlaced env r t v e)

  swap_total :
      (r : Request) (b : Bucket) (old : PeerId) (t : Table F)
      → 0 < length t.buckets
      → (t' : Table F) × (swap env r b old t ≡ some t')
  unfolding swap
  swap_total r b old t h =
      let (a, e) = remove_peer_total env old t h in returns (swap env r b old t) (λ n. ground arith)

  exchange_total :
      (r : Request) (b : Bucket) (t : Table F)
      → 0 < length t.buckets
      → (t' : Table F) × (exchange env r b t ≡ some t')
  unfolding exchange
  exchange_total r b t h = elim (Option-cases (exchange_choice env b r.peer r.rtt r.now).0) [
    | inl c ↦ returns (exchange env r b t) (λ n. ground arith)
    | inr (old, c) ↦ elim (Option-cases (get_peer old b)) [
      | inl g ↦ returns (exchange env r b t) (λ n. ground arith)
      | inr (x, g) ↦
          let (t', e) = swap_total r b old t h in returns (exchange env r b t) (λ n. ground arith)
    ]
  ]

  swap_single_total :
      (r : Request) (b : Bucket) (info : PeerInfo) (t : Table F)
      → 0 < length t.buckets
      → (t' : Table F) × (swap_single env r b info t ≡ some t')
  unfolding swap_single
  swap_single_total r b info t h =
      let (a, e) = remove_peer_total env info.id t h in
      returns (swap_single env r b info t) (λ n. ground arith)

  rearrange_table_total :
      (r : Request) (b : Bucket) (xs : List PeerInfo) (t : Table F)
      → b.list ≡ xs
      → 0 < length t.buckets
      → (t' : Table F) × (rearrange_table env r b t ≡ some t')
  unfolding rearrange_table
  rearrange_table_total r b [] t l h = returns (rearrange_table env r b t) (λ n. ground arith)
  rearrange_table_total r b (info ∷ []) t l h =
      let (t', e) = swap_single_total r b info t h in
      returns (rearrange_table env r b t) (λ n. ground arith)
  rearrange_table_total r b (x ∷ y ∷ xs) t l h =
      let (t', e) = exchange_total r b t h in
      returns (rearrange_table env r b t) (λ n. ground arith)

  when_full_total : Answers env (when_full env)
  unfolding when_full rearrange
  when_full_total r b t h =
      let (t', e) = rearrange_table_total r b b.list t refl h in
      let (a, f) = replace_total env (record r { rtt = 0 }) b t h in
      returns (when_full env r b t) (λ n. ground arith)

  add_peer_kad_rtt-Returns :
      (m : ℕ) (r : Request) (t : Table F)
      → IsPlaced env t
      → IdsDiffer t.buckets
      → IsSized env m t
      → 0 < r.fuel
      → m + 2 ≤ r.fuel + length t.buckets
      → Returns env (add_peer_kad_rtt env r t)
  unfolding add_peer_kad_rtt
  add_peer_kad_rtt-Returns m r t v d z p h =
      let i = bucket_id_for_peer env t r.peer in
      let (b0, g0) = bucket_total env t r.peer z.nonempty in
      let (t1, e1, z1) = refresh_total env m r.now i t (in_range i t.buckets g0) d z in
      let (v1, l1, s1) = refresh-IsPlaced env r.now i t v e1 in
      let (b, g) = get_elem?_total i t1.buckets (rw l1 (in_range i t.buckets g0)) in
      let (a, e) =
        admit_total env (place env (rtt_limit env) (rtt_limit env) (when_full env) r) m r i b t1
          (λ t' z' l.
            place_total env (rtt_limit env) (rtt_limit env) (when_full env) m r i b t'
              when_full_total z' p (rw l (rw l1 h)))
          z1 in
      (a, rw (g0, add_peer_kad_rtt) (rw e1 (rw g e)))

  -- On a placed table with a bucket, whose bucket size is not 0 where it is used, with no entry
  -- that shares more than `m` bits with the local node, and with fuel for `m + 2` buckets, and
  -- with no ID twice in a bucket, addPeerKadRTT returns, and the table that it returns is
  -- placed, on every branch: the periodic update that may shrink a bucket, the checks, the free
  -- place, the unfolding, and each way of exchanging entries.
  pub add_peer_kad_rtt_total :
      (m : ℕ) (r : Request) (t : Table F)
      → IsPlaced env t
      → IdsDiffer t.buckets
      → IsSized env m t
      → 0 < r.fuel
      → m + 2 ≤ r.fuel + length t.buckets
      → (a : Added F) × (add_peer_kad_rtt env r t ≡ some a) × IsPlaced env a.0
  add_peer_kad_rtt_total m r t v d z p h =
      let (a, e) = add_peer_kad_rtt-Returns m r t v d z p h in
      (a, e, add_peer_kad_rtt-IsPlaced env r t v e)
