-- ===== src/Table/KadRtt.antt =====
-- addPeerKadRTT of table.go, with the exchange of entries of calcIDVarianceByCPL.
use kadrtt_test_plan.Base.{
  ℕ, ◌+◌, ◌-◌, true, ◌&&◌, Option, none, some, List, [], ◌∷◌, leb, ltb, if◌then◌else◌, get_elem?,
  take, sort_by, ◌>>=◌,
}
use kadrtt_test_plan.Keyspace.{PeerId}
use kadrtt_test_plan.Bucket.{
  PeerInfo, Bucket, VarianceInfo, by_variance_less, len, get_peer, remove,
}
use kadrtt_test_plan.Table.{Env, Table, update_at, bucket_id_for_peer}
use kadrtt_test_plan.Table.Estimator.{set_opt_values}
use kadrtt_test_plan.Table.Buckets.{remove_peer}
use kadrtt_test_plan.Table.Variance.{
  exchange_choice, get_id_variance_with_out, new_entry, sort_by_peer,
}
use kadrtt_test_plan.Table.Adding.{
  Added, Request, info_of, insert, give_up, replace, place, admit, rtt_limit,
}

module _ {F : Type 0} (env : Env F) where
  -- The variance of the bucket without each of its peers, the last first.
  unfoldable pub variances :
      List PeerInfo → List PeerInfo → List VarianceInfo → Option (List VarianceInfo)
  variances bp [] out = some out
  variances bp (x ∷ xs) out = get_id_variance_with_out env bp x.id >>= λ v.
      variances bp xs (record { id = x.id; variance = v } ∷ out)

  unfoldable pub drop_peers : List VarianceInfo → Bucket → Bucket
  drop_peers [] b = b
  drop_peers (v ∷ vs) b = drop_peers vs (remove v.id b).0

  -- A bucket above its new `k` loses the peers without which the variance is largest.
  unfoldable pub shrink : Bucket → Option Bucket
  shrink b =
      let bp = sort_by_peer env b.list in
      variances bp bp [] >>= λ vs.
      some (drop_peers (take (len b - b.k) (sort_by by_variance_less vs)) b)

  -- The periodic update of the rates and of the bucket's parameters.
  unfoldable pub due_refresh : ℕ → ℕ → ℕ → Table F → Option (Table F)
  due_refresh now span i t = do
    let fl = env.floats
    t1 ← set_opt_values env i (record t {
      last_ex_time = now;
      arv_rate_store = fl.div (fl.of_int t.num_arrive) (fl.of_int span);
      prob_exchange = fl.div (fl.of_int t.num_exchange) (fl.of_int t.num_arrive);
    })
    b ← get_elem? t1.buckets i
    b' ← if ltb b.k (len b) then shrink b else some b
    some (record t1 {
      prob_exchange = if ltb (len b) b.k then fl.of_int 1 else t1.prob_exchange;
      buckets = update_at i (λ _. b') t1.buckets;
      num_arrive = 1;
      num_exchange = 0;
    })

  -- The code compares seconds as floats; here the nanoseconds are compared.
  unfoldable pub refresh : ℕ → ℕ → Table F → Option (Table F)
  refresh now i t0 =
      let t = record t0 { num_arrive = t0.num_arrive + 1 } in
      let span = now - t.last_ex_time in
      if leb t.rtt_interval span then due_refresh now span i t else some t

  -- The entry `old` leaves and the new peer enters.
  unfoldable pub swap : Request → Bucket → PeerId → Table F → Option (Table F)
  swap r b old t = remove_peer env old t >>= λ (t', removed). some (
      if removed
      then (let t'' = insert env b.ref (new_entry env r.peer r.rtt r.now) t' in
          record t'' { num_arrive = t''.num_arrive + 1; num_exchange = t''.num_exchange + 1 })
      else t')

  -- The exchange of `calcIDVarianceByCPL`: the chosen entry leaves if it is replaceable.
  unfoldable pub exchange : Request → Bucket → Table F → Option (Table F)
  exchange r b t = elim (exchange_choice env b r.peer r.rtt r.now).0 [
    | none ↦ some t
    | some old ↦ elim (get_peer old b) [
      | none ↦ some t
      | some found ↦ if found.replaceable then swap r b old t else some t
    ]
  ]

  abbrev pub entering : Request → PeerInfo
  entering r = record (info_of env r) { replaceable = true }

  -- The one entry of a bucket is slower: it makes place for the new peer.
  unfoldable pub swap_single : Request → Bucket → PeerInfo → Table F → Option (Table F)
  swap_single r b info t = remove_peer env info.id t >>= λ (t', removed).
      (let t'' = if removed then insert env b.ref (entering r) t' else t' in
        some (record t'' { num_exchange = t''.num_exchange + 1 }))

  -- The bucket is full. Each way ends in the refusal, after an exchange too.
  unfoldable pub rearrange_table : Request → Bucket → Table F → Option (Table F)
  rearrange_table r b t = elim b.list [
    | [] ↦
        let t' = insert env b.ref (entering r) t in
        some (record t' { num_exchange = t'.num_exchange + 1 })
    | info ∷ rest ↦ elim rest [
      | [] ↦ if ltb r.rtt info.rtt && info.replaceable then swap_single r b info t else some t
      | _ ↦ exchange r b t
    ]
  ]

  unfoldable pub rearrange : Request → Bucket → Table F → Option (Added F)
  rearrange r b t = rearrange_table r b t >>= λ t'. some (give_up env r t')

  -- Without KadRTT the entry that replaces another has no RTT.
  unfoldable pub when_full : Request → Bucket → Table F → Option (Added F)
  when_full r b t = if t.is_kad_rtt then rearrange r b t else replace env (record r { rtt = 0 }) b t

  unfoldable pub add_peer_kad_rtt : Request → Table F → Option (Added F)
  add_peer_kad_rtt r t0 =
      let i = bucket_id_for_peer env t0 r.peer in
      get_elem? t0.buckets i >>= λ b0. refresh r.now i t0 >>= λ t. get_elem? t.buckets i >>= λ b.
      admit env (place env (rtt_limit env) (rtt_limit env) when_full r) r i b t
