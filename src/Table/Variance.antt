-- ===== src/Table/Variance.antt =====
-- The spread of the IDs of a bucket, by which KadRTT exchanges entries: getIDVarianceByCPL, the
-- first half of calcIDVarianceByCPL, removePeerInfo and getIDVarianceWithOut of table.go.
use kadrtt_test_plan.Base.{
  ℕ, ◌+◌, ◌-◌, ◌/◌, true, not, Option, none, some, List, [], ◌∷◌, ◌++◌, ltb, ◌==◌, if◌then◌else◌,
  length, select, sort_by,
}
use kadrtt_test_plan.Keyspace.{PeerId, common_prefix_len, convert_peer_id, distance}
use kadrtt_test_plan.Bucket.{PeerInfo, Bucket, by_peer_less}
use kadrtt_test_plan.Table.{Env}

-- A Duration in milliseconds.
abbrev pub milliseconds : ℕ → ℕ
milliseconds d = d / 1000000

unfoldable pub remove_peer_info : List PeerInfo → PeerId → List PeerInfo
remove_peer_info slice search = select (λ v. not (v.id == search)) slice

-- What a loop over `i` and `i+1`, up to the last but one, computes of each two neighbours.
unfoldable pub neighbours : (PeerInfo → PeerInfo → ℕ) → List PeerInfo → List ℕ
neighbours f [] = []
neighbours f (x ∷ []) = []
neighbours f (x ∷ y ∷ ps) = f x y ∷ neighbours f (y ∷ ps)

unfoldable pub sum_from : ℕ → List ℕ → ℕ
sum_from total [] = total
sum_from total (d ∷ ds) = sum_from (total + d) ds

-- |a - b|.
abbrev pub gap : ℕ → ℕ → ℕ
gap a b = if ltb a b then b - a else a - b

-- `total` and `avg` are one big.Int: `total.Sub(dist, avg)` writes the variable that `avg` reads.
aliased_spread : ℕ → ℕ → List ℕ → ℕ
aliased_spread total v_total [] = v_total
aliased_spread total v_total (dist ∷ dists) =
    let m = gap dist total + gap dist total in aliased_spread m (v_total + m) dists

module _ {F : Type 0} (env : Env F) where
  -- The CPL of the IDs of two peers.
  pair_cpl : PeerInfo → PeerInfo → ℕ
  pair_cpl x y =
      common_prefix_len env.hashing (convert_peer_id env.hashing x.id)
        (convert_peer_id env.hashing y.id)

  pair_distance : PeerInfo → PeerInfo → ℕ
  pair_distance x y =
      distance env.hashing (convert_peer_id env.hashing x.id) (convert_peer_id env.hashing y.id)

  unfoldable pub sort_by_peer : List PeerInfo → List PeerInfo
  sort_by_peer bp = sort_by (by_peer_less env.hashing) bp

  -- `getIDVarianceWithOut`; a division by 0 panics.
  unfoldable pub get_id_variance_with_out : List PeerInfo → PeerId → Option ℕ
  unfolding pair_distance aliased_spread
  get_id_variance_with_out b id =
      let bp = sort_by_peer (remove_peer_info b id) in
      let dists = neighbours pair_distance bp in
      if length bp == 0 then none else some (aliased_spread (sum_from 0 dists / length bp) 0 dists)

  square_gap : ℕ → ℕ → ℕ
  square_gap avg d =
      let sub = env.floats.abs (env.floats.sub (env.floats.of_int d) avg) in env.floats.mul sub sub

  average : List ℕ → ℕ → ℕ
  average dists n = env.floats.div (env.floats.of_int (sum_from 0 dists)) (env.floats.of_int n)

  spread : ℕ → ℕ → List ℕ → ℕ
  unfolding square_gap
  spread avg v_total [] = v_total
  spread avg v_total (d ∷ ds) = spread avg (env.floats.add v_total (square_gap avg d)) ds

  -- In `calcIDVarianceByCPL` the summand `m` is not started anew, so each round adds all that came
  -- before once more.
  running_spread : ℕ → ℕ → ℕ → List ℕ → ℕ
  unfolding square_gap
  running_spread avg m v_total [] = v_total
  running_spread avg m v_total (d ∷ ds) =
      let m' = env.floats.add m (square_gap avg d) in
      running_spread avg m' (env.floats.add v_total m') ds

  -- The peer that is about to enter, as the code builds it.
  unfoldable pub new_entry : PeerId → ℕ → ℕ → PeerInfo
  new_entry p rtt now = record {
    id = p;
    last_useful_at = now;
    last_successful_outbound_query_at = now;
    added_at = now;
    dht_id = convert_peer_id env.hashing p;
    replaceable = true;
    rtt = rtt;
  }

  unfoldable pub get_id_variance_by_cpl : Bucket → PeerId → PeerId → ℕ → ℕ → ℕ
  unfolding pair_cpl average spread
  get_id_variance_by_cpl b old_p new_p rtt now =
      let bp = sort_by_peer (remove_peer_info b.list old_p ++ new_entry new_p rtt now ∷ []) in
      let dists = neighbours pair_cpl bp in
      spread (average dists (length bp)) (env.floats.of_int 0) dists

  unfoldable pub current_variance : Bucket → ℕ
  unfolding pair_cpl average running_spread
  current_variance b =
      let bp = sort_by_peer b.list in
      let dists = neighbours pair_cpl bp in
      running_spread (average dists (length bp)) (env.floats.of_int 0) (env.floats.of_int 0) dists

  -- An entry with no RTT yet is read at the measured latency.
  current_rtt : PeerInfo → ℕ
  current_rtt x = if milliseconds x.rtt == 0 then env.latency_ewma x.id else x.rtt

  -- The entries whose RTT is above the new one's; the last of the sorted entries is not looked at.
  -- Each is pushed to the front of the list.
  slower : ℕ → List PeerInfo → List PeerInfo → List PeerInfo
  unfolding current_rtt
  slower rtt out [] = out
  slower rtt out (x ∷ []) = out
  slower rtt out (x ∷ y ∷ ps) =
      slower rtt (if ltb (milliseconds rtt) (milliseconds (current_rtt x)) then x ∷ out else out)
        (y ∷ ps)

  -- The last of the candidates that does not raise the best variance so far.
  best : Bucket → PeerId → ℕ → ℕ → Option PeerId → ℕ → List PeerInfo → Option PeerId × ℕ
  best b p rtt now chosen v_total [] = (chosen, v_total)
  best b p rtt now chosen v_total (x ∷ xs) =
      let new_v = get_id_variance_by_cpl b x.id p rtt now in
      let better = env.floats.le new_v v_total in
      best b p rtt now (if better then some x.id else chosen) (if better then new_v else v_total) xs

  -- The entry that `calcIDVarianceByCPL` chooses to exchange, if any, and the variance it returns.
  unfoldable pub exchange_choice : Bucket → PeerId → ℕ → ℕ → Option PeerId × ℕ
  unfolding slower best
  exchange_choice b p rtt now =
      best b p rtt now none (current_variance b) (slower rtt [] (sort_by_peer b.list))
