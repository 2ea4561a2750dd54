-- ===== src/Table.antt =====
-- The routing table: dht/go-libp2p-kbucket/table.go. Each function is what runs under `tabLock`. A
-- Go panic (an index out of range, a nil pointer) is `none`. The code holds buckets by pointer
-- while `removePeer` may drop them from the table, so a write through a pointer is a write to the
-- bucket with that `ref`, and is lost to the table where no bucket has it.
pub mod Estimator
pub mod Variance
pub mod Buckets
pub mod Adding
pub mod KadRtt
pub mod Nearest
pub mod Placement
pub mod Invariant
pub mod Unfolding
pub mod AddingPlaced
pub mod KadRttPlaced
pub mod Totals
pub mod Returning
pub mod Marks
pub mod Tracked
pub mod Refreshing
pub mod AddingTotal
pub mod Thinning
pub mod Entries
pub mod Growing
pub mod GrowingKadRtt
pub mod Sound
pub mod Reachable
use kadrtt_test_plan.Base.{
  ℕ, zero, suc, ◌+◌, ◌-◌, ◌≡◌, Bool, true, false, Option, none, some, List, [], ◌∷◌, ◌++◌, map, leb,
  ltb, ◌==◌, if◌then◌else◌, length, get_elem?, ◌>>=◌,
}
use kadrtt_test_plan.Keyspace.{Bytes, PeerId, Hashing, common_prefix_len, convert_peer_id}
use kadrtt_test_plan.Floats.{Floats}
use kadrtt_test_plan.Bucket.{
  PeerInfo, Bucket, new_bucket, peers, len, get_peer, update_peer_in, update_all_with, push_front,
  max_common_prefix, peer_ids,
}

-- What the table takes from elsewhere: hashing, the latency of `peerstore.Metrics`, float64, and
-- the diversity filter, a state `F` with the two methods that the table calls.
pub record Env (F : Type 0) : Type 0 where
  pub hashing : Hashing
  pub latency_ewma : PeerId → ℕ
  pub floats : Floats
  pub df_try_add : PeerId → F → F × Bool
  pub df_remove : PeerId → F → F

-- The callbacks `PeerAdded` and `PeerRemoved`.
pub data Notice : Type 0 where
  peer_added peer_removed : PeerId → Notice

-- The two errors of table.go, and the refusal of the diversity filter.
pub data Error : Type 0 where
  rejected_high_latency rejected_no_capacity rejected_by_filter : Error

-- `df` is `none` for a nil filter. `notices` has the callbacks made, the newest first. `next_ref`
-- is the identity of the next bucket to be made.
pub record Table (F : Type 0) : Type 0 where
  pub local : Bytes
  pub max_latency : ℕ
  pub buckets : List Bucket
  pub bucket_size : ℕ
  pub cpl_refreshed_at : List (ℕ × ℕ)
  pub usefulness_grace_period : ℕ
  pub df : Option F
  pub arv_rate_store : ℕ
  pub num_arrive : ℕ
  pub pool_size : ℕ
  pub prob_exchange : ℕ
  pub num_exchange : ℕ
  pub is_kad_rtt : Bool
  pub rtt_interval : ℕ
  pub last_ex_time : ℕ
  pub next_ref : ℕ
  pub notices : List Notice

-- A write to the bucket at an index, and to the one with an identity.
unfoldable pub update_at : ℕ → (Bucket → Bucket) → List Bucket → List Bucket
update_at i f [] = []
update_at zero f (b ∷ bs) = f b ∷ bs
update_at (suc i) f (b ∷ bs) = b ∷ update_at i f bs

unfoldable pub update_ref : ℕ → (Bucket → Bucket) → List Bucket → List Bucket
update_ref r f [] = []
update_ref r f (b ∷ bs) = (if b.ref == r then f b else b) ∷ update_ref r f bs

-- The entries of all the buckets, in their order.
unfoldable pub peers_of : List Bucket → List PeerInfo
peers_of [] = []
peers_of (b ∷ bs) = b.list ++ peers_of bs

total : List Bucket → ℕ
total [] = 0
total (b ∷ bs) = len b + total bs

module _ {F : Type 0} (env : Env F) where
  unfoldable pub dht_id_of : PeerId → Bytes
  unfolding convert_peer_id
  dht_id_of p = convert_peer_id env.hashing p

  -- The common prefix of a peer and the local node.
  unfoldable pub cpl_of : Table F → PeerId → ℕ
  unfolding dht_id_of
  cpl_of t p = common_prefix_len env.hashing (dht_id_of p) t.local

  -- An index, or the last one.
  unfoldable pub bucket_index : Table F → ℕ → ℕ
  bucket_index t cpl = if leb (length t.buckets) cpl then length t.buckets - 1 else cpl

  unfoldable pub bucket_id_for_peer : Table F → PeerId → ℕ
  unfolding bucket_index
  bucket_id_for_peer t p = bucket_index t (cpl_of t p)

  unfoldable pub bucket_for_peer : Table F → PeerId → Option Bucket
  bucket_for_peer t p = get_elem? t.buckets (bucket_id_for_peer t p)

  -- `getPeer` gives nil, through which SetRTT and GetRTT panic, on a peer that is not there.
  unfoldable pub set_rtt : PeerId → ℕ → Table F → Option (Table F)
  set_rtt p rtt t = do
    b ← bucket_for_peer t p
    peer ← get_peer p b
    some (record t {
      buckets =
          update_at (bucket_id_for_peer t p)
            (λ b'. record b' { list = update_peer_in p (λ x. record x { rtt = rtt }) b'.list })
            t.buckets;
    })

  unfoldable pub get_rtt : PeerId → Table F → Option ℕ
  get_rtt p t = do b ← bucket_for_peer t p; peer ← get_peer p b; some peer.rtt

  -- The peers of the last bucket that share exactly `cpl` bits with the local node.
  count_cpl : ℕ → Bytes → List PeerInfo → ℕ
  count_cpl cpl local [] = 0
  count_cpl cpl local (p ∷ ps) =
      (if common_prefix_len env.hashing local p.dht_id == cpl then 1 else 0)
      + count_cpl cpl local ps

  unfoldable pub n_peers_for_cpl : ℕ → Table F → Option ℕ
  unfolding count_cpl
  n_peers_for_cpl cpl t =
      if leb (length t.buckets - 1) cpl
      then (get_elem? t.buckets (length t.buckets - 1) >>= λ b. some (count_cpl cpl t.local b.list))
      else (get_elem? t.buckets cpl >>= λ b. some (len b))

  -- The update of one field of a peer, and whether the peer was there.
  update_peer : PeerId → (PeerInfo → PeerInfo) → Table F → Option (Table F × Bool)
  update_peer p f t = do
    b ← bucket_for_peer t p
    elim (get_peer p b) [
      | some peer ↦ some (
        record t {
          buckets =
              update_at (bucket_id_for_peer t p)
                (λ b'. record b' { list = update_peer_in p f b'.list }) t.buckets;
        },
        true,
      )
      | none ↦ some (t, false)
    ]

  unfoldable pub update_last_successful_outbound_query_at :
      PeerId → ℕ → Table F → Option (Table F × Bool)
  unfolding update_peer
  update_last_successful_outbound_query_at p time t =
      update_peer p (λ x. record x { last_successful_outbound_query_at = time }) t

  unfoldable pub update_last_useful_at : PeerId → ℕ → Table F → Option (Table F × Bool)
  unfolding update_peer
  update_last_useful_at p time t = update_peer p (λ x. record x { last_useful_at = time }) t

  -- `maxCommonPrefix`: of the last bucket that is not empty.
  max_of_last : Bytes → List Bucket → Option ℕ
  max_of_last local [] = none
  max_of_last local (b ∷ bs) = elim (max_of_last local bs) [
    | some m ↦ some m
    | none ↦ if len b == 0 then none else some (max_common_prefix env.hashing local b)
  ]

  unfoldable pub table_max_common_prefix : Table F → ℕ
  unfolding max_of_last
  table_max_common_prefix t = elim (max_of_last t.local t.buckets) [ some m ↦ m | none ↦ 0 ]

module _ {F : Type 0} where
  unfoldable pub mark_all_peers_irreplaceable : Table F → Table F
  unfolding update_all_with
  mark_all_peers_irreplaceable t = record t {
    buckets = map (update_all_with (λ p. record p { replaceable = false })) t.buckets;
  }

  unfoldable pub get_peer_infos : Table F → List PeerInfo
  unfolding peers_of
  get_peer_infos t = peers_of t.buckets

  unfoldable pub list_peers : Table F → List PeerId
  list_peers t = map (λ p. p.id) (get_peer_infos t)

  unfoldable pub size : Table F → ℕ
  unfolding total
  size t = total t.buckets

-- NewRoutingTable; `half`, `zero_float` and `one_float` are the float constants.
unfoldable pub new_routing_table :
    {F : Type 0} → Floats → ℕ → Bytes → ℕ → ℕ → Option F → ℕ → Table F
unfolding new_bucket
new_routing_table fl bucket_size local latency grace df now = record {
  local = local;
  max_latency = latency;
  buckets = new_bucket 0 (fl.of_int 0) (fl.of_int 1) ∷ [];
  bucket_size = bucket_size;
  cpl_refreshed_at = [];
  usefulness_grace_period = grace;
  df = df;
  arv_rate_store = fl.literal "0.5";
  num_arrive = 1;
  pool_size = bucket_size;
  prob_exchange = fl.literal "0.5";
  num_exchange = 1;
  is_kad_rtt = true;
  rtt_interval = 0;
  last_ex_time = now;
  next_ref = 1;
  notices = [];
}
