-- ===== src/Bucket.antt =====
-- One k-bucket: dht/go-libp2p-kbucket/bucket.go, kadrttbypeer.go and kadrttvariance.go.
-- The linked list is a list, its front first. Times and durations are nanoseconds, and a Time that
-- `IsZero` is 0. A float64 is its bit pattern, a number that only `Floats` reads.
use kadrtt_test_plan.Base.{
  ℕ, Bool, true, false, Option, none, some, List, [], ◌∷◌, map, ltb, ◌==◌, if◌then◌else◌, length,
  select,
}
use kadrtt_test_plan.Keyspace.{
  Bytes, PeerId, Hashing, bytes_less, common_prefix_len, convert_peer_id,
}

pub record PeerInfo : Type 0 where
  pub id : PeerId
  pub last_useful_at : ℕ
  pub last_successful_outbound_query_at : ℕ
  pub added_at : ℕ
  pub dht_id : Bytes
  pub replaceable : Bool
  pub rtt : ℕ

-- The code holds buckets by pointer; `ref` is the identity of the object. `id_variance` is never
-- read and stands for its first value, -1, as `none`.
pub record Bucket : Type 0 where
  pub ref : ℕ
  pub list : List PeerInfo
  pub alpha : ℕ
  pub beta : ℕ
  pub k : ℕ
  pub p_query : ℕ
  pub p_not : ℕ
  pub id_variance : Option ℕ

-- `f0` and `f1` are the bit patterns of 0.0 and 1.0.
unfoldable pub new_bucket : ℕ → ℕ → ℕ → Bucket
new_bucket ref f0 f1 = record {
  ref = ref;
  list = [];
  alpha = 1;
  beta = 1;
  k = 1;
  p_query = f0;
  p_not = f1;
  id_variance = none;
}

pub peers : Bucket → List PeerInfo
peers b = b.list

abbrev pub len : Bucket → ℕ
len b = length b.list

min_from : (PeerInfo → PeerInfo → Bool) → PeerInfo → List PeerInfo → PeerInfo
min_from less_than m [] = m
min_from less_than m (v ∷ vs) = min_from less_than (if less_than v m then v else m) vs

min_in : (PeerInfo → PeerInfo → Bool) → List PeerInfo → Option PeerInfo
unfolding min_from
min_in less_than [] = none
min_in less_than (v ∷ vs) = some (min_from less_than v vs)

unfoldable pub min_peer : (PeerInfo → PeerInfo → Bool) → Bucket → Option PeerInfo
unfolding min_in
min_peer less_than b = min_in less_than b.list

unfoldable pub update_all_with : (PeerInfo → PeerInfo) → Bucket → Bucket
update_all_with f b = record b { list = map f b.list }

pub peer_ids : Bucket → List PeerId
peer_ids b = map (λ p. p.id) b.list

unfoldable pub peer_in : PeerId → List PeerInfo → Option PeerInfo
peer_in p [] = none
peer_in p (x ∷ xs) = if x.id == p then some x else peer_in p xs

unfoldable pub get_peer : PeerId → Bucket → Option PeerInfo
get_peer p b = peer_in p b.list

-- A write through the pointer that `getPeer` returns.
unfoldable pub update_peer_in : PeerId → (PeerInfo → PeerInfo) → List PeerInfo → List PeerInfo
update_peer_in p f [] = []
update_peer_in p f (x ∷ xs) = if x.id == p then f x ∷ xs else x ∷ update_peer_in p f xs

unfoldable pub remove_in : PeerId → List PeerInfo → List PeerInfo × Bool
remove_in p [] = ([], false)
remove_in p (x ∷ xs) =
    let rest = remove_in p xs in if x.id == p then (xs, true) else (x ∷ rest.0, rest.1)

unfoldable pub remove : PeerId → Bucket → Bucket × Bool
remove p b = let (l, found) = remove_in p b.list in (record b { list = l }, found)

unfoldable pub push_front : PeerInfo → Bucket → Bucket
push_front p b = record b { list = p ∷ b.list }

unfoldable pub closer_than : Hashing → ℕ → Bytes → PeerInfo → Bool
closer_than h cpl target p = ltb cpl (common_prefix_len h p.dht_id target)

-- The receiver keeps the peers with a common prefix of at most `cpl`; the new bucket has the others,
-- both in their order.
unfoldable pub split : Hashing → ℕ → Bytes → Bucket → Bucket → Bucket × Bucket
unfolding closer_than
split h cpl target fresh b = (
  record b { list = select (λ p. if closer_than h cpl target p then false else true) b.list },
  record fresh { list = select (closer_than h cpl target) b.list },
)

max_prefix_from : Hashing → Bytes → ℕ → List PeerInfo → ℕ
max_prefix_from h target m [] = m
max_prefix_from h target m (p ∷ ps) =
    let cpl = common_prefix_len h p.dht_id target in
    max_prefix_from h target (if ltb m cpl then cpl else m) ps

unfoldable pub max_common_prefix : Hashing → Bytes → Bucket → ℕ
unfolding max_prefix_from
max_common_prefix h target b = max_prefix_from h target 0 b.list

-- `ByPeer.Less` and `ByVariance.Less`.
unfoldable pub by_peer_less : Hashing → PeerInfo → PeerInfo → Bool
by_peer_less h a b = bytes_less (convert_peer_id h a.id) (convert_peer_id h b.id)

pub record VarianceInfo : Type 0 where
  pub id : PeerId
  pub variance : ℕ

unfoldable pub by_variance_less : VarianceInfo → VarianceInfo → Bool
by_variance_less a b = ltb b.variance a.variance
