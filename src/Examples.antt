-- ===== src/Examples.antt =====
-- A small node with one-byte IDs, on which the theorems are applied.
pub mod Duals
pub mod Filters
pub mod Messages
pub mod Providing
pub mod Refreshes
pub mod Tables
pub mod Nodes
pub mod Routings
pub mod Seeks
pub mod Addressed
pub mod Lookups
pub mod Peersets
use Prim.Native.Nat.{◌/◌, ◌%◌}
use kadrtt_test_plan.Base.{
  refl, arith, ℕ, zero, suc, ◌+◌, ◌*◌, ◌-◌, Bool, true, false, Option, none, some, List, [], ◌∷◌,
  ltb, leb, ◌==◌, if◌then◌else◌,
}
use kadrtt_test_plan.Keyspace.{Bytes, PeerId, Hashing}
use kadrtt_test_plan.Peerset.{PeerState, peer_heard, peer_waiting, QueryPeerset, QueryPeerState}
use kadrtt_test_plan.Peerset.Entries.{state_at, IsValid}
use kadrtt_test_plan.Floats.{Floats}
use kadrtt_test_plan.Bucket.{PeerInfo, Bucket}
use kadrtt_test_plan.Table.{Env, Table}
use kadrtt_test_plan.Table.Adding.{Request}

-- XOR of the `n` low bits.
abbrev xor_bits : ℕ → ℕ → ℕ → ℕ
xor_bits zero a b = 0
xor_bits (suc n) a b = let rest = xor_bits n (a / 2) (b / 2) in (a + b) % 2 + 2 * rest

abbrev pub xor_bytes : Bytes → Bytes → Bytes
xor_bytes [] b = []
xor_bytes (x ∷ a) [] = []
xor_bytes (x ∷ a) (y ∷ b) = xor_bits 8 x y ∷ xor_bytes a b

-- An ID is one byte, its own hash.
abbrev pub small_hashing : Hashing
small_hashing = record { xor = xor_bytes; sum256 = λ p. p ∷ [] }

-- Whole numbers in place of float64.
abbrev pub whole_floats : Floats
whole_floats = record {
  literal = λ s. 1;
  of_int = λ n. n;
  to_int = λ n. n;
  add = λ a b. a + b;
  sub = λ a b. a - b;
  mul = λ a b. a * b;
  div = λ a b. a / b;
  lt = ltb;
  le = leb;
  eq = λ a b. a == b;
  is_nan = λ a. false;
  is_inf = λ a. false;
  maximum = λ a b. if ltb a b then b else a;
  pow = λ a b. a;
  log = λ a. a;
  sqrt = λ a. a;
  floor = λ a. a;
  ceil = λ a. a;
  abs = λ a. a;
  e = 3;
  sqrt2 = 1;
  inf_minus = 0;
  nan = 0;
}

-- The filter's state is the number of its peers, and it takes up to ten.
abbrev pub small_env : Env ℕ
small_env = record {
  hashing = small_hashing;
  latency_ewma = λ p. 0;
  floats = whole_floats;
  df_try_add = λ p n. (n + 1, ltb n 10);
  df_remove = λ p n. n - 1;
}

abbrev pub info : PeerId → ℕ → PeerInfo
info p rtt = record {
  id = p;
  last_useful_at = 0;
  last_successful_outbound_query_at = 1;
  added_at = 1;
  dht_id = p ∷ [];
  replaceable = true;
  rtt = rtt;
}

abbrev pub bucket_of : ℕ → List PeerInfo → Bucket
bucket_of ref xs = record {
  ref = ref;
  list = xs;
  alpha = 1;
  beta = 1;
  k = 2;
  p_query = 0;
  p_not = 1;
  id_variance = none;
}

-- The local node is 0, so a peer's prefix is the number of its leading zeros.
abbrev pub table_with : Bool → ℕ → List Bucket → Table ℕ
table_with kad_rtt next bs = record {
  local = 0 ∷ [];
  max_latency = 100;
  buckets = bs;
  bucket_size = 2;
  cpl_refreshed_at = [];
  usefulness_grace_period = 0;
  df = some 5;
  arv_rate_store = 1;
  num_arrive = 1;
  pool_size = 2;
  prob_exchange = 1;
  num_exchange = 1;
  is_kad_rtt = kad_rtt;
  rtt_interval = 0;
  last_ex_time = 1;
  next_ref = next;
  notices = [];
}

-- Two peers that share no bit with the node, and three that share more.
abbrev pub five_peers : List Bucket
five_peers =
    bucket_of 0 (info 130 9000000 ∷ info 140 8000000 ∷ [])
    ∷ bucket_of 1 (info 70 7000000 ∷ info 20 1000000 ∷ info 5 1000000 ∷ [])
    ∷ []

abbrev pub request_of : PeerId → Request
request_of p = record {
  peer = p;
  query_peer = true;
  is_replaceable = true;
  rtt = 2000000;
  now = 10;
  fuel = 10;
}

abbrev pub sum_distance : ℕ → PeerId → ℕ
sum_distance key p = key + p

abbrev pub entry_of : PeerId → PeerState → QueryPeerState
entry_of p s = record { id = p; distance = 3 + p; state = s; referred_by = 9 }

-- Peers 4 and 5 are being asked, and peer 6 is known.
abbrev pub three_peers : QueryPeerset
three_peers = record {
  key = 3;
  all = entry_of 4 peer_waiting ∷ entry_of 5 peer_waiting ∷ entry_of 6 peer_heard ∷ [];
  sorted = true;
}

pub three_peers-IsValid : IsValid sum_distance three_peers
unfolding state_at
three_peers-IsValid = record {
  distinct = ground arith;
  measured = ground arith;
  in_order = λ _. ground arith;
}
