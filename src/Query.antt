-- ===== src/Query.antt =====
-- One lookup: dht/go-libp2p-kad-dht/query.go. `run` is a loop that receives one update at a time;
-- each peer that it queries has a goroutine, which sends one update and ends. A panic is `none`.
pub mod Spawning
pub mod Learning
pub mod Updates
pub mod Ending
pub mod Loop
pub mod Result
use Prim.Native.Nat.{max}
use kadrtt_test_plan.Base.{
  ℕ, ◌+◌, ◌-◌, Bool, true, false, not, ◌&&◌, ◌||◌, Option, none, some, List, [], ◌∷◌, map, leb, ltb,
  ◌==◌, if◌then◌else◌, length, take, select, sort_by, less_by, ◌>>=◌,
}
use kadrtt_test_plan.Keyspace.{PeerId}
use kadrtt_test_plan.Peerset.{
  PeerState, peer_heard, peer_waiting, peer_queried, peer_unreachable, QueryPeerset,
  new_query_peerset, same_state, try_add, set_state, get_state, get_closest_n_in_states,
  get_closest_in_states, num_heard, num_waiting,
}

-- What a lookup reads of the IpfsDHT and, under KadRTT, of the bucket of the target.
pub record Config : Type 0 where
  pub self : PeerId
  pub alpha : ℕ
  pub beta : ℕ
  pub bucket_size : ℕ
  pub is_kad_rtt : Bool
  pub bucket_alpha : ℕ
  pub bucket_beta : ℕ

-- `in_flight` has the peers whose goroutine has not sent its update yet.
pub record Query : Type 0 where
  pub query_peers : QueryPeerset
  pub peer_times : List (PeerId × ℕ)
  pub terminated : Bool
  pub in_flight : List PeerId

pub record QueryUpdate : Type 0 where
  pub cause : PeerId
  pub queried : List PeerId
  pub heard : List PeerId
  pub unreachable : List PeerId
  pub query_duration : ℕ

pub data LookupTerminationReason : Type 0 where
  lookup_stopped lookup_cancelled lookup_starvation lookup_completed : LookupTerminationReason

-- The two cases of the `select` of `run`.
pub data Event : Type 0 where
  update : QueryUpdate → Event
  done : Event

-- The `alpha` that `run` works with, read once.
unfoldable pub lookup_alpha : Config → ℕ
lookup_alpha c = if c.is_kad_rtt then max c.alpha c.bucket_alpha else c.alpha

-- What the network answered to a goroutine.
pub data Outcome : Type 0 where
  dial_failed query_failed : Outcome
  responded : List PeerId → ℕ → Outcome

-- The update of the goroutine of `p`. `accepts` is `queryPeerFilter` on the peer's addresses.
unfoldable pub query_peer : Config → (PeerId → Bool) → PeerId → Outcome → QueryUpdate
query_peer c accepts p (responded new_peers duration) = record {
  cause = p;
  queried = p ∷ [];
  heard = select (λ next. not (next == c.self) && accepts next) new_peers;
  unreachable = [];
  query_duration = duration;
}
query_peer c accepts p _ = record {
  cause = p;
  queried = [];
  heard = [];
  unreachable = p ∷ [];
  query_duration = 0;
}

-- `for _, p := range ps { if p == self { continue }; f p }`, with a panic that ends it.
unfoldable pub for_others :
    PeerId → (PeerId → Query → Option Query) → List PeerId → Query → Option Query
for_others self f [] q = some q
for_others self f (p ∷ ps) q =
    (if p == self then some q else f p q) >>= λ q'. for_others self f ps q'

pub add_time : PeerId → ℕ → List (PeerId × ℕ) → List (PeerId × ℕ)
add_time p d [] = (p, d) ∷ []
add_time p d ((r, e) ∷ times) = if r == p then (p, d) ∷ times else (r, e) ∷ add_time p d times

unfoldable pub mark_queried : ℕ → PeerId → Query → Option Query
mark_queried duration p q = elim (get_state p q.query_peers) [
  | some peer_waiting ↦ set_state p peer_queried q.query_peers >>= λ qp.
      some (record q { query_peers = qp; peer_times = add_time p duration q.peer_times })
  | _ ↦ none
]

unfoldable pub mark_unreachable : PeerId → Query → Option Query
mark_unreachable p q = elim (get_state p q.query_peers) [
  | some peer_waiting ↦
      set_state p peer_unreachable q.query_peers >>= λ qp. some (record q { query_peers = qp })
  | _ ↦ none
]

abbrev pub unqueried : List PeerState
unqueried = peer_heard ∷ peer_waiting ∷ peer_queried ∷ []

unfoldable pub all_queried : List PeerId → QueryPeerset → Bool
all_queried [] qp = true
all_queried (p ∷ ps) qp = elim (get_state p qp) [
  | some peer_queried ↦ all_queried ps qp
  | _ ↦ false
]

-- The closest `n` that are not unreachable have all been queried. (GetState would panic on a peer
-- that is not in the set; these peers come from it.)
unfoldable pub closest_queried : ℕ → Query → Query × Bool
closest_queried n q =
    let (qp, peers) = get_closest_n_in_states n unqueried q.query_peers in
    (record q { query_peers = qp }, all_queried peers qp)

unfoldable pub is_lookup_termination : Config → Query → Query × Bool
is_lookup_termination c q = closest_queried c.beta q

unfoldable pub is_lookup_termination_kad_rtt : Config → Query → Query × Bool
is_lookup_termination_kad_rtt c q = closest_queried (max c.bucket_beta c.beta) q

unfoldable pub is_starvation_termination : Query → Query × Bool
is_starvation_termination q =
    let (qp, heard) = num_heard q.query_peers in
    let (qp', waiting) = num_waiting qp in
    if heard == 0
    then (record q { query_peers = qp' }, waiting == 0)
    else (record q { query_peers = qp }, false)

-- The loop that picks the next peers, `count` of them so far. A `count` that starts at 0 is never
-- 0 where it is compared, so an `n` of 0 or less takes every peer.
unfoldable pub peers_to_query : ℕ → ℕ → List PeerId → List PeerId
peers_to_query n count [] = []
peers_to_query n count (p ∷ ps) =
    let rest = peers_to_query n (count + 1) ps in p ∷ (if count + 1 == n then [] else rest)

-- `stop` is what `stopFn` answers.
unfoldable pub is_ready_to_terminate :
    Config → Bool → ℕ → Query → Query × Option LookupTerminationReason × List PeerId
is_ready_to_terminate c stop n q =
    let (q', starved) = is_starvation_termination q in
    let (q'', finished) = is_lookup_termination c q' in
    let (qp, peers) = get_closest_in_states (peer_heard ∷ []) q''.query_peers in
    if stop
    then (q, some lookup_stopped, [])
    else if starved
    then (q', some lookup_starvation, [])
    else if finished
    then (q'', some lookup_completed, [])
    else (record q'' { query_peers = qp }, none, peers_to_query n 0 peers)

unfoldable pub terminate : Query → Query
terminate q = if q.terminated then q else record q { terminated = true }

-- The peer is set waiting and its goroutine starts. (GetReferrer panics on the same peers.)
unfoldable pub spawn_query : PeerId → Query → Option Query
spawn_query p q = set_state p peer_waiting q.query_peers >>= λ qp.
    some (record q { query_peers = qp; in_flight = p ∷ q.in_flight })

unfoldable pub spawn_all : List PeerId → Query → Option Query
spawn_all [] q = some q
spawn_all (p ∷ ps) q = spawn_query p q >>= λ q'. spawn_all ps q'

-- The answer of `isReadyToTerminate` is acted on.
proceed : List PeerId → Query → Option Query
proceed peers q = if q.terminated then some q else spawn_all peers q

unfoldable pub conclude : Query × Option LookupTerminationReason × List PeerId → Option Query
unfolding proceed
conclude (q, some reason, peers) = proceed peers (terminate q)
conclude (q, none, peers) = proceed peers q

module _ (distance_to_key : ℕ → PeerId → ℕ) (c : Config) where
  -- The node does not add itself.
  unfoldable pub hear : PeerId → PeerId → Query → Query
  hear cause p q =
      if p == c.self
      then q
      else record q { query_peers = (try_add distance_to_key p cause q.query_peers).0 }

  unfoldable pub add_heard : PeerId → List PeerId → Query → Query
  add_heard cause [] q = q
  add_heard cause (p ∷ ps) q = add_heard cause ps (hear cause p q)

  unfoldable pub update_state : QueryUpdate → Query → Option Query
  update_state up q =
      if q.terminated
      then none
      else (for_others c.self (mark_queried up.query_duration) up.queried
            (add_heard up.cause up.heard q)
          >>= λ q'. for_others c.self mark_unreachable up.unreachable q')

  unfoldable pub receive : Event → Query → Option Query
  receive (update up) q = update_state up q
  receive done q = some (terminate q)

  -- What follows the `select` in the loop of `run`: the query terminates, or peers are queried.
  unfoldable pub continue_with : Bool → Query → Option Query
  continue_with stop q =
      let (qp, waiting) = num_waiting q.query_peers in
      conclude
        (is_ready_to_terminate c stop (lookup_alpha c - waiting) (record q { query_peers = qp }))

  -- One round of the loop of `run`.
  unfoldable pub round : Bool → Event → Query → Option Query
  round stop e q = receive e q >>= λ q'. continue_with stop q'

-- The state in which the loop starts; its first update has the seeds.
unfoldable pub start : ℕ → Query
start key = record {
  query_peers = new_query_peerset key;
  peer_times = [];
  terminated = false;
  in_flight = [];
}

unfoldable pub seed_update : Config → List PeerId → QueryUpdate
seed_update c seed_peers = record {
  cause = c.self;
  queried = [];
  heard = seed_peers;
  unreachable = [];
  query_duration = 0;
}
