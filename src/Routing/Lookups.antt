-- ===== src/Routing/Lookups.antt =====
-- The lookups of the node: runLookupWithFollowup of query.go, GetClosestPeers of lookup.go, and
-- FindPeer of routing.go with FindLocal of dht.go.
use kadrtt_test_plan.Base.{
  ℕ, zero, suc, Bool, true, false, not, ◌||◌, Option, none, some, List, [], ◌∷◌, ◌==◌,
  if◌then◌else◌, length, ◌>>=◌,
}
use kadrtt_test_plan.Keyspace.{PeerId}
use kadrtt_test_plan.Peerset.{
  PeerState, peer_heard, peer_waiting, peer_queried, peer_unreachable, same_state,
}
use kadrtt_test_plan.Query.Result.{LookupResult}

-- A follow-up query ends, and `stopFn` answers then; or the context is done.
pub data FollowUp : Type 0 where
  answered : Bool → FollowUp
  context_done : FollowUp

-- The peers that the lookup has not asked, or not yet heard from; none for an index out of range.
unfoldable pub query_peers : List PeerId → List PeerState → Option (List PeerId)
query_peers [] states = some []
query_peers (p ∷ ps) [] = none
query_peers (p ∷ ps) (s ∷ states) = query_peers ps states >>= λ rest.
    some (if same_state s peer_heard || same_state s peer_waiting then p ∷ rest else rest)

-- The loop over the follow-up queries that are still out, with `completed`; none while it waits.
unfoldable pub process_follow_up : ℕ → List FollowUp → Bool → Option Bool
process_follow_up zero events completed = some completed
process_follow_up (suc left) [] completed = none
process_follow_up (suc left) (context_done ∷ events) completed = some false
process_follow_up (suc left) (answered stop ∷ events) completed =
    let rest = process_follow_up left events completed in
    if stop then some (if left == 0 then completed else false) else rest

-- `stopped` is whether the context is done, or `stopFn` true, after the lookup.
unfoldable pub follow_up : Bool → List FollowUp → LookupResult → Option LookupResult
follow_up stopped events res = query_peers res.peers res.state >>= λ qs. elim qs [
  | [] ↦ some res
  | q ∷ more ↦
      if stopped
      then some (record res { completed = false })
      else (process_follow_up (suc (length more)) events res.completed >>= λ done.
          some (record res { completed = done }))
]

-- The closest peers and the error of the context, or an error; and whether the time of the refresh
-- of the key's bucket is reset.
pub data ClosestReply : Type 0 where
  closest : List PeerId → Bool → ClosestReply
  empty_key no_lookup : ClosestReply

pub record GotClosest : Type 0 where
  pub reply : ClosestReply
  pub is_reset : Bool

-- `res` is what the lookup comes to, none for its error; `is_done` whether the context is done then.
unfoldable pub get_closest_peers : ℕ → Option LookupResult → Bool → GotClosest
get_closest_peers key res is_done =
    if key == 0 then record { reply = empty_key; is_reset = false } else elim res [
      | none ↦ record { reply = no_lookup; is_reset = false }
      | some r ↦ record {
        reply = closest r.peers is_done;
        is_reset = if is_done then false else r.completed;
      }
    ]

-- network.Connectedness.
pub data Connectedness : Type 0 where
  not_connected connected can_connect cannot_connect : Connectedness

unfoldable pub is_reachable : Connectedness → Bool
is_reachable connected = true
is_reachable can_connect = true
is_reachable not_connected = false
is_reachable cannot_connect = false

-- Whether FindLocal returns the peer's info, and not the empty one.
unfoldable pub find_local : Connectedness → Bool
find_local c = is_reachable c

unfoldable pub was_dialed : PeerState → Bool
was_dialed peer_queried = true
was_dialed peer_unreachable = true
was_dialed peer_waiting = true
was_dialed peer_heard = false

-- The loop that finds `dialedPeerDuringQuery`; none for an index out of range.
unfoldable pub dialed_during_query : PeerId → List PeerId → List PeerState → Option Bool
dialed_during_query id [] states = some false
dialed_during_query id (p ∷ ps) [] =
    let rest = dialed_during_query id ps [] in if p == id then none else rest
dialed_during_query id (p ∷ ps) (s ∷ states) =
    let rest = dialed_during_query id ps states in if p == id then some (was_dialed s) else rest

pub data FindPeerReply : Type 0 where
  peer_info_of : PeerId → FindPeerReply
  invalid_id lookup_error peer_not_found : FindPeerReply

-- The network's answer before the lookup and after it, and what the lookup comes to; none for a panic.
unfoldable pub find_peer :
    Bool → PeerId → Connectedness → Option LookupResult → Connectedness → Option FindPeerReply
find_peer is_valid id before res after =
    if not is_valid
    then some invalid_id
    else if find_local before
    then some (peer_info_of id)
    else elim res [
      | none ↦ some lookup_error
      | some r ↦ dialed_during_query id r.peers r.state >>= λ dialed.
          some (if dialed || is_reachable after then peer_info_of id else peer_not_found)
    ]
