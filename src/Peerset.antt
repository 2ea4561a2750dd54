-- ===== src/Peerset.antt =====
-- The peer set of one lookup: dht/go-libp2p-kad-dht/qpeerset/qpeerset.go.
pub mod Entries
pub mod States
pub mod Closest
pub mod Counts
use kadrtt_test_plan.Base.{
  ℕ, zero, suc, ◌≡◌, Bool, true, false, Option, none, some, List, [], ◌∷◌, ◌++◌, map, leb, ◌==◌,
  if◌then◌else◌, length, take, get_elem?, select, sort_by, less_by, ◌||◌,
}
use kadrtt_test_plan.Keyspace.{PeerId}

pub data PeerState : Type 0 where
  peer_heard peer_waiting peer_queried peer_unreachable : PeerState

-- The value of the constant, by `iota`.
abbrev pub state_number : PeerState → ℕ
state_number peer_heard = 0
state_number peer_waiting = 1
state_number peer_queried = 2
state_number peer_unreachable = 3

abbrev pub same_state : PeerState → PeerState → Bool
same_state s t = state_number s == state_number t

pub record QueryPeerState : Type 0 where
  pub id : PeerId
  pub distance : ℕ
  pub state : PeerState
  pub referred_by : PeerId

pub record QueryPeerset : Type 0 where
  pub key : ℕ
  pub all : List QueryPeerState
  pub sorted : Bool

-- `m[p.state]` of the map that `GetClosestNInStates` builds.
abbrev pub in_states : List PeerState → PeerState → Bool
in_states [] s = false
in_states (t ∷ ts) s = same_state t s || in_states ts s

-- `none` is Go's -1.
unfoldable pub find : PeerId → List QueryPeerState → Option ℕ
find p [] = none
find p (x ∷ xs) =
    if x.id == p then some 0 else elim (find p xs) [ some i ↦ some (suc i) | none ↦ none ]

pub set_at : List QueryPeerState → ℕ → PeerState → List QueryPeerState
set_at [] i s = []
set_at (x ∷ xs) zero s = record x { state = s } ∷ xs
set_at (x ∷ xs) (suc i) s = x ∷ set_at xs i s

unfoldable pub new_query_peerset : ℕ → QueryPeerset
new_query_peerset key = record { key = key; all = []; sorted = false }

-- `distance_to_key key p` is `ks.XORKeySpace.Key([]byte(p)).Distance(qp.key)`, of the package
-- whyrusleeping/go-keyspace.
module _ (distance_to_key : ℕ → PeerId → ℕ) where
  unfoldable pub try_add : PeerId → PeerId → QueryPeerset → QueryPeerset × Bool
  try_add p referred_by qp = elim (find p qp.all) [
    | some i ↦ (qp, false)
    | none ↦ (record qp { all = qp.all ++ heard ∷ []; sorted = false }, true)
  ]
    where
      heard : QueryPeerState
      heard = record {
        id = p;
        distance = distance_to_key qp.key p;
        state = peer_heard;
        referred_by = referred_by;
      }

unfoldable pub sort : QueryPeerset → QueryPeerset
sort qp =
    if qp.sorted
    then qp
    else record qp { all = sort_by (less_by (λ x. x.distance)) qp.all; sorted = true }

-- An index of -1 panics: `none`.
unfoldable pub set_state : PeerId → PeerState → QueryPeerset → Option QueryPeerset
unfolding set_at
set_state p s qp = elim (find p qp.all) [
  | some i ↦ some (record qp { all = set_at qp.all i s })
  | none ↦ none
]

entry : PeerId → QueryPeerset → Option QueryPeerState
entry p qp = elim (find p qp.all) [ some i ↦ get_elem? qp.all i | none ↦ none ]

unfoldable pub get_state : PeerId → QueryPeerset → Option PeerState
unfolding entry
get_state p qp = elim (entry p qp) [ some x ↦ some x.state | none ↦ none ]

unfoldable pub get_referrer : PeerId → QueryPeerset → Option PeerId
unfolding entry
get_referrer p qp = elim (entry p qp) [ some x ↦ some x.referred_by | none ↦ none ]

-- The set is left sorted. A slice `result[:n]` is `take`.
unfoldable pub get_closest_n_in_states :
    ℕ → List PeerState → QueryPeerset → QueryPeerset × List PeerId
get_closest_n_in_states n states qp =
    let result =
      map (λ (x : QueryPeerState). x.id) (select (λ x. in_states states x.state) (sort qp).all) in
    (sort qp, if leb n (length result) then take n result else result)

unfoldable pub get_closest_in_states : List PeerState → QueryPeerset → QueryPeerset × List PeerId
unfolding get_closest_n_in_states
get_closest_in_states states qp = get_closest_n_in_states (length qp.all) states qp

unfoldable pub num_heard : QueryPeerset → QueryPeerset × ℕ
num_heard qp = let (qp', peers) = get_closest_in_states (peer_heard ∷ []) qp in (qp', length peers)

unfoldable pub num_waiting : QueryPeerset → QueryPeerset × ℕ
num_waiting qp =
    let (qp', peers) = get_closest_in_states (peer_waiting ∷ []) qp in (qp', length peers)
