-- ===== src/Examples/Peersets.antt =====
-- The peer set's and the keyspace's theorems on a set of three peers and on two-byte IDs.
use kadrtt_test_plan.Base.{
  ℕ, ◌≤◌, ◌<◌, ◌≡◌, refl, ◌⊎◌, ◌↔◌, ◌&&◌, ◌==◌, if◌then◌else◌, true, none, some, List, [], ◌∷◌,
  arith, All, Has, length, Ascending,
}
use kadrtt_test_plan.Keyspace.{PeerId, Bytes, common_prefix_len, distance}
use kadrtt_test_plan.Keyspace.Prefix.{distance-anti_common_prefix_len}
use kadrtt_test_plan.Peerset.{
  PeerState, peer_heard, peer_waiting, get_closest_n_in_states, in_states, try_add,
}
use kadrtt_test_plan.Peerset.Entries.{state_at}
use kadrtt_test_plan.Peerset.States.{try_add-state_at}
use kadrtt_test_plan.Peerset.Closest.{
  get_closest_n_in_states_sound, get_closest_n_in_states_complete,
}
use kadrtt_test_plan.Examples.{small_hashing, sum_distance, three_peers, three_peers-IsValid}

abbrev not_queried : List PeerState
not_queried = peer_heard ∷ peer_waiting ∷ []

abbrev closest_two : List PeerId
closest_two = (get_closest_n_in_states 2 not_queried three_peers).1

try_add-state_at_example :
    (((try_add sum_distance 2 4 three_peers).1 ≡ true) ↔ (state_at 2 three_peers.all ≡ none))
    × (state_at 5 (try_add sum_distance 2 4 three_peers).0.all ≡ (
        if (try_add sum_distance 2 4 three_peers).1 && 5 == 2
        then some peer_heard
        else state_at 5 three_peers.all))
try_add-state_at_example = try_add-state_at sum_distance 2 4 5 three_peers

get_closest_n_in_states_sound_example :
    (length closest_two ≤ 2)
    × Ascending (sum_distance 3) closest_two
    × All
        (λ p.
          (s : PeerState) × (state_at p three_peers.all ≡ some s)
          × (in_states not_queried s ≡ true))
        closest_two
get_closest_n_in_states_sound_example =
    get_closest_n_in_states_sound sum_distance 2 not_queried three_peers three_peers-IsValid

six_known : state_at 6 three_peers.all ≡ some peer_heard
unfolding state_at
six_known = refl

get_closest_n_in_states_complete_example :
    Has 6 closest_two
    ⊎ ((length closest_two ≡ 2) × All (λ p. sum_distance 3 p ≤ sum_distance 3 6) closest_two)
get_closest_n_in_states_complete_example =
    get_closest_n_in_states_complete sum_distance 2 not_queried three_peers three_peers-IsValid 6
      peer_heard six_known refl

abbrev id_of : ℕ → Bytes
id_of n = n ∷ 7 ∷ []

nearer_prefix :
    common_prefix_len small_hashing (id_of 3) (id_of 200)
    < common_prefix_len small_hashing (id_of 193) (id_of 200)
unfolding common_prefix_len
nearer_prefix = omega arith

distance-anti_common_prefix_len_example :
    distance small_hashing (id_of 193) (id_of 200) < distance small_hashing (id_of 3) (id_of 200)
distance-anti_common_prefix_len_example =
    distance-anti_common_prefix_len small_hashing (id_of 3) (id_of 193) (id_of 200) refl
      (ground arith) (ground arith) nearer_prefix
