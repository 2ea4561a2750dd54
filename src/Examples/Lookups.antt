-- ===== src/Examples/Lookups.antt =====
-- The lookup's theorems on a lookup of key 3 that starts with three seeds.
use kadrtt_test_plan.Base.{
  ℕ, Has, ◌≤◌, ◌<◌, ◌≡◌, ◌≢◌, refl, ◌⊎◌, inl, inr, true, false, none, some, List, [], ◌∷◌, arith,
  All, length, erase,
}
use kadrtt_test_plan.Keyspace.{PeerId}
use kadrtt_test_plan.Peerset.{
  new_query_peerset, try_add, sort, set_state, get_closest_n_in_states, num_waiting, num_heard,
  find,
}
use kadrtt_test_plan.Peerset.Entries.{state_at}
use kadrtt_test_plan.Peerset.Counts.{count_in, indicator}
use kadrtt_test_plan.Base.{sort_by, select, insert_by}
use kadrtt_test_plan.Peerset.{get_closest_in_states, get_state}
use kadrtt_test_plan.Query.{
  receive, for_others, continue_with, conclude, is_ready_to_terminate, is_starvation_termination,
  hear, all_queried, closest_queried, is_lookup_termination, spawn_query, terminate, Config, Query,
  query_failed, round, start, seed_update, query_peer, update, lookup_alpha, update_state,
  add_heard, spawn_all, peers_to_query,
}
use kadrtt_test_plan.Query.Result.States.{Agree, construct_lookup_result_total}
use kadrtt_test_plan.Query.Result.{
  LookupResult, construct_lookup_result, time_of, valuable_peers, valuable_peers-fastest,
}
use kadrtt_test_plan.Query.Learning.{IsTracked}
use kadrtt_test_plan.Query.Spawning.{IsHeard}
use kadrtt_test_plan.Query.Loop.{Goes, Reach, first, Reach-Goes, Reach-never_panics}
use kadrtt_test_plan.Examples.{small_hashing, sum_distance, three_peers, three_peers-IsValid}

abbrev seeds : List PeerId
seeds = 4 ∷ 5 ∷ 6 ∷ []

abbrev only_six : List PeerId
only_six = 6 ∷ []

abbrev small_config : Config
small_config = record {
  self = 9;
  alpha = 2;
  beta = 1;
  bucket_size = 2;
  is_kad_rtt = false;
  bucket_alpha = 1;
  bucket_beta = 1;
}

abbrev under_way : Query
under_way = record {
  query_peers = three_peers;
  peer_times = [];
  terminated = false;
  in_flight = 5 ∷ 4 ∷ [];
}

under_way-IsTracked : IsTracked sum_distance small_config under_way
unfolding state_at count_in indicator
under_way-IsTracked = record {
  valid = three_peers-IsValid;
  waiting = ground arith;
  apart = ground arith;
  counted = refl;
  not_self = refl;
  running = refl;
}

alpha_room : 0 < lookup_alpha small_config
unfolding lookup_alpha
alpha_room = omega arith

under_way-Goes : Goes sum_distance small_config under_way
unfolding lookup_alpha
under_way-Goes = (under_way-IsTracked, omega arith, omega arith)

-- The first round asks the two closest of three seeds.
under_way-Reach : Reach sum_distance small_config under_way
unfolding round start seed_update receive update_state for_others continue_with conclude
    is_ready_to_terminate is_starvation_termination num_heard get_closest_in_states num_waiting sort
    add_heard hear try_add find new_query_peerset sort_by select insert_by get_closest_n_in_states
    get_state set_state all_queried closest_queried is_lookup_termination lookup_alpha
    peers_to_query spawn_all spawn_query terminate
under_way-Reach = first {q = under_way} false 3 seeds refl

Reach-Goes_example : (under_way.terminated ≡ true) ⊎ Goes sum_distance small_config under_way
Reach-Goes_example = Reach-Goes sum_distance small_config alpha_room under_way-Reach

Reach-never_panics_example :
    round sum_distance small_config true
      (update (query_peer small_config (λ _. true) 5 query_failed))
      (record under_way { in_flight = erase 5 (5 ∷ 4 ∷ []) })
    ≢ none
Reach-never_panics_example =
    Reach-never_panics sum_distance small_config alpha_room true (λ _. true) 5 query_failed
      under_way-Reach refl (inl refl)

six-IsHeard : All (IsHeard under_way) only_six
unfolding state_at
six-IsHeard = (refl, tt)

abbrev seed_times : List (PeerId × ℕ)
seed_times = (4, 30) ∷ (5, 10) ∷ []

nobody_faster : (r e : ℕ) → Has r seeds → time_of r seed_times ≡ some e → 10 ≤ e
unfolding time_of
nobody_faster r e (inl q) t = ground arith
nobody_faster r e (inr (inl q)) t = ground arith
nobody_faster r e (inr (inr (inl q))) t = ground arith
nobody_faster r e (inr (inr (inr n))) t = absurd n

five_answered : time_of 5 seed_times ≡ some 10
unfolding time_of
five_answered = refl

valuable_peers-fastest_example : Has 5 (valuable_peers seeds seed_times)
valuable_peers-fastest_example =
    valuable_peers-fastest 5 10 seeds seed_times (inr (inl refl)) five_answered (omega arith)
      (omega arith) nobody_faster

construct_lookup_result_total_example :
    (r : LookupResult) × (construct_lookup_result small_hashing small_config (200 ∷ []) under_way
      ≡ some r)
    × (length r.peers ≤ 2)
    × Agree (sort three_peers) r.peers r.state
construct_lookup_result_total_example =
    construct_lookup_result_total sum_distance small_hashing small_config (200 ∷ []) under_way
      three_peers-IsValid
