-- ===== src/Query/Ending.antt =====
-- When a lookup is over: the tests of isReadyToTerminate on a sorted set.
use kadrtt_test_plan.Base.{
  ℕ, ◌≡◌, refl, ◌∙◌, ◌⊎◌, Bool, true, none, some, [], ◌∷◌, ◌==◌, map, if◌then◌else◌, ◌&&◌, All-map,
  arith,
}
use kadrtt_test_plan.Keyspace.{PeerId}
use kadrtt_test_plan.Peerset.{peer_heard, peer_waiting, sort, get_closest_in_states}
use kadrtt_test_plan.Peerset.Entries.{state_at-sort}
use kadrtt_test_plan.Peerset.States.{sort-IsValid}
use kadrtt_test_plan.Peerset.Closest.{get_closest_n_in_states-chosen, chosen}
use kadrtt_test_plan.Peerset.Counts.{
  count_in, count_in-sort, num_heard-count, num_waiting-count, get_closest_in_states-chosen,
}
use kadrtt_test_plan.Query.{
  Config, Query, lookup_stopped, lookup_starvation, lookup_completed, unqueried, all_queried,
  closest_queried, is_lookup_termination, is_starvation_termination, is_ready_to_terminate,
  peers_to_query,
}
use kadrtt_test_plan.Query.Learning.{IsTracked}
use kadrtt_test_plan.Query.Spawning.{heard_peers}

-- The query after its set was sorted.
abbrev pub sorted : Query → Query
sorted q = record q { query_peers = sort q.query_peers }

pub sorted-IsTracked :
    (distance_to_key : ℕ → PeerId → ℕ) (c : Config) (q : Query)
    → IsTracked distance_to_key c q
    → IsTracked distance_to_key c (sorted q)
sorted-IsTracked distance_to_key c q t = record {
  valid = sort-IsValid distance_to_key q.query_peers t.valid;
  waiting =
      All-map _ _ (λ r w. state_at-sort r q.query_peers t.valid.distinct ∙ w) q.in_flight t.waiting;
  apart = t.apart;
  counted = count_in-sort peer_waiting q.query_peers ∙ t.counted;
  not_self = state_at-sort c.self q.query_peers t.valid.distinct ∙ t.not_self;
  running = t.running;
}

-- On a sorted set the tests only read.
is_starvation_termination-counts :
    (q : Query)
    → sort q.query_peers ≡ q.query_peers
    → is_starvation_termination q ≡ (
      q,
      (count_in peer_heard q.query_peers.all == 0)
          && (count_in peer_waiting q.query_peers.all == 0),
    )
unfolding is_starvation_termination
is_starvation_termination-counts q e =
    ground (arith, num_heard-count q.query_peers, num_waiting-count q.query_peers)

closest_queried-chosen :
    (n : ℕ) (q : Query)
    → sort q.query_peers ≡ q.query_peers
    → closest_queried n q
      ≡ (q, all_queried (map (λ x. x.id) (chosen n unqueried q.query_peers)) q.query_peers)
unfolding closest_queried
closest_queried-chosen n q e =
    ground (arith, get_closest_n_in_states-chosen n unqueried q.query_peers)

heard_peers-closest :
    (q : Query)
    → sort q.query_peers ≡ q.query_peers
    → get_closest_in_states (peer_heard ∷ []) q.query_peers ≡ (q.query_peers, heard_peers q)
heard_peers-closest q e =
    ground (arith, get_closest_in_states-chosen (peer_heard ∷ []) q.query_peers)

-- Nobody is left to ask or to wait for.
abbrev pub starved : Query → Bool
starved q =
    (count_in peer_heard q.query_peers.all == 0) && (count_in peer_waiting q.query_peers.all == 0)

-- The closest beta peers that are not unreachable have been queried.
abbrev pub finished : Config → Query → Bool
finished c q = all_queried (map (λ x. x.id) (chosen c.beta unqueried q.query_peers)) q.query_peers

pub is_ready_to_terminate-sorted :
    (c : Config) (stop : Bool) (n : ℕ) (q : Query)
    → sort q.query_peers ≡ q.query_peers
    → is_ready_to_terminate c stop n q ≡ (
        if stop
        then (q, some lookup_stopped, [])
        else if starved q
        then (q, some lookup_starvation, [])
        else if finished c q
        then (q, some lookup_completed, [])
        else (q, none, peers_to_query n 0 (heard_peers q)))
unfolding is_ready_to_terminate is_lookup_termination
is_ready_to_terminate-sorted c stop n q e =
    rw (is_starvation_termination-counts q e)
      (rw (closest_queried-chosen c.beta q e) (rw (heard_peers-closest q e) refl))

-- What a round ends with: the lookup is over, for a reason that holds; or its goroutines are
-- tracked, and there is one at least.
pub record Ended (c : Config) (stop : Bool) (q q' : Query) : Type 0 where
  pub over : q'.terminated ≡ true
  pub flight : q'.in_flight ≡ q.in_flight
  pub reason : (stop ≡ true) ⊎ ((starved (sorted q) ≡ true) ⊎ (finished c (sorted q) ≡ true))
