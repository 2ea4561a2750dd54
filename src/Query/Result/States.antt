-- ===== src/Query/Result/States.antt =====
-- constructLookupResult returns, and its states are those of its peers.
use kadrtt_test_plan.Base.{
  ℕ, ◌≤◌, ◌≡◌, ◌∙◌, ap, refl, Bool, true, false, inl, inr, some, List, [], ◌∷◌, take, map, All,
  All-take, All-image, sort_by, sort_by-All, arith, Bool-cases, length, length-take-le,
}
use kadrtt_test_plan.Keyspace.{PeerId, Bytes, Hashing, convert_peer_id}
use kadrtt_test_plan.Peerset.{
  PeerState, QueryPeerset, in_states, sort, get_state, get_closest_n_in_states,
}
use kadrtt_test_plan.Peerset.Entries.{state_at, IsValid, state_at-sort, get_state-state_at}
use kadrtt_test_plan.Peerset.States.{sort-IsValid}
use kadrtt_test_plan.Peerset.Counts.{num_heard-count, num_waiting-count, sort_twice}
use kadrtt_test_plan.Peerset.Closest.{get_closest_n_in_states_sound}
use kadrtt_test_plan.Query.{
  Config, Query, unqueried, closest_queried, is_lookup_termination, is_lookup_termination_kad_rtt,
  is_starvation_termination,
}
use kadrtt_test_plan.Query.Result.{
  LookupResult, states_of, construct_lookup_result, result_of, tested, tested_too,
}
use kadrtt_test_plan.Table.Nearest.{PeerDistance, by_distance, sort_closest_peers}

-- The states are those that the peers have in the set, none of them unreachable, in one order.
abbrev pub Agree : QueryPeerset → List PeerId → List PeerState → Type 0
Agree qp [] [] = Unit
Agree qp [] (s ∷ ss) = ⊥
Agree qp (p ∷ ps) [] = ⊥
Agree qp (p ∷ ps) (s ∷ ss) =
    (state_at p qp.all ≡ some s) × (in_states unqueried s ≡ true) × Agree qp ps ss

abbrev Known : QueryPeerset → PeerId → Type 0
Known qp p = (s : PeerState) × (state_at p qp.all ≡ some s) × (in_states unqueried s ≡ true)

states_of_total :
    (qp qp' : QueryPeerset) (ps : List PeerId)
    → ((p : PeerId) → state_at p qp'.all ≡ state_at p qp.all)
    → All (Known qp) ps
    → (ss : List PeerState) × (states_of ps qp' ≡ some ss) × Agree qp ps ss
unfolding states_of
states_of_total qp qp' [] same a = ([], refl, tt)
states_of_total qp qp' (p ∷ ps) same a =
    let (s, e, u) = a.0 in
    let (ss, f, g) = states_of_total qp qp' ps same a.1 in
    let at : get_state p qp' ≡ some s = get_state-state_at p qp' ∙ same p ∙ e in
    (s ∷ ss, rw at (rw f refl), (e, u, g))

abbrev paired : Hashing → Bytes → PeerId → PeerDistance
paired h target p = record { p = p; distance = h.xor target (convert_peer_id h p); rtt = 0 }

paired-All :
    (P : PeerId → Type 0) (h : Hashing) (target : Bytes) (ps : List PeerId)
    → All P ps
    → All (λ (x : PeerDistance). P x.p) (map (paired h target) ps)
paired-All P h target [] a = tt
paired-All P h target (p ∷ ps) a = (a.0, paired-All P h target ps a.1)

sort_closest_peers-All :
    (P : PeerId → Type 0) (h : Hashing) (target : Bytes) (ps : List PeerId)
    → All P ps
    → All P (sort_closest_peers h ps target)
unfolding sort_closest_peers
sort_closest_peers-All P h target ps a =
    All-image P (λ (x : PeerDistance). x.p) (sort_by by_distance (map (paired h target) ps))
      (sort_by-All (λ (x : PeerDistance). P x.p) by_distance (map (paired h target) ps)
        (paired-All P h target ps a))

-- Either test leaves the query with its set sorted.
left_sorted :
    (n : ℕ) (q : Query) → ((closest_queried n q).0 ≡ record q { query_peers = sort q.query_peers })
unfolding closest_queried get_closest_n_in_states
left_sorted n q = refl

starvation_sorted :
    (q : Query)
    → (is_starvation_termination (record q { query_peers = sort q.query_peers })).0
      ≡ record q { query_peers = sort q.query_peers }
unfolding is_starvation_termination
starvation_sorted q = ground (
  arith,
  num_heard-count (sort q.query_peers),
  num_waiting-count (sort (sort q.query_peers)),
  sort_twice q.query_peers,
)

tested-left :
    (c : Config) (q : Query) → (tested c q).0 ≡ record q { query_peers = sort q.query_peers }
unfolding tested is_lookup_termination is_lookup_termination_kad_rtt
tested-left c q = elim (Bool-cases c.is_kad_rtt) [
  | inl k ↦ simp k (left_sorted _ q)
  | inr k ↦ simp k (left_sorted c.beta q)
]

tested_too-left :
    (r : Query × Bool) (q : Query)
    → r.0 ≡ record q { query_peers = sort q.query_peers }
    → (tested_too r).0 ≡ record q { query_peers = sort q.query_peers }
unfolding tested_too
tested_too-left (x, true) q e = e
tested_too-left (x, false) q e = rw e (starvation_sorted q)

result_of_total :
    (distance_to_key : ℕ → PeerId → ℕ) (h : Hashing) (c : Config) (target : Bytes) (q : Query)
    (done : Bool)
    → IsValid distance_to_key q.query_peers
    → (r : LookupResult) × (result_of h c target q done ≡ some r)
      × (length r.peers ≤ c.bucket_size)
      × Agree q.query_peers r.peers r.state
unfolding result_of get_closest_n_in_states
result_of_total distance_to_key h c target q done v =
    let found = (get_closest_n_in_states c.bucket_size unqueried q.query_peers).1 in
    let (_, _, known) =
      get_closest_n_in_states_sound distance_to_key c.bucket_size unqueried q.query_peers v in
    let ordered = sort_closest_peers-All (Known q.query_peers) h target found known in
    let kept = take c.bucket_size (sort_closest_peers h found target) in
    let (ss, e, g) =
      states_of_total q.query_peers (sort q.query_peers) kept
        (λ p. state_at-sort p q.query_peers v.distinct)
        (All-take _ c.bucket_size (sort_closest_peers h found target) ordered) in
    (
      record { peers = kept; state = ss; completed = done },
      rw e refl,
      length-take-le c.bucket_size (sort_closest_peers h found target),
      g,
    )

-- constructLookupResult does not panic on a well-formed set: it returns at most as many peers as the
-- bucket size, each with the state that it has in the set, none of them unreachable.
pub construct_lookup_result_total :
    (distance_to_key : ℕ → PeerId → ℕ) (h : Hashing) (c : Config) (target : Bytes) (q : Query)
    → IsValid distance_to_key q.query_peers
    → (r : LookupResult) × (construct_lookup_result h c target q ≡ some r)
      × (length r.peers ≤ c.bucket_size)
      × Agree (sort q.query_peers) r.peers r.state
unfolding construct_lookup_result
construct_lookup_result_total distance_to_key h c target q v =
    let t = tested_too (tested c q) in
    let left = tested_too-left (tested c q) q (tested-left c q) in
    let closed : Query = record q { query_peers = sort q.query_peers } in
    let (r, e, few, agree) =
      result_of_total distance_to_key h c target closed t.1
        (sort-IsValid distance_to_key q.query_peers v) in
    (r, ap (λ (l : Query). result_of h c target l t.1) left ∙ e, few, agree)
