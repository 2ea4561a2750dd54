-- ===== src/Query/Spawning.antt =====
-- spawnQuery, and which peers isReadyToTerminate picks.
use kadrtt_test_plan.Base.{
  ℕ, suc, ◌+◌, ◌≤◌, ◌<◌, ◌≡◌, refl, ap, ◌∙◌, ◌≢◌, inl, inr, Bool, true, none, some, List, [], ◌∷◌,
  ◌==◌, map, length, All, All-map, All-both, All-image, All-select, select-passes, arith,
  Bool-cases, Differ, select,
}
use kadrtt_test_plan.Keyspace.{PeerId}
use kadrtt_test_plan.Peerset.{PeerState, peer_heard, peer_waiting, QueryPeerState, in_states}
use kadrtt_test_plan.Peerset.Entries.{state_at, Distinct, All-state_at}
use kadrtt_test_plan.Peerset.States.{set_state-IsValid, set_state-state_at}
use kadrtt_test_plan.Peerset.Counts.{indicator, count_in-set_state}
use kadrtt_test_plan.Query.{Config, Query, spawn_query, spawn_all, peers_to_query}
use kadrtt_test_plan.Query.Learning.{IsTracked}

abbrev pub IsHeard : Query → PeerId → Type 0
IsHeard q p = state_at p q.query_peers.all ≡ some peer_heard

module _ (distance_to_key : ℕ → PeerId → ℕ) (c : Config) where
  spawn_query_total :
      (p : PeerId) (q : Query)
      → IsTracked distance_to_key c q
      → IsHeard q p
      → (q' : Query) × (spawn_query p q ≡ some q')
        × IsTracked distance_to_key c q'
        × (length q'.in_flight ≡ suc (length q.in_flight))
        × ((r : PeerId) → r ≢ p → IsHeard q r → IsHeard q' r)
  unfolding spawn_query
  spawn_query_total p q t h = elim (set_state-state_at p p peer_waiting q.query_peers) [
    | inl (e, absent) ↦ absurd (ground arith)
    | inr (qp, e, present, after) ↦
        let others : All (λ r. r ≢ p) q.in_flight =
          All-map _ _ (λ r w d. ground arith) q.in_flight t.waiting in
        (
          record q { query_peers = qp; in_flight = p ∷ q.in_flight },
          ground arith,
          record {
            valid = set_state-IsValid distance_to_key p peer_waiting q.query_peers t.valid e;
            waiting = (
              ground arith,
              All-map _ _ (λ r w. ground (arith, set_state-state_at p r peer_waiting q.query_peers))
                  q.in_flight (All-both _ _ q.in_flight t.waiting others),
            );
            apart = (others, t.apart);
            counted =
                unfold indicator in
                omega (
                  arith,
                  count_in-set_state peer_waiting peer_heard peer_waiting p q.query_peers h e,
                  t.counted,
                );
            not_self =
                ground (arith, set_state-state_at p c.self peer_waiting q.query_peers, t.not_self);
            running = t.running;
          },
          refl,
          λ r n k. ground (arith, set_state-state_at p r peer_waiting q.query_peers),
        )
  ]

  -- Queries are spawned for all of a list of different heard peers, one goroutine for each.
  pub spawn_all_total :
      (ps : List PeerId) (q : Query)
      → IsTracked distance_to_key c q
      → Differ ps
      → All (IsHeard q) ps
      → (q' : Query) × (spawn_all ps q ≡ some q')
        × IsTracked distance_to_key c q'
        × (length q'.in_flight ≡ length q.in_flight + length ps)
  unfolding spawn_all
  spawn_all_total [] q t d h = (q, refl, t, omega arith)
  spawn_all_total (p ∷ ps) q t d h =
      let (q1, e, t1, n, heard) = spawn_query_total p q t h.0 in
      let (q2, e2, t2, n2) =
        spawn_all_total ps q1 t1 d.1
          (All-map _ _ (λ r k. heard r k.0 k.1) ps (All-both _ _ ps d.0 h.1)) in
      (q2, ground arith, t2, omega arith)

-- Where `count` is below `n`, at most `n - count` peers are picked, and one if there is one.
pub peers_to_query_bounds :
    (n count : ℕ) (ps : List PeerId)
    → count < n
    → (count + length (peers_to_query n count ps) ≤ n)
      × ((0 < length ps) → 0 < length (peers_to_query n count ps))
unfolding peers_to_query
peers_to_query_bounds n count [] h = (omega arith, λ k. k)
peers_to_query_bounds n count (p ∷ ps) h = elim (Bool-cases (count + 1 == n)) [
  | inl e ↦ simp e (omega arith, λ _. omega arith)
  | inr e ↦ simp e (
    let (b, _) = peers_to_query_bounds n (count + 1) ps (ground arith) in omega arith,
    λ _. omega arith,
  )
]

All-peers_to_query :
    (P : PeerId → Type 0) (n count : ℕ) (ps : List PeerId)
    → All P ps
    → All P (peers_to_query n count ps)
unfolding peers_to_query
All-peers_to_query P n count [] h = tt
All-peers_to_query P n count (p ∷ ps) h = elim (Bool-cases (count + 1 == n)) [
  | inl e ↦ simp e (h.0, tt)
  | inr e ↦ simp e (h.0, All-peers_to_query P n (count + 1) ps h.1)
]

peers_to_query-Differ :
    (n count : ℕ) (ps : List PeerId) → Differ ps → Differ (peers_to_query n count ps)
unfolding peers_to_query
peers_to_query-Differ n count [] d = tt
peers_to_query-Differ n count (p ∷ ps) d = elim (Bool-cases (count + 1 == n)) [
  | inl e ↦ simp e (tt, tt)
  | inr e ↦
      simp e (All-peers_to_query _ n (count + 1) ps d.0, peers_to_query-Differ n (count + 1) ps d.1)
]

absent-others :
    (p : PeerId) (xs : List QueryPeerState)
    → state_at p xs ≡ none
    → All (λ (x : QueryPeerState). x.id ≢ p) xs
unfolding state_at
absent-others p [] h = tt
absent-others p (x ∷ xs) h = (ground arith, absent-others p xs (ground arith))

select-Differ :
    (f : QueryPeerState → Bool) (xs : List QueryPeerState)
    → Distinct xs
    → Differ (map (λ x. x.id) (select f xs))
unfolding select
select-Differ f [] d = tt
select-Differ f (x ∷ xs) d = elim (Bool-cases (f x)) [
  | inl e ↦ rw e (
    All-image _ (λ y. y.id) (select f xs) (All-select _ f xs (absent-others x.id xs d.0)),
    select-Differ f xs d.1,
  )
  | inr e ↦ rw e (select-Differ f xs d.1)
]

-- The heard peers of a sorted set, as `isReadyToTerminate` gets them.
abbrev pub heard_peers : Query → List PeerId
heard_peers q =
    map (λ x. x.id) (select (λ x. in_states (peer_heard ∷ []) x.state) q.query_peers.all)

heard_state : (s : PeerState) → in_states (peer_heard ∷ []) s ≡ true → s ≡ peer_heard
heard_state s h = ground arith

pub heard_peers-IsHeard : (q : Query) → Distinct q.query_peers.all → All (IsHeard q) (heard_peers q)
heard_peers-IsHeard q d =
    let all = q.query_peers.all in
    let f = λ (x : QueryPeerState). in_states (peer_heard ∷ []) x.state in
    All-image _ (λ x. x.id) (select f all)
      (All-map _ _ (λ x h. h.0 ∙ ap some (heard_state x.state h.1)) (select f all)
        (All-both _ _ (select f all) (All-select _ f all (All-state_at all d))
          (select-passes f all)))

pub picked :
    (n : ℕ) (q : Query)
    → Distinct q.query_peers.all
    → Differ (peers_to_query n 0 (heard_peers q))
      × All (IsHeard q) (peers_to_query n 0 (heard_peers q))
picked n q d = (
  peers_to_query-Differ n 0 (heard_peers q) (select-Differ _ q.query_peers.all d),
  All-peers_to_query _ n 0 (heard_peers q) (heard_peers-IsHeard q d),
)
