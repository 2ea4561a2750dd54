-- ===== src/Query/Loop.antt =====
-- The loop of `run`: no panic, at most alpha queries in flight, and never a wait for nothing.
use kadrtt_test_plan.Base.{
  ℕ, ◌-◌, ◌≤◌, ◌<◌, ◌≡◌, refl, ap, ◌∙◌, ◌≢◌, ◌⊎◌, inl, inr, Bool, true, false, Option, none, some,
  List, [], ◌∷◌, length, Has, arith, Bool-cases, select, erase, length-map, length-erase,
}
use kadrtt_test_plan.Keyspace.{PeerId}
use kadrtt_test_plan.Peerset.{
  peer_heard, QueryPeerState, QueryPeerset, sort, in_states, new_query_peerset,
}
use kadrtt_test_plan.Peerset.Entries.{state_at}
use kadrtt_test_plan.Peerset.States.{new_query_peerset-IsValid}
use kadrtt_test_plan.Peerset.Counts.{count_in, sort_twice, num_waiting-count, length-select-count}
use kadrtt_test_plan.Query.{
  Config, Query, update, Outcome, query_peer, LookupTerminationReason, lookup_stopped,
  lookup_starvation, lookup_completed, lookup_alpha, is_ready_to_terminate, terminate, conclude,
  peers_to_query, spawn_all, continue_with, receive, round, update_state, start, seed_update,
  for_others, add_heard,
}
use kadrtt_test_plan.Query.Learning.{IsTracked, Learns-IsTracked, add_heard-Learns}
use kadrtt_test_plan.Query.Updates.{update_state_total}
use kadrtt_test_plan.Query.Spawning.{spawn_all_total, peers_to_query_bounds, heard_peers, picked}
use kadrtt_test_plan.Query.Ending.{
  sorted, sorted-IsTracked, starved, finished, is_ready_to_terminate-sorted, Ended,
}

module _ (distance_to_key : ℕ → PeerId → ℕ) (c : Config) where
  abbrev pub Goes : Query → Type 0
  Goes q =
      IsTracked distance_to_key c q
      × (length q.in_flight ≤ lookup_alpha c)
      × (0 < length q.in_flight)

  heard_count : (q : Query) → length (heard_peers q) ≡ count_in peer_heard q.query_peers.all
  heard_count q =
      length-map (λ (x : QueryPeerState). x.id)
        (select (λ x. in_states (peer_heard ∷ []) x.state) q.query_peers.all)
      ∙ length-select-count peer_heard q.query_peers.all

  spawn_Goes :
      (q : Query)
      → IsTracked distance_to_key c q
      → length q.in_flight < lookup_alpha c
      → starved q ≡ false
      → (q' : Query) × (spawn_all
            (peers_to_query (lookup_alpha c - length q.in_flight) 0 (heard_peers q))
            q
          ≡ some q')
        × Goes q'
  spawn_Goes q t room s =
      let n = lookup_alpha c - length q.in_flight in
      let (d, h) = picked n q t.valid.distinct in
      let (q', e, t', l) =
        spawn_all_total distance_to_key c (peers_to_query n 0 (heard_peers q)) q t d h in
      let (b, some_one) = peers_to_query_bounds n 0 (heard_peers q) (omega arith) in
      (q', e, (t', omega arith, ground (arith, heard_count q, t.counted, some_one)))

  abbrev asked : Bool → Query → Query × Option LookupTerminationReason × List PeerId
  asked stop q = is_ready_to_terminate c stop (lookup_alpha c - length q.in_flight) (sorted q)

  continue_with-conclude :
      (stop : Bool) (q : Query)
      → IsTracked distance_to_key c q
      → continue_with distance_to_key c stop q ≡ conclude (asked stop q)
  unfolding continue_with
  continue_with-conclude stop q t =
      ap
        (λ (r : QueryPeerset × ℕ).
          conclude
            (is_ready_to_terminate c stop (lookup_alpha c - r.1) (record q { query_peers = r.0 })))
        (num_waiting-count q.query_peers ∙ ap (λ (n : ℕ). (sort q.query_peers, n)) t.counted)

  continue_with-over :
      (stop : Bool) (q : Query) (why : LookupTerminationReason)
      → IsTracked distance_to_key c q
      → asked stop q ≡ (sorted q, some why, [])
      → continue_with distance_to_key c stop q ≡ some (record (sorted q) { terminated = true })
  unfolding conclude terminate
  continue_with-over stop q why t e =
      continue_with-conclude stop q t ∙ ap conclude e ∙ ground (arith, t.running)

  continue_with-on :
      (stop : Bool) (q : Query) (ps : List PeerId)
      → IsTracked distance_to_key c q
      → asked stop q ≡ (sorted q, none, ps)
      → continue_with distance_to_key c stop q ≡ spawn_all ps (sorted q)
  unfolding conclude
  continue_with-on stop q ps t e =
      continue_with-conclude stop q t ∙ ap conclude e ∙ ground (arith, t.running)

  continue_with_total :
      (stop : Bool) (q : Query)
      → IsTracked distance_to_key c q
      → length q.in_flight < lookup_alpha c
      → (q' : Query) × (continue_with distance_to_key c stop q ≡ some q')
        × (Ended c stop q q' ⊎ Goes q')
  continue_with_total stop q t room =
      let n = lookup_alpha c - length q.in_flight in
      let r = is_ready_to_terminate-sorted c stop n (sorted q) (sort_twice q.query_peers) in
      let last : Query = record (sorted q) { terminated = true } in
      elim (Bool-cases stop) [
        | inl e ↦ (
          last,
          continue_with-over stop q lookup_stopped t (ground arith),
          inl (record { over = refl; flight = refl; reason = inl e }),
        )
        | inr e ↦ elim (Bool-cases (starved (sorted q))) [
          | inl f ↦ (
            last,
            continue_with-over stop q lookup_starvation t (r ∙ rw e (rw f refl)),
            inl (record { over = refl; flight = refl; reason = inr (inl f) }),
          )
          | inr f ↦ elim (Bool-cases (finished c (sorted q))) [
            | inl g ↦ (
              last,
              continue_with-over stop q lookup_completed t (r ∙ rw e (rw f (rw g refl))),
              inl (record { over = refl; flight = refl; reason = inr (inr g) }),
            )
            | inr g ↦
                let (q', h, goes) =
                  spawn_Goes (sorted q) (sorted-IsTracked distance_to_key c q t) room f in
                (q', continue_with-on stop q _ t (r ∙ rw e (rw f (rw g refl))) ∙ h, inr goes)
          ]
        ]
      ]

  -- One round on the update of any goroutine in flight, of a lookup whose goroutines are tracked
  -- and at most alpha: whatever the network answered, nothing panics, and then the lookup is
  -- over or its goroutines are tracked, at least one and at most alpha of them.
  pub round_total :
      (stop : Bool) (accepts : PeerId → Bool) (p : PeerId) (o : Outcome) (q : Query)
      → Goes q
      → Has p q.in_flight
      → (q' : Query) × (round distance_to_key c stop
            (update (query_peer c accepts p o))
            (record q { in_flight = erase p q.in_flight })
          ≡ some q')
        × ((q'.terminated ≡ true) ⊎ Goes q')
  unfolding round receive
  round_total stop accepts p o q (t, room, one) m =
      let (q1, e, t1, f) = update_state_total distance_to_key c p accepts o q t m in
      let less : length q1.in_flight < lookup_alpha c =
        rw f (omega (arith, length-erase p q.in_flight m)) in
      let (q2, e2, r) = continue_with_total stop q1 t1 less in
      (q2, rw e e2, elim r [ inl ended ↦ inl ended.over | inr goes ↦ inr goes ])

  start-IsTracked : (key : ℕ) → IsTracked distance_to_key c (start key)
  unfolding start new_query_peerset count_in state_at
  start-IsTracked key = record {
    valid = new_query_peerset-IsValid distance_to_key key;
    waiting = tt;
    apart = tt;
    counted = refl;
    not_self = refl;
    running = refl;
  }

  first_round-add_heard :
      (stop : Bool) (key : ℕ) (seed_peers : List PeerId)
      → round distance_to_key c stop (update (seed_update c seed_peers)) (start key)
        ≡ continue_with distance_to_key c stop
            (add_heard distance_to_key c c.self seed_peers (start key))
  unfolding round receive update_state seed_update for_others start
  first_round-add_heard stop key seed_peers = refl

  start_idle : (key : ℕ) → length (start key).in_flight ≡ 0
  unfolding start
  start_idle key = refl

  -- The first round, with any seeds and an alpha that is not 0, does not panic, and then the
  -- lookup is over or its goroutines are tracked, at least one and at most alpha of them.
  pub first_round_total :
      (stop : Bool) (key : ℕ) (seed_peers : List PeerId)
      → 0 < lookup_alpha c
      → (q' : Query) × (round distance_to_key c stop (update (seed_update c seed_peers)) (start key)
          ≡ some q')
        × ((q'.terminated ≡ true) ⊎ Goes q')
  first_round_total stop key seed_peers room =
      let q = start key in
      let t = start-IsTracked key in
      let (l, v) = add_heard-Learns distance_to_key c c.self seed_peers q t.valid in
      let q1 = add_heard distance_to_key c c.self seed_peers q in
      let t1 = Learns-IsTracked distance_to_key c q q1 t l v in
      let (q2, e2, r) =
        continue_with_total stop q1 t1 (rw l.flight (omega (arith, start_idle key))) in
      (
        q2,
        first_round-add_heard stop key seed_peers ∙ e2,
        elim r [ inl ended ↦ inl ended.over | inr goes ↦ inr goes ],
      )

-- The lookups that can be met at the top of the loop. The goroutine that is heard next is any of
-- those in flight, and the network, the filter and `stopFn` answer as they like.
pub data Reach (distance_to_key : ℕ → PeerId → ℕ) (c : Config) : Query → Type 0 where
  first :
      {q : Query} (stop : Bool) (key : ℕ) (seed_peers : List PeerId)
      → round distance_to_key c stop (update (seed_update c seed_peers)) (start key) ≡ some q
      → Reach distance_to_key c q
  next :
      {q q' : Query} (stop : Bool) (accepts : PeerId → Bool) (p : PeerId) (o : Outcome)
      → Reach distance_to_key c q
      → q.terminated ≡ false
      → Has p q.in_flight
      → round distance_to_key c stop
          (update (query_peer c accepts p o))
          (record q { in_flight = erase p q.in_flight })
        ≡ some q'
      → Reach distance_to_key c q'

module _ (distance_to_key : ℕ → PeerId → ℕ) (c : Config) (room : 0 < lookup_alpha c) where
  some-inj : (q r : Query) {o : Option Query} → o ≡ some q → o ≡ some r → q ≡ r
  some-inj q r e f = cc

  -- With an alpha that is not 0, in every reachable state the lookup is over, or the set is well
  -- formed, its waiting peers are exactly as many as the goroutines, each goroutine's peer is
  -- waiting, and the number of goroutines is at least one and at most alpha: a wait for an
  -- update is never in vain.
  pub Reach-Goes :
      {q : Query} → Reach distance_to_key c q → (q.terminated ≡ true) ⊎ Goes distance_to_key c q
  Reach-Goes {q} (first stop key seed_peers e) =
      let (q', f, r) = first_round_total distance_to_key c stop key seed_peers room in
      rw (some-inj q q' e f) r
  Reach-Goes {q} (next {q = q0} stop accepts p o before on m e) = elim (Reach-Goes before) [
    | inl over ↦ absurd (ground arith)
    | inr goes ↦
        let (q', f, r) = round_total distance_to_key c stop accepts p o q0 goes m in
        rw (some-inj q q' e f) r
  ]

  -- With an alpha that is not 0, no reachable lookup that goes on can panic: the update of any
  -- goroutine in flight is handled, whatever it says.
  pub Reach-never_panics :
      {q : Query} (stop : Bool) (accepts : PeerId → Bool) (p : PeerId) (o : Outcome)
      → Reach distance_to_key c q
      → q.terminated ≡ false
      → Has p q.in_flight
      → round distance_to_key c stop
          (update (query_peer c accepts p o))
          (record q { in_flight = erase p q.in_flight })
        ≢ none
  Reach-never_panics {q} stop accepts p o before on m e = elim (Reach-Goes before) [
    | inl over ↦ cc
    | inr goes ↦ let (q', f, r) = round_total distance_to_key c stop accepts p o q goes m in cc
  ]
