-- ===== src/Query/Updates.antt =====
-- updateState: what an update does to the states, the counts and the invariant of the peer set.
use kadrtt_test_plan.Base.{
  ℕ, suc, ◌≡◌, refl, ◌∙◌, ◌≢◌, inl, inr, Bool, false, not, Option, none, some, List, [], ◌∷◌, ◌==◌,
  ◌&&◌, length, All, All-map, All-both, Has, arith, Option-cases, Differ, erase, length-erase,
  All-erase, All-erase_ne, erase-Differ, All-get, select,
}
use kadrtt_test_plan.Keyspace.{PeerId}
use kadrtt_test_plan.Peerset.{
  PeerState, peer_waiting, peer_queried, peer_unreachable, QueryPeerset, set_state,
}
use kadrtt_test_plan.Peerset.Entries.{state_at, IsValid, get_state-state_at}
use kadrtt_test_plan.Peerset.States.{set_state-IsValid, set_state-state_at}
use kadrtt_test_plan.Peerset.Counts.{count_in, indicator, count_in-set_state}
use kadrtt_test_plan.Query.{
  Config, Query, Outcome, dial_failed, query_failed, responded, query_peer, for_others,
  mark_queried, mark_unreachable, add_heard, update_state, add_time,
}
use kadrtt_test_plan.Query.Learning.{IsTracked, Learns, add_heard-Learns}

-- While the update of `p` is handled: its goroutine has ended, and the set still has it waiting.
pub record IsEnding (distance_to_key : ℕ → PeerId → ℕ) (c : Config) (p : PeerId) (q : Query)
    : Type 0 where
  pub valid : IsValid distance_to_key q.query_peers
  pub at_p : state_at p q.query_peers.all ≡ some peer_waiting
  pub waiting : All (λ r. state_at r q.query_peers.all ≡ some peer_waiting) q.in_flight
  pub others : All (λ r. r ≢ p) q.in_flight
  pub apart : Differ q.in_flight
  pub counted : count_in peer_waiting q.query_peers.all ≡ suc (length q.in_flight)
  pub not_self : state_at c.self q.query_peers.all ≡ none
  pub running : q.terminated ≡ false

module _ (distance_to_key : ℕ → PeerId → ℕ) (c : Config) (p : PeerId) where
  IsTracked-IsEnding :
      (q : Query)
      → IsTracked distance_to_key c q
      → Has p q.in_flight
      → IsEnding distance_to_key c p (record q { in_flight = erase p q.in_flight })
  IsTracked-IsEnding q t m = record {
    valid = t.valid;
    at_p = All-get _ p q.in_flight t.waiting m;
    waiting = All-erase _ p q.in_flight t.waiting;
    others = All-erase_ne p q.in_flight t.apart;
    apart = erase-Differ p q.in_flight t.apart;
    counted = omega (arith, length-erase p q.in_flight m, t.counted);
    not_self = t.not_self;
    running = t.running;
  }

  Learns-IsEnding :
      (q q' : Query)
      → IsEnding distance_to_key c p q
      → Learns c q q'
      → IsValid distance_to_key q'.query_peers
      → IsEnding distance_to_key c p q'
  Learns-IsEnding q q' e l v = record {
    valid = v;
    at_p = l.kept p peer_waiting e.at_p;
    waiting = rw l.flight (All-map _ _ (λ r h. l.kept r peer_waiting h) q.in_flight e.waiting);
    others = rw l.flight e.others;
    apart = rw l.flight e.apart;
    counted = rw (l.flight, l.counted) e.counted;
    not_self = l.not_self ∙ e.not_self;
    running = l.terminated ∙ e.running;
  }

  -- The peer leaves the state waiting for `s`, and all is tracked again.
  settle :
      (s : PeerState) (q : Query) {qp : QueryPeerset} (times : List (PeerId × ℕ))
      → indicator peer_waiting s ≡ 0
      → IsEnding distance_to_key c p q
      → set_state p s q.query_peers ≡ some qp
      → IsTracked distance_to_key c (record q { query_peers = qp; peer_times = times })
  settle s q {qp} times other t e = record {
    valid = set_state-IsValid distance_to_key p s q.query_peers t.valid e;
    waiting =
        All-map _ _ (λ r h. ground (arith, set_state-state_at p r s q.query_peers)) q.in_flight
          (All-both _ _ q.in_flight t.waiting t.others);
    apart = t.apart;
    counted =
        unfold indicator in
        omega (
          arith,
          count_in-set_state peer_waiting peer_waiting s p q.query_peers t.at_p e,
          t.counted,
          other,
        );
    not_self = ground (arith, set_state-state_at p c.self s q.query_peers);
    running = t.running;
  }

  -- Either mark succeeds on such a peer, and leaves the goroutines alone.
  abbrev Settles : Query → Option Query → Type 0
  Settles q r =
      (q' : Query) × (r ≡ some q') × IsTracked distance_to_key c q' × (q'.in_flight ≡ q.in_flight)

  mark_queried-Settles :
      (duration : ℕ) (q : Query)
      → IsEnding distance_to_key c p q
      → Settles q (mark_queried duration p q)
  unfolding mark_queried
  mark_queried-Settles duration q t = elim (set_state-state_at p p peer_queried q.query_peers) [
    | inl (e, absent) ↦ absurd (ground (arith, t.at_p))
    | inr (qp, e, present, after) ↦ (
      record q { query_peers = qp; peer_times = add_time p duration q.peer_times },
      ground (arith, get_state-state_at p q.query_peers, t.at_p),
      settle peer_queried q _ (unfold indicator in refl) t e,
      refl,
    )
  ]

  mark_unreachable-Settles :
      (q : Query) → IsEnding distance_to_key c p q → Settles q (mark_unreachable p q)
  unfolding mark_unreachable
  mark_unreachable-Settles q t = elim (set_state-state_at p p peer_unreachable q.query_peers) [
    | inl (e, absent) ↦ absurd (ground (arith, t.at_p))
    | inr (qp, e, present, after) ↦ (
      record q { query_peers = qp },
      ground (arith, get_state-state_at p q.query_peers, t.at_p),
      settle peer_unreachable q q.peer_times (unfold indicator in refl) t e,
      refl,
    )
  ]

  -- A loop over the one peer of an update runs its body once, on a peer that is not the node.
  for_others-one :
      (f : PeerId → Query → Option Query) (q : Query)
      → p ≢ c.self
      → for_others c.self f (p ∷ []) q ≡ f p q
  unfolding for_others
  for_others-one f q n = elim (Option-cases (f p q)) [
    | inl e ↦ ground arith
    | inr (q', e) ↦ ground arith
  ]

  IsEnding-ne : (q : Query) → IsEnding distance_to_key c p q → p ≢ c.self
  IsEnding-ne q t e =
      let h : state_at p q.query_peers.all ≡ none = rw e t.not_self in ground (arith, t.at_p)

  for_others-nil :
      (f : PeerId → Query → Option Query) (q : Query) → for_others c.self f [] q ≡ some q
  unfolding for_others
  for_others-nil f q = refl

  add_heard-nil : (q : Query) → add_heard distance_to_key c p [] q ≡ q
  unfolding add_heard
  add_heard-nil q = refl

  failed_total :
      (q : Query)
      → IsTracked distance_to_key c q
      → Has p q.in_flight
      → (q' : Query) × (update_state distance_to_key c
            (record {
              cause = p;
              queried = [];
              heard = [];
              unreachable = p ∷ [];
              query_duration = 0;
            })
            (record q { in_flight = erase p q.in_flight })
          ≡ some q')
        × IsTracked distance_to_key c q'
        × (q'.in_flight ≡ erase p q.in_flight)
  unfolding update_state
  failed_total q t m =
      let q0 : Query = record q { in_flight = erase p q.in_flight } in
      let e0 = IsTracked-IsEnding q t m in
      let (q2, e, t2, f) = mark_unreachable-Settles q0 e0 in
      (
        q2,
        ground (
          arith,
          t.running,
          add_heard-nil q0,
          for_others-nil (mark_queried 0) q0,
          for_others-one mark_unreachable q0 (IsEnding-ne q0 e0),
        ),
        t2,
        f,
      )

  -- The update of a running query's goroutine never panics, whatever the network answered: the
  -- state after it is tracked again, with that goroutine gone.
  pub update_state_total :
      (accepts : PeerId → Bool) (o : Outcome) (q : Query)
      → IsTracked distance_to_key c q
      → Has p q.in_flight
      → (q' : Query) × (update_state distance_to_key c
            (query_peer c accepts p o)
            (record q { in_flight = erase p q.in_flight })
          ≡ some q')
        × IsTracked distance_to_key c q'
        × (q'.in_flight ≡ erase p q.in_flight)
  unfolding update_state query_peer
  update_state_total accepts (responded news duration) q t m =
      let q0 : Query = record q { in_flight = erase p q.in_flight } in
      let e0 = IsTracked-IsEnding q t m in
      let heard = select (λ next. not (next == c.self) && accepts next) news in
      let (l, v) = add_heard-Learns distance_to_key c p heard q0 t.valid in
      let q1 = add_heard distance_to_key c p heard q0 in
      let e1 = Learns-IsEnding q0 q1 e0 l v in
      let (q2, e, t2, f) = mark_queried-Settles duration q1 e1 in
      (
        q2,
        ground (
          arith,
          for_others-one (mark_queried duration) q1 (IsEnding-ne q1 e1),
          for_others-nil mark_unreachable q2,
        ),
        t2,
        f ∙ l.flight,
      )
  update_state_total accepts dial_failed q t m = failed_total q t m
  update_state_total accepts query_failed q t m = failed_total q t m
