-- ===== src/Query/Learning.antt =====
-- Hearing of peers: what updateState keeps when it adds them.
use kadrtt_test_plan.Base.{
  ℕ, ◌≡◌, refl, ◌∙◌, inl, inr, false, none, some, List, [], ◌∷◌, ◌==◌, length, All, All-map, arith,
  Bool-cases, Differ,
}
use kadrtt_test_plan.Keyspace.{PeerId}
use kadrtt_test_plan.Peerset.{PeerState, peer_waiting}
use kadrtt_test_plan.Peerset.Entries.{state_at, IsValid}
use kadrtt_test_plan.Peerset.States.{try_add-IsValid, try_add-state_at}
use kadrtt_test_plan.Peerset.Counts.{count_in, count_in-try_add}
use kadrtt_test_plan.Query.{Config, Query, hear, add_heard}

-- The goroutines and the peers of the set: each goroutine is for another waiting peer, there is one
-- for each, and the node itself is not in the set.
pub record IsTracked (distance_to_key : ℕ → PeerId → ℕ) (c : Config) (q : Query) : Type 0 where
  pub valid : IsValid distance_to_key q.query_peers
  pub waiting : All (λ p. state_at p q.query_peers.all ≡ some peer_waiting) q.in_flight
  pub apart : Differ q.in_flight
  pub counted : count_in peer_waiting q.query_peers.all ≡ length q.in_flight
  pub not_self : state_at c.self q.query_peers.all ≡ none
  pub running : q.terminated ≡ false

-- What learning of peers leaves as it was.
pub record Learns (c : Config) (q q' : Query) : Type 0 where
  pub flight : q'.in_flight ≡ q.in_flight
  pub terminated : q'.terminated ≡ q.terminated
  pub counted : count_in peer_waiting q'.query_peers.all ≡ count_in peer_waiting q.query_peers.all
  pub not_self : state_at c.self q'.query_peers.all ≡ state_at c.self q.query_peers.all
  pub kept :
      (p : PeerId) (s : PeerState)
      → state_at p q.query_peers.all ≡ some s
      → state_at p q'.query_peers.all ≡ some s

Learns-refl : (c : Config) (q : Query) → Learns c q q
Learns-refl c q = record {
  flight = refl;
  terminated = refl;
  counted = refl;
  not_self = refl;
  kept = λ p s h. h;
}

Learns-trans : (c : Config) (q r t : Query) → Learns c q r → Learns c r t → Learns c q t
Learns-trans c q r t h k = record {
  flight = k.flight ∙ h.flight;
  terminated = k.terminated ∙ h.terminated;
  counted = k.counted ∙ h.counted;
  not_self = k.not_self ∙ h.not_self;
  kept = λ p s e. k.kept p s (h.kept p s e);
}

module _ (distance_to_key : ℕ → PeerId → ℕ) (c : Config) where
  hear-Learns : (cause p : PeerId) (q : Query) → Learns c q (hear distance_to_key c cause p q)
  unfolding hear
  hear-Learns cause p q = elim (Bool-cases (p == c.self)) [
    | inl e ↦ simp e (Learns-refl c q)
    | inr e ↦ simp e (record {
      flight = refl;
      terminated = refl;
      counted = count_in-try_add distance_to_key p cause q.query_peers;
      not_self = ground (arith, try_add-state_at distance_to_key p cause c.self q.query_peers);
      kept = λ r s h. ground (arith, try_add-state_at distance_to_key p cause r q.query_peers);
    })
  ]

  hear-IsValid :
      (cause p : PeerId) (q : Query)
      → IsValid distance_to_key q.query_peers
      → IsValid distance_to_key (hear distance_to_key c cause p q).query_peers
  unfolding hear
  hear-IsValid cause p q v = elim (Bool-cases (p == c.self)) [
    | inl e ↦ simp e v
    | inr e ↦ simp e (try_add-IsValid distance_to_key p cause q.query_peers v)
  ]

  -- Hearing of peers starts no query and ends none: it leaves the goroutines, the number of waiting
  -- peers, the state of every known peer and the absence of the node itself as they were.
  pub add_heard-Learns :
      (cause : PeerId) (ps : List PeerId) (q : Query)
      → IsValid distance_to_key q.query_peers
      → Learns c q (add_heard distance_to_key c cause ps q)
        × IsValid distance_to_key (add_heard distance_to_key c cause ps q).query_peers
  unfolding add_heard
  add_heard-Learns cause [] q v = (Learns-refl c q, v)
  add_heard-Learns cause (p ∷ ps) q v =
      let q' = hear distance_to_key c cause p q in
      let (l, w) = add_heard-Learns cause ps q' (hear-IsValid cause p q v) in
      (Learns-trans c q q' _ (hear-Learns cause p q) l, w)

pub Learns-IsTracked :
    (distance_to_key : ℕ → PeerId → ℕ) (c : Config) (q q' : Query)
    → IsTracked distance_to_key c q
    → Learns c q q'
    → IsValid distance_to_key q'.query_peers
    → IsTracked distance_to_key c q'
Learns-IsTracked distance_to_key c q q' t l v = record {
  valid = v;
  waiting = rw l.flight (All-map _ _ (λ r h. l.kept r peer_waiting h) q.in_flight t.waiting);
  apart = rw l.flight t.apart;
  counted = rw (l.flight, l.counted) t.counted;
  not_self = l.not_self ∙ t.not_self;
  running = l.terminated ∙ t.running;
}
