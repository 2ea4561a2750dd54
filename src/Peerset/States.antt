-- ===== src/Peerset/States.antt =====
-- Which peers the set holds and in which state: the methods against a lookup by peer.
use kadrtt_test_plan.Base.{
  ℕ, zero, suc, ◌≡◌, refl, ◌≢◌, ◌↔◌, ◌⊎◌, inl, inr, true, none, some, List, [], ◌∷◌, ◌==◌, ◌&&◌,
  if◌then◌else◌, less_by, sort_by-All, All, All-append, AscendingFrom, sort_by-Ascending,
  Bool-cases, arith,
}
use kadrtt_test_plan.Keyspace.{PeerId}
use kadrtt_test_plan.Peerset.{
  PeerState, peer_heard, QueryPeerState, QueryPeerset, find, set_at, try_add, sort, set_state,
  new_query_peerset,
}
use kadrtt_test_plan.Peerset.Entries.{
  state_at, Distinct, IsValid, find-state_at, state_at-set_at, state_at-append, state_at-append_ne,
  Distinct-append, Distinct-sort_by,
}

set_at-Distinct :
    (xs : List QueryPeerState) (p : PeerId) (i : ℕ) (s : PeerState)
    → find p xs ≡ some i
    → Distinct xs
    → Distinct (set_at xs i s)
unfolding find set_at state_at
set_at-Distinct [] p i s h d = tt
set_at-Distinct (x ∷ xs) p zero s h d = d
set_at-Distinct (x ∷ xs) p (suc i) s h d =
    ground (arith, set_at-Distinct xs p i s, state_at-set_at p x.id s xs i)

-- A property of the peer and its distance is kept by a write of the state.
set_at-All :
    (P : PeerId → ℕ → Type 0) (xs : List QueryPeerState) (i : ℕ) (s : PeerState)
    → All (λ x. P x.id x.distance) xs
    → All (λ x. P x.id x.distance) (set_at xs i s)
unfolding set_at
set_at-All P [] i s h = tt
set_at-All P (x ∷ xs) zero s h = h
set_at-All P (x ∷ xs) (suc i) s h = (h.0, set_at-All P xs i s h.1)

set_at-AscendingFrom :
    (n : ℕ) (xs : List QueryPeerState) (i : ℕ) (s : PeerState)
    → AscendingFrom (λ x. x.distance) n xs
    → AscendingFrom (λ x. x.distance) n (set_at xs i s)
unfolding set_at
set_at-AscendingFrom n [] i s h = tt
set_at-AscendingFrom n (x ∷ xs) zero s h = h
set_at-AscendingFrom n (x ∷ xs) (suc i) s h = (h.0, set_at-AscendingFrom x.distance xs i s h.1)

module _ (distance_to_key : ℕ → PeerId → ℕ) where
  pub new_query_peerset-IsValid : (key : ℕ) → IsValid distance_to_key (new_query_peerset key)
  unfolding new_query_peerset
  new_query_peerset-IsValid key = record { distinct = tt; measured = tt; in_order = λ _. tt }

  pub sort-IsValid :
      (qp : QueryPeerset) → IsValid distance_to_key qp → IsValid distance_to_key (sort qp)
  unfolding sort
  sort-IsValid qp v = elim (Bool-cases qp.sorted) [
    | inl e ↦ simp e v
    | inr e ↦ simp e (record {
      distinct = Distinct-sort_by (less_by (λ x. x.distance)) qp.all v.distinct;
      measured = sort_by-All _ (less_by (λ x. x.distance)) qp.all v.measured;
      in_order = λ _. sort_by-Ascending (λ (x : QueryPeerState). x.distance) qp.all;
    })
  ]

  -- TryAdd keeps a well-formed set well formed: no peer twice, every distance that of the peer to
  -- the key, and the flag `sorted` true only of a list that ascends by distance.
  pub try_add-IsValid :
      (p referred_by : PeerId) (qp : QueryPeerset)
      → IsValid distance_to_key qp
      → IsValid distance_to_key (try_add distance_to_key p referred_by qp).0
  unfolding try_add
  try_add-IsValid p referred_by qp v = elim (find-state_at p qp.all) [
    | inl (f, s) ↦
        rw (f, try_add)
          (record {
            distinct = Distinct-append qp.all _ s v.distinct;
            measured = All-append _ qp.all _ v.measured (refl, tt);
            in_order = λ e. cc;
          })
    | inr (i, x, f, g, h, s) ↦ rw (f, try_add) v
  ]

  pub set_state-IsValid :
      (p : PeerId) (s : PeerState) (qp : QueryPeerset) {qp' : QueryPeerset}
      → IsValid distance_to_key qp
      → set_state p s qp ≡ some qp'
      → IsValid distance_to_key qp'
  unfolding set_state
  set_state-IsValid p s qp {qp'} v e = elim (find-state_at p qp.all) [
    | inl (f, _) ↦ absurd (ground arith)
    | inr (i, x, f, g, h, _) ↦
        let same : record qp { all = set_at qp.all i s } ≡ qp' = ground arith in
        rw (← same) (record {
          distinct = set_at-Distinct qp.all p i s f v.distinct;
          measured = set_at-All (λ q d. d ≡ distance_to_key qp.key q) qp.all i s v.measured;
          in_order = λ h'. set_at-AscendingFrom 0 qp.all i s (v.in_order h');
        })
  ]

  -- TryAdd answers true exactly when the peer was not in the set; then the peer is in it with the
  -- state heard, and in every case every other state is what it was.
  pub try_add-state_at :
      (p referred_by q : PeerId) (qp : QueryPeerset)
      → let r = try_add distance_to_key p referred_by qp in
        ((r.1 ≡ true) ↔ (state_at p qp.all ≡ none))
        × (state_at q r.0.all ≡ (if r.1 && q == p then some peer_heard else state_at q qp.all))
  unfolding try_add
  try_add-state_at p referred_by q qp = elim (find-state_at p qp.all) [
    | inl (f, s) ↦
        rw (f, try_add)
          (
            ground arith,
            elim (Bool-cases (q == p)) [
              | inl e ↦ ground (
                arith,
                state_at-append q qp.all (record {
                  id = p;
                  distance = distance_to_key qp.key p;
                  state = peer_heard;
                  referred_by = referred_by;
                }),
              )
              | inr e ↦ ground (
                arith,
                state_at-append_ne q qp.all (record {
                  id = p;
                  distance = distance_to_key qp.key p;
                  state = peer_heard;
                  referred_by = referred_by;
                }),
              )
            ],
          )
    | inr (i, x, f, g, h, s) ↦ rw (f, try_add) (ground arith, ground arith)
  ]

-- SetState panics exactly on a peer that is not in the set; otherwise it writes that peer's state
-- and leaves every other state as it was.
pub set_state-state_at :
    (p q : PeerId) (s : PeerState) (qp : QueryPeerset)
    → ((set_state p s qp ≡ none) × (state_at p qp.all ≡ none))
      ⊎ ((qp' : QueryPeerset) × (set_state p s qp ≡ some qp')
          × (state_at p qp.all ≢ none)
          × (state_at q qp'.all ≡ (if q == p then some s else state_at q qp.all)))
unfolding set_state
set_state-state_at p q s qp = elim (find-state_at p qp.all) [
  | inl (f, e) ↦ inl (rw (f, set_state), e)
  | inr (i, x, f, g, h, e) ↦ inr (
    record qp { all = set_at qp.all i s },
    rw (f, set_state),
    ground arith,
    state_at-set_at p q s qp.all i f,
  )
]

-- SetState panics, or it keeps a well-formed set well formed: no peer
-- twice, every distance that of the peer to the key, and the flag `sorted` true only of a list that
-- ascends by distance.
pub set_state_keeps :
    (distance_to_key : ℕ → PeerId → ℕ) (p : PeerId) (s : PeerState) (qp : QueryPeerset)
    → IsValid distance_to_key qp
    → (set_state p s qp ≡ none)
      ⊎ ((qp' : QueryPeerset) × (set_state p s qp ≡ some qp') × IsValid distance_to_key qp')
set_state_keeps distance_to_key p s qp v = elim (set_state-state_at p p s qp) [
  | inl (e, _) ↦ inl e
  | inr (qp', e, _, _) ↦ inr (qp', e, set_state-IsValid distance_to_key p s qp v e)
]
