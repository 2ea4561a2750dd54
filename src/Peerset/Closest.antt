-- ===== src/Peerset/Closest.antt =====
-- GetClosestNInStates: the closest peers of a state, exactly.
use kadrtt_test_plan.Base.{
  ℕ, ◌≤◌, ◌≡◌, sym, ap, ◌⊎◌, inl, inr, true, some, List, map, length, take, select, All, Has,
  Ascending, arith, map-take, All-take, All-image, All-select, All-map, AscendingFrom-take,
  AscendingFrom-image, AscendingFrom-select, Has-take_or_above, take_of_length-le, length-take-le,
  Has-map, Has-select_iff, length-map, ◌∙◌, All-get, All-both, select-passes,
}
use kadrtt_test_plan.Keyspace.{PeerId}
use kadrtt_test_plan.Peerset.{
  PeerState, QueryPeerState, QueryPeerset, sort, in_states, get_closest_n_in_states,
}
use kadrtt_test_plan.Peerset.Entries.{
  state_at, IsValid, state_at-sort, Has-of_state_at, All-state_at,
}
use kadrtt_test_plan.Peerset.States.{sort-IsValid}

-- The first `n` of the sorted entries in one of the states.
abbrev pub chosen : ℕ → List PeerState → QueryPeerset → List QueryPeerState
chosen n states qp = take n (select (λ x. in_states states x.state) (sort qp).all)

pub get_closest_n_in_states-chosen :
    (n : ℕ) (states : List PeerState) (qp : QueryPeerset)
    → get_closest_n_in_states n states qp ≡ (sort qp, map (λ x. x.id) (chosen n states qp))
unfolding get_closest_n_in_states
get_closest_n_in_states-chosen n states qp =
    let found = select (λ (x : QueryPeerState). in_states states x.state) (sort qp).all in
    ground (
      arith,
      map-take (λ (x : QueryPeerState). x.id) n found,
      take_of_length-le n (map (λ (x : QueryPeerState). x.id) found),
    )

sort-key : (qp : QueryPeerset) → (sort qp).key ≡ qp.key
unfolding sort
sort-key qp = ground arith

module _ (distance_to_key : ℕ → PeerId → ℕ) (n : ℕ) (states : List PeerState) (qp : QueryPeerset)
    (v : IsValid distance_to_key qp) where
  sorted-IsValid : IsValid distance_to_key (sort qp)
  sorted-IsValid = sort-IsValid distance_to_key qp v

  sorted-Ascending : Ascending (λ (x : QueryPeerState). x.distance) (sort qp).all
  unfolding sort
  sorted-Ascending = sorted-IsValid.in_order (ground arith)

  measured : All (λ x. x.distance ≡ distance_to_key qp.key x.id) (sort qp).all
  measured =
      All-map _ _ (λ x h. h ∙ ap (λ k. distance_to_key k x.id) (sort-key qp)) (sort qp).all
        sorted-IsValid.measured

  held : All (λ x. state_at x.id qp.all ≡ some x.state) (sort qp).all
  held =
      All-map _ _ (λ x h. sym (state_at-sort x.id qp v.distinct) ∙ h) (sort qp).all
        (All-state_at (sort qp).all sorted-IsValid.distinct)

  abbrev found : List QueryPeerState
  found = select (λ x. in_states states x.state) (sort qp).all

  found-Ascending : Ascending (λ (x : QueryPeerState). x.distance) found
  found-Ascending = AscendingFrom-select (λ x. x.distance) 0 _ (sort qp).all sorted-Ascending

  abbrev Answers : PeerId → Type 0
  Answers p = (s : PeerState) × (state_at p qp.all ≡ some s) × (in_states states s ≡ true)

  answers : All (λ x. Answers x.id) found
  answers =
      All-map _ _ (λ x h. (x.state, h.0, h.1)) found
        (All-both _ _ found (All-select _ _ (sort qp).all held) (select-passes _ (sort qp).all))

  -- On a well-formed set GetClosestNInStates returns at most `n` peers, in ascending order of
  -- their distance to the key, and each is in the set with one of the given states.
  pub get_closest_n_in_states_sound :
      let r = (get_closest_n_in_states n states qp).1 in
      (length r ≤ n)
      × Ascending (distance_to_key qp.key) r
      × All (λ p. (s : PeerState) × (state_at p qp.all ≡ some s) × (in_states states s ≡ true)) r
  get_closest_n_in_states_sound = rw (get_closest_n_in_states-chosen n states qp) (
    omega (arith, length-map (λ (x : QueryPeerState). x.id) (take n found), length-take-le n found),
    AscendingFrom-image (λ x. x.distance) (distance_to_key qp.key) (λ x. x.id) 0 (take n found)
        (All-take _ n found (All-select _ _ (sort qp).all measured))
        (AscendingFrom-take _ n 0 found found-Ascending),
    All-image Answers (λ x. x.id) (take n found) (All-take _ n found answers),
  )

  -- On a well-formed set GetClosestNInStates returns a peer of the set with one of the states,
  -- or it returns `n` peers and none of them is farther from the key than that peer.
  pub get_closest_n_in_states_complete :
      (q : PeerId) (s : PeerState)
      → state_at q qp.all ≡ some s
      → in_states states s ≡ true
      → let r = (get_closest_n_in_states n states qp).1 in
        Has q r
        ⊎ ((length r ≡ n) × All (λ p. distance_to_key qp.key p ≤ distance_to_key qp.key q) r)
  get_closest_n_in_states_complete q s h k =
      let (x, m, i, t) = Has-of_state_at q (sort qp).all (state_at-sort q qp v.distinct ∙ h) in
      let kept : Has x found = (Has-select_iff _ x (sort qp).all).1 (m, rw t k) in
      let far : x.distance ≡ distance_to_key qp.key q =
        All-get (λ y. y.distance ≡ distance_to_key qp.key y.id) x (sort qp).all measured m
        ∙ ap (distance_to_key qp.key) i in
      rw (get_closest_n_in_states-chosen n states qp)
        (elim (Has-take_or_above (λ y. y.distance) n 0 x found found-Ascending kept) [
          | inl e ↦ inl (rw i at (Has-map (λ y. y.id) x (take n found) e))
          | inr (l, a, _) ↦ inr (
            length-map (λ y. y.id) (take n found) ∙ l,
            All-image _ (λ y. y.id) (take n found)
                (All-map _ _ (λ y b. omega (arith, b.0, b.1)) (take n found)
                  (All-both _ _ (take n found) a
                    (All-take _ n found (All-select _ _ (sort qp).all measured)))),
          )
        ])
