-- ===== src/Peerset/Counts.antt =====
-- How many peers of the set are in a state: NumHeard and NumWaiting.
use kadrtt_test_plan.Base.{
  ℕ, zero, suc, ◌+◌, ◌≡◌, refl, ap, ◌∙◌, inl, inr, Bool, some, List, [], ◌∷◌, ◌++◌, map,
  if◌then◌else◌, length, select, insert_by, sort_by, less_by, length-map, length-select-le,
  length-sort_by, take_of_length-le, arith, Option-cases,
}
use kadrtt_test_plan.Keyspace.{PeerId}
use kadrtt_test_plan.Peerset.{
  PeerState, peer_heard, peer_waiting, QueryPeerState, QueryPeerset, sort, same_state, in_states,
  find, set_at, try_add, set_state, get_closest_in_states, num_heard, num_waiting,
}
use kadrtt_test_plan.Peerset.Entries.{state_at}
use kadrtt_test_plan.Peerset.Closest.{get_closest_n_in_states-chosen}

-- 1 for the state that is counted.
unfoldable pub indicator : PeerState → PeerState → ℕ
indicator s t = if same_state s t then 1 else 0

unfoldable pub count_in : PeerState → List QueryPeerState → ℕ
count_in s [] = 0
count_in s (x ∷ xs) = indicator s x.state + count_in s xs

count_in-insert_by :
    (s : PeerState) (less : QueryPeerState → QueryPeerState → Bool) (a : QueryPeerState)
    (xs : List QueryPeerState)
    → count_in s (insert_by less a xs) ≡ indicator s a.state + count_in s xs
unfolding count_in insert_by
count_in-insert_by s less a [] = refl
count_in-insert_by s less a (x ∷ xs) = ground (arith, count_in-insert_by s less a xs)

count_in-sort_by :
    (s : PeerState) (less : QueryPeerState → QueryPeerState → Bool) (xs : List QueryPeerState)
    → count_in s (sort_by less xs) ≡ count_in s xs
unfolding count_in sort_by
count_in-sort_by s less [] = refl
count_in-sort_by s less (x ∷ xs) =
    count_in-insert_by s less x (sort_by less xs) ∙ omega (arith, count_in-sort_by s less xs)

pub count_in-sort :
    (s : PeerState) (qp : QueryPeerset) → count_in s (sort qp).all ≡ count_in s qp.all
unfolding sort
count_in-sort s qp = ground (arith, count_in-sort_by s (less_by (λ x. x.distance)) qp.all)

pub length-select-count :
    (s : PeerState) (xs : List QueryPeerState)
    → length (select (λ x. in_states (s ∷ []) x.state) xs) ≡ count_in s xs
unfolding select count_in indicator
length-select-count s [] = refl
length-select-count s (x ∷ xs) = ground (arith, length-select-count s xs)

length-sort : (qp : QueryPeerset) → length (sort qp).all ≡ length qp.all
unfolding sort
length-sort qp = ground (arith, length-sort_by (less_by (λ x. x.distance)) qp.all)

-- Every peer of the state is returned.
pub get_closest_in_states-chosen :
    (states : List PeerState) (qp : QueryPeerset)
    → get_closest_in_states states qp
      ≡ (sort qp, map (λ x. x.id) (select (λ x. in_states states x.state) (sort qp).all))
unfolding get_closest_in_states
get_closest_in_states-chosen states qp =
    get_closest_n_in_states-chosen (length qp.all) states qp
    ∙ ap (λ (l : List QueryPeerState). (sort qp, map (λ (x : QueryPeerState). x.id) l))
        (take_of_length-le (length qp.all)
          (select (λ (x : QueryPeerState). in_states states x.state) (sort qp).all)
          (omega (
            arith,
            length-sort qp,
            length-select-le (λ (x : QueryPeerState). in_states states x.state) (sort qp).all,
          )))

counted :
    (s : PeerState) (qp : QueryPeerset)
    → length (
        map (λ (x : QueryPeerState). x.id) (select (λ x. in_states (s ∷ []) x.state) (sort qp).all))
      ≡ count_in s qp.all
counted s qp =
    length-map (λ (x : QueryPeerState). x.id)
      (select (λ x. in_states (s ∷ []) x.state) (sort qp).all)
    ∙ length-select-count s (sort qp).all
    ∙ count_in-sort s qp

-- NumHeard sorts the set and answers how many of its peers are in the state heard.
pub num_heard-count : (qp : QueryPeerset) → num_heard qp ≡ (sort qp, count_in peer_heard qp.all)
unfolding num_heard
num_heard-count qp =
    rw (get_closest_in_states-chosen (peer_heard ∷ []) qp)
      (ap (λ (n : ℕ). (sort qp, n)) (counted peer_heard qp))

-- NumWaiting sorts the set and answers how many of its peers are in the state waiting.
pub num_waiting-count :
    (qp : QueryPeerset) → num_waiting qp ≡ (sort qp, count_in peer_waiting qp.all)
unfolding num_waiting
num_waiting-count qp =
    rw (get_closest_in_states-chosen (peer_waiting ∷ []) qp)
      (ap (λ (n : ℕ). (sort qp, n)) (counted peer_waiting qp))

-- A sorted set is left alone.
pub sort_twice : (qp : QueryPeerset) → sort (sort qp) ≡ sort qp
unfolding sort
sort_twice qp = ground arith

count_in-append :
    (s : PeerState) (xs : List QueryPeerState) (y : QueryPeerState)
    → count_in s (xs ++ y ∷ []) ≡ count_in s xs + indicator s y.state
unfolding count_in
count_in-append s [] y = ground arith
count_in-append s (x ∷ xs) y = ground (arith, count_in-append s xs y)

-- A new peer is heard, so no other state gains by it.
pub count_in-try_add :
    (distance_to_key : ℕ → PeerId → ℕ) (p referred_by : PeerId) (qp : QueryPeerset)
    → count_in peer_waiting (try_add distance_to_key p referred_by qp).0.all
      ≡ count_in peer_waiting qp.all
unfolding try_add
count_in-try_add distance_to_key p referred_by qp = elim (Option-cases (find p qp.all)) [
  | inl e ↦
      rw (e, try_add) (count_in-append peer_waiting qp.all _ ∙ unfold indicator in omega arith)
  | inr (i, e) ↦ rw (e, try_add) refl
]

count_in-set_at :
    (s t u : PeerState) (p : PeerId) (xs : List QueryPeerState) (i : ℕ)
    → find p xs ≡ some i
    → state_at p xs ≡ some t
    → count_in s (set_at xs i u) + indicator s t ≡ count_in s xs + indicator s u
unfolding count_in set_at find state_at
count_in-set_at s t u p [] i h k = cc
count_in-set_at s t u p (x ∷ xs) zero h k = ground arith
count_in-set_at s t u p (x ∷ xs) (suc i) h k = ground (arith, count_in-set_at s t u p xs i)

-- SetState moves one peer from the count of its old state to that of its new one.
pub count_in-set_state :
    (s t u : PeerState) (p : PeerId) (qp : QueryPeerset) {qp' : QueryPeerset}
    → state_at p qp.all ≡ some t
    → set_state p u qp ≡ some qp'
    → count_in s qp'.all + indicator s t ≡ count_in s qp.all + indicator s u
unfolding set_state
count_in-set_state s t u p qp k e = elim (Option-cases (find p qp.all)) [
  | inl f ↦ absurd (ground arith)
  | inr (i, f) ↦ ground (arith, count_in-set_at s t u p qp.all i f k)
]
