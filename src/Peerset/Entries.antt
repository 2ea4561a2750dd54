-- ===== src/Peerset/Entries.antt =====
-- The states of the entries of a set, through its operations on lists.
use kadrtt_test_plan.Base.{
  ℕ, zero, suc, ◌≡◌, refl, ◌⊎◌, inl, inr, Bool, true, false, Option, none, some, List, [], ◌∷◌,
  ◌++◌, ◌==◌, if◌then◌else◌, get_elem?, sort_by, insert_by, less_by, ◌∙◌, All, All-map, Has,
  Ascending, Bool-cases, arith,
}
use kadrtt_test_plan.Keyspace.{PeerId}
use kadrtt_test_plan.Peerset.{
  PeerState, QueryPeerState, QueryPeerset, find, set_at, sort, get_state,
}

-- The state that the set gives a peer; `none` if it is not there.
unfoldable pub state_at : PeerId → List QueryPeerState → Option PeerState
state_at p [] = none
state_at p (x ∷ xs) = if x.id == p then some x.state else state_at p xs

-- No peer stands twice.
abbrev pub Distinct : List QueryPeerState → Type 0
Distinct [] = Unit
Distinct (x ∷ xs) = (state_at x.id xs ≡ none) × Distinct xs

pub record IsValid (distance_to_key : ℕ → PeerId → ℕ) (qp : QueryPeerset) : Type 0 where
  pub distinct : Distinct qp.all
  pub measured : All (λ x. x.distance ≡ distance_to_key qp.key x.id) qp.all
  pub in_order : qp.sorted ≡ true → Ascending (λ x. x.distance) qp.all

-- The state that the lookup finds belongs to an entry of the list.
pub Has-of_state_at :
    (p : PeerId) (xs : List QueryPeerState) {s : PeerState}
    → state_at p xs ≡ some s
    → (x : QueryPeerState) × Has x xs × (x.id ≡ p) × (x.state ≡ s)
unfolding state_at
Has-of_state_at p [] h = cc
Has-of_state_at p (x ∷ xs) h = elim (Bool-cases (x.id == p)) [
  | inl e ↦ (x, inl refl, ground arith, ground arith)
  | inr e ↦ let (y, m, i, t) = Has-of_state_at p xs (rw e at h) in (y, inr m, i, t)
]

-- Where no peer stands twice, each entry gives its peer's state.
pub All-state_at :
    (xs : List QueryPeerState) → Distinct xs → All (λ x. state_at x.id xs ≡ some x.state) xs
unfolding state_at
All-state_at [] d = tt
All-state_at (x ∷ xs) d = (ground arith, All-map _ _ (λ y h. ground arith) xs (All-state_at xs d.1))

pub find-state_at :
    (p : PeerId) (xs : List QueryPeerState)
    → ((find p xs ≡ none) × (state_at p xs ≡ none))
      ⊎ ((i : ℕ) × (x : QueryPeerState) × (find p xs ≡ some i)
          × (get_elem? xs i ≡ some x)
          × (x.id ≡ p)
          × (state_at p xs ≡ some x.state))
unfolding find state_at
find-state_at p [] = inl (refl, refl)
find-state_at p (x ∷ xs) = elim (Bool-cases (x.id == p)) [
  | inl e ↦ inr (0, x, rw e, refl, ground arith, rw e)
  | inr e ↦ elim (find-state_at p xs) [
    | inl (f, s) ↦ inl (rw (e, f), rw (e, s))
    | inr (i, y, f, g, h, s) ↦ inr (suc i, y, rw (e, f), g, h, rw (e, s))
  ]
]

pub get_state-state_at : (p : PeerId) (qp : QueryPeerset) → get_state p qp ≡ state_at p qp.all
unfolding get_state
get_state-state_at p qp = ground (arith, find-state_at p qp.all)

-- Writing at the index that `find` gives changes that peer's state and no other's.
pub state_at-set_at :
    (p q : PeerId) (s : PeerState) (xs : List QueryPeerState) (i : ℕ)
    → find p xs ≡ some i
    → state_at q (set_at xs i s) ≡ (if q == p then some s else state_at q xs)
unfolding find state_at set_at
state_at-set_at p q s [] i h = cc
state_at-set_at p q s (x ∷ xs) zero h = ground (arith, find-state_at p xs)
state_at-set_at p q s (x ∷ xs) (suc i) h = ground (arith, state_at-set_at p q s xs i)

pub state_at-append :
    (p : PeerId) (xs : List QueryPeerState) (y : QueryPeerState)
    → state_at p xs ≡ none
    → state_at p (xs ++ y ∷ []) ≡ (if y.id == p then some y.state else none)
unfolding state_at
state_at-append p [] y h = refl
state_at-append p (x ∷ xs) y h = ground (arith, state_at-append p xs y)

pub state_at-append_ne :
    (p : PeerId) (xs : List QueryPeerState) (y : QueryPeerState)
    → (y.id == p) ≡ false
    → state_at p (xs ++ y ∷ []) ≡ state_at p xs
unfolding state_at
state_at-append_ne p [] y h = ground arith
state_at-append_ne p (x ∷ xs) y h = ground (arith, state_at-append_ne p xs y)

pub Distinct-append :
    (xs : List QueryPeerState) (y : QueryPeerState)
    → state_at y.id xs ≡ none
    → Distinct xs
    → Distinct (xs ++ y ∷ [])
unfolding state_at
Distinct-append [] y h d = (refl, tt)
Distinct-append (x ∷ xs) y h d =
    (ground (arith, state_at-append_ne x.id xs y), Distinct-append xs y (ground arith) d.1)

state_at-insert_by :
    (less : QueryPeerState → QueryPeerState → Bool) (p : PeerId) (a : QueryPeerState)
    (xs : List QueryPeerState)
    → state_at a.id xs ≡ none
    → state_at p (insert_by less a xs) ≡ (if a.id == p then some a.state else state_at p xs)
unfolding state_at insert_by
state_at-insert_by less p a [] h = refl
state_at-insert_by less p a (x ∷ xs) h = ground (arith, state_at-insert_by less p a xs)

state_at-sort_by :
    (less : QueryPeerState → QueryPeerState → Bool) (p : PeerId) (xs : List QueryPeerState)
    → Distinct xs
    → state_at p (sort_by less xs) ≡ state_at p xs
unfolding state_at sort_by
state_at-sort_by less p [] d = refl
state_at-sort_by less p (x ∷ xs) d =
    state_at-insert_by less p x (sort_by less xs) (state_at-sort_by less x.id xs d.1 ∙ d.0)
    ∙ ground (arith, state_at-sort_by less p xs d.1)

Distinct-insert_by :
    (less : QueryPeerState → QueryPeerState → Bool) (a : QueryPeerState) (xs : List QueryPeerState)
    → state_at a.id xs ≡ none
    → Distinct xs
    → Distinct (insert_by less a xs)
unfolding state_at insert_by
Distinct-insert_by less a [] h d = (refl, tt)
Distinct-insert_by less a (x ∷ xs) h d =
    ground (arith, Distinct-insert_by less a xs, state_at-insert_by less x.id a xs)

pub Distinct-sort_by :
    (less : QueryPeerState → QueryPeerState → Bool) (xs : List QueryPeerState)
    → Distinct xs
    → Distinct (sort_by less xs)
unfolding sort_by
Distinct-sort_by less [] d = tt
Distinct-sort_by less (x ∷ xs) d =
    Distinct-insert_by less x (sort_by less xs) (state_at-sort_by less x.id xs d.1 ∙ d.0)
      (Distinct-sort_by less xs d.1)

-- Sorting moves no peer to another state.
pub state_at-sort :
    (p : PeerId) (qp : QueryPeerset)
    → Distinct qp.all
    → state_at p (sort qp).all ≡ state_at p qp.all
unfolding sort
state_at-sort p qp d = ground (arith, state_at-sort_by (less_by (λ x. x.distance)) p qp.all d)
