-- ===== src/Diversity/Tallies.antt =====
-- The groups on record, counted: how an addition to the filter and a removal change the counts.
use kadrtt_test_plan.Base.{
  ℕ, ◌+◌, ◌≡◌, ◌≢◌, refl, ap, ◌∙◌, Bool, some, List, [], ◌∷◌, ◌++◌, ◌==◌, if◌then◌else◌, Map,
  lookup, put, delete, lookup-put, IsMap, put-IsMap, delete_absent, inl, inr, arith, Bool-cases,
}
use kadrtt_test_plan.Keyspace.{PeerId}
use kadrtt_test_plan.Diversity.{
  pos, PeerGroupInfo, GroupCounts, increment, decrement_all, Filter, groups_at, add_group,
  add_groups,
}
use kadrtt_test_plan.Diversity.Counts.{
  indicator, in_table, in_cpl, Counted, increment-Counted, decrement-Counted,
}

-- How many groups of a list, and of a map of lists, pass a test.
unfoldable pub tally_of : (PeerGroupInfo → Bool) → List PeerGroupInfo → ℕ
tally_of t [] = 0
tally_of t (g ∷ gs) = indicator (t g) + tally_of t gs

unfoldable pub tally : (PeerGroupInfo → Bool) → Map (List PeerGroupInfo) → ℕ
tally t [] = 0
tally t ((p, gs) ∷ m) = tally_of t gs + tally t m

-- The abstract view of the counts: the groups on record, counted.
pub record IsCounted (f : Filter) : Type 0 where
  pub map : IsMap f.peer_groups
  pub counted :
      Counted
        (λ k. tally (in_table k) f.peer_groups)
        (λ c k. tally (in_cpl c k) f.peer_groups)
        f.pgm

pub Counted-congr :
    (n n' : ℕ → ℕ) (m m' : ℕ → ℕ → ℕ) (r : GroupCounts)
    → ((k : ℕ) → n k ≡ n' k)
    → ((c k : ℕ) → m c k ≡ m' c k)
    → Counted n m r
    → Counted n' m' r
Counted-congr n n' m m' r e f h = (λ k. h.0 k ∙ ap pos (e k), λ c k. h.1 c k ∙ ap pos (f c k))

tally_of-append :
    (t : PeerGroupInfo → Bool) (xs : List PeerGroupInfo) (g : PeerGroupInfo)
    → tally_of t (xs ++ g ∷ []) ≡ tally_of t xs + indicator (t g)
unfolding tally_of
tally_of-append t [] g = omega arith
tally_of-append t (x ∷ xs) g = omega (arith, tally_of-append t xs g)

tally-put :
    (t : PeerGroupInfo → Bool) (p : PeerId) (v : List PeerGroupInfo) (m : Map (List PeerGroupInfo))
    → tally t (put p v m) + tally_of t (groups_at p m) ≡ tally t m + tally_of t v
unfolding tally put groups_at lookup tally_of
tally-put t p v [] = omega arith
tally-put t p v ((q, gs) ∷ m) = ground (arith, tally-put t p v m)

pub tally-delete :
    (t : PeerGroupInfo → Bool) (p : PeerId) (m : Map (List PeerGroupInfo))
    → IsMap m
    → tally t (delete p m) + tally_of t (groups_at p m) ≡ tally t m
unfolding tally delete groups_at lookup tally_of
tally-delete t p [] d = omega arith
tally-delete t p ((q, gs) ∷ m) d = elim (Bool-cases (q == p)) [
  | inl e ↦ let same : q ≡ p = ground arith in ground (arith, delete_absent p m (rw (← same) d.0))
  | inr e ↦ ground (arith, tally-delete t p m d.1)
]

groups_at-put :
    (q p : PeerId) (v : List PeerGroupInfo) (m : Map (List PeerGroupInfo))
    → groups_at q (put p v m) ≡ (if p == q then v else groups_at q m)
unfolding groups_at
groups_at-put q p v m = ground (arith, lookup-put q p v m)

-- One more group on record is one more in the tally.
pub tally-add :
    (t : PeerGroupInfo → Bool) (p : PeerId) (g : PeerGroupInfo) (m : Map (List PeerGroupInfo))
    → tally t m + indicator (t g) ≡ tally t (put p (groups_at p m ++ g ∷ []) m)
tally-add t p g m =
    omega (arith, tally-put t p (groups_at p m ++ g ∷ []) m, tally_of-append t (groups_at p m) g)

add_group-IsCounted :
    (p : PeerId) (cpl : ℕ) (g : PeerGroupInfo) (f : Filter)
    → IsCounted f
    → IsCounted (add_group p cpl g f)
unfolding add_group
add_group-IsCounted p cpl g f v = record {
  map = put-IsMap p _ f.peer_groups v.map;
  counted =
      Counted-congr _ _ _ _ (increment g f.pgm) (λ k. tally-add (in_table k) p g f.peer_groups)
        (λ c k. tally-add (in_cpl c k) p g f.peer_groups) (increment-Counted g _ _ f.pgm v.counted);
}

pub add_groups-IsCounted :
    (p : PeerId) (cpl : ℕ) (gs : List PeerGroupInfo) (f : Filter)
    → IsCounted f
    → IsCounted (add_groups p cpl gs f)
unfolding add_groups
add_groups-IsCounted p cpl [] f v = v
add_groups-IsCounted p cpl (g ∷ gs) f v =
    add_groups-IsCounted p cpl gs (add_group p cpl g f) (add_group-IsCounted p cpl g f v)

pub decrement_all-Counted :
    (gs : List PeerGroupInfo) (n : ℕ → ℕ) (m : ℕ → ℕ → ℕ) (r : GroupCounts)
    → Counted (λ k. n k + tally_of (in_table k) gs) (λ c k. m c k + tally_of (in_cpl c k) gs) r
    → (r' : GroupCounts) × (decrement_all gs r ≡ some r') × Counted n m r'
unfolding decrement_all tally_of
decrement_all-Counted [] n m r h =
    (r, refl, Counted-congr _ n _ m r (λ k. omega arith) (λ c k. omega arith) h)
decrement_all-Counted (g ∷ gs) n m r h =
    let (r1, e, h1) =
      decrement-Counted g (λ k. n k + tally_of (in_table k) gs)
        (λ c k. m c k + tally_of (in_cpl c k) gs) r
        (Counted-congr _ _ _ _ r (λ k. omega arith) (λ c k. omega arith) h) in
    let (r2, e2, h2) = decrement_all-Counted gs n m r1 h1 in (r2, rw e e2, h2)

pub lookup-add_groups :
    (q p : PeerId) (cpl : ℕ) (gs : List PeerGroupInfo) (f : Filter)
    → q ≢ p
    → lookup q (add_groups p cpl gs f).peer_groups ≡ lookup q f.peer_groups
unfolding add_groups add_group
lookup-add_groups q p cpl [] f ne = refl
lookup-add_groups q p cpl (g ∷ gs) f ne =
    lookup-add_groups q p cpl gs (add_group p cpl g f) ne
    ∙ ground (arith, lookup-put q p (groups_at p f.peer_groups ++ g ∷ []) f.peer_groups)

-- What one peer's groups add to the tally.
pub tally-add_groups :
    (t : PeerGroupInfo → Bool) (p : PeerId) (cpl : ℕ) (gs : List PeerGroupInfo) (f : Filter)
    → tally t (add_groups p cpl gs f).peer_groups + tally_of t (groups_at p f.peer_groups)
      ≡ tally t f.peer_groups + tally_of t (groups_at p (add_groups p cpl gs f).peer_groups)
unfolding add_groups add_group
tally-add_groups t p cpl [] f = refl
tally-add_groups t p cpl (g ∷ gs) f =
    let one = groups_at p f.peer_groups ++ g ∷ [] in
    let same : groups_at p (put p one f.peer_groups) ≡ one =
      ground (arith, groups_at-put p p one f.peer_groups) in
    omega (
      arith,
      tally-add_groups t p cpl gs (add_group p cpl g f),
      tally-put t p one f.peer_groups,
      ap (tally_of t) same,
    )
