-- ===== src/Table/Entries.antt =====
-- The entries of a bucket: each has the hashed ID of its peer, and no ID stands twice.
use kadrtt_test_plan.Base.{
  ℕ, zero, suc, ◌-◌, ◌≤◌, ◌<◌, ◌≡◌, ap, ◌∙◌, ◌≢◌, ◌⊎◌, inl, inr, Bool, none, some, List, [], ◌∷◌,
  map, leb, ◌==◌, if◌then◌else◌, length, get_elem?, select, All, All-map, All-image, All-select,
  All-both, Differ, arith, Bool-cases,
}
use kadrtt_test_plan.Keyspace.{PeerId, common_prefix_len}
use kadrtt_test_plan.Bucket.{PeerInfo, Bucket, remove_in, get_peer, peer_in, push_front}
use kadrtt_test_plan.Table.{
  Env, Table, update_ref, dht_id_of, cpl_of, bucket_index, bucket_id_for_peer,
}
use kadrtt_test_plan.Table.Placement.{Placed}
use kadrtt_test_plan.Table.Invariant.{prefix_of, IsPlaced, remove_in-All}
use kadrtt_test_plan.Table.Thinning.{IsThinning, InEach}

abbrev pub ids : List PeerInfo → List PeerId
ids = map (λ (x : PeerInfo). x.id)

All-of_ids : (P : PeerId → Type 0) (xs : List PeerInfo) → All P (ids xs) → All (λ x. P x.id) xs
All-of_ids P [] a = tt
All-of_ids P (x ∷ xs) a = (a.0, All-of_ids P xs a.1)

select-Differ :
    (f : PeerInfo → Bool) (xs : List PeerInfo) → Differ (ids xs) → Differ (ids (select f xs))
unfolding select
select-Differ f [] d = tt
select-Differ f (x ∷ xs) d = elim (Bool-cases (f x)) [
  | inl e ↦ rw e (
    All-image (λ q. q ≢ x.id) (λ y. y.id) (select f xs)
        (All-select _ f xs (All-of_ids (λ q. q ≢ x.id) xs d.0)),
    select-Differ f xs d.1,
  )
  | inr e ↦ rw e (select-Differ f xs d.1)
]

-- The peer is in no entry.
abbrev pub Lacks : PeerId → List PeerInfo → Type 0
Lacks p = All (λ (x : PeerInfo). x.id ≢ p)

peer_in-Lacks : (p : PeerId) (xs : List PeerInfo) → peer_in p xs ≡ none → Lacks p xs
unfolding peer_in
peer_in-Lacks p [] e = tt
peer_in-Lacks p (x ∷ xs) e = elim (Bool-cases (x.id == p)) [
  | inl f ↦ absurd (ground arith)
  | inr f ↦ (ground arith, peer_in-Lacks p xs (ground arith))
]

pub get_peer-Lacks : (p : PeerId) (b : Bucket) → get_peer p b ≡ none → Lacks p b.list
unfolding get_peer
get_peer-Lacks p b e = peer_in-Lacks p b.list e

module _ {F : Type 0} (env : Env F) where
  remove_in-Differ :
      (p : PeerId) (xs : List PeerInfo) → Differ (ids xs) → Differ (ids (remove_in p xs).0)
  unfolding remove_in
  remove_in-Differ p [] d = tt
  remove_in-Differ p (x ∷ xs) d = elim (Bool-cases (x.id == p)) [
    | inl e ↦ rw e d.1
    | inr e ↦ rw e (
      All-image (λ q. q ≢ x.id) (λ y. y.id) (remove_in p xs).0
          (remove_in-All env _ p xs (All-of_ids (λ q. q ≢ x.id) xs d.0)),
      remove_in-Differ p xs d.1,
    )
  ]

  abbrev pub IsHashed : PeerInfo → Type 0
  IsHashed x = x.dht_id ≡ dht_id_of env x.id

  abbrev pub AreEntries : List PeerInfo → Type 0
  AreEntries xs = All IsHashed xs × Differ (ids xs)

  -- Where a peer may be added.
  abbrev pub AreOthers : PeerId → List PeerInfo → Type 0
  AreOthers p xs = AreEntries xs × Lacks p xs

  pub AreEntries-IsThinning : IsThinning AreEntries
  AreEntries-IsThinning = record {
    empty = (tt, tt);
    removed = λ p xs a. (remove_in-All env IsHashed p xs a.0, remove_in-Differ p xs a.1);
    selected = λ f xs a. (All-select IsHashed f xs a.0, select-Differ f xs a.1);
  }

  pub AreOthers-IsThinning : (p : PeerId) → IsThinning (AreOthers p)
  AreOthers-IsThinning p = record {
    empty = ((tt, tt), tt);
    removed = λ q xs a. (AreEntries-IsThinning.removed q xs a.0, remove_in-All env _ q xs a.1);
    selected = λ f xs a. (AreEntries-IsThinning.selected f xs a.0, All-select _ f xs a.1);
  }

  -- The new entry goes to a bucket that lacks its peer.
  pub update_ref-AreEntries :
      (r : ℕ) (x : PeerInfo) (bs : List Bucket)
      → IsHashed x
      → InEach (AreOthers x.id) bs
      → InEach AreEntries (update_ref r (push_front x) bs)
  unfolding update_ref push_front
  update_ref-AreEntries r x [] h a = tt
  update_ref-AreEntries r x (b ∷ bs) h a = elim (Bool-cases (b.ref == r)) [
    | inl e ↦ rw e (
      ((h, a.0.0.0), (All-image (λ q. q ≢ x.id) (λ y. y.id) b.list a.0.1, a.0.0.1)),
      update_ref-AreEntries r x bs h a.1,
    )
    | inr e ↦ rw e (a.0.0, update_ref-AreEntries r x bs h a.1)
  ]

  -- The entries of the peer `p` have `n` bits in common with the local node.
  abbrev Known : (PeerInfo → ℕ) → PeerId → ℕ → PeerInfo → Type 0
  Known c p n x = (x.id ≢ p) ⊎ (c x ≡ n)

  longer-Lacks :
      (c : PeerInfo → ℕ) (p : PeerId) (n i : ℕ) (bs : List Bucket)
      → n < i
      → Placed c i bs
      → InEach (All (Known c p n)) bs
      → InEach (Lacks p) bs
  longer-Lacks c p n i [] h w k = tt
  longer-Lacks c p n i (b ∷ []) h w k =
      (All-map _ _ (λ x a. ground (arith, a.0, a.1)) b.list (All-both _ _ b.list w k.0), tt)
  longer-Lacks c p n i (b ∷ b' ∷ bs) h w k = (
    All-map _ _ (λ x a. ground (arith, a.0, a.1)) b.list (All-both _ _ b.list w.0 k.0),
    longer-Lacks c p n (suc i) (b' ∷ bs) (omega arith) w.1 k.1,
  )

  -- A peer that its own bucket lacks is in none.
  Placed-Lacks :
      (c : PeerInfo → ℕ) (p : PeerId) (n i j : ℕ) (bs : List Bucket) {b : Bucket}
      → get_elem? bs j ≡ some b
      → Lacks p b.list
      → i ≤ n
      → j ≡ (if leb (length bs) (n - i) then length bs - 1 else n - i)
      → Placed c i bs
      → InEach (All (Known c p n)) bs
      → InEach (Lacks p) bs
  Placed-Lacks c p n i j [] g l h e w k = tt
  Placed-Lacks c p n i zero (b ∷ []) {b = b'} g l h e w k =
      let same : b' ≡ b = ground arith in (rw (← same) l, tt)
  Placed-Lacks c p n i (suc j) (b ∷ []) g l h e w k = cc
  Placed-Lacks c p n i zero (b ∷ b' ∷ bs) {b = b''} g l h e w k =
      let same : b'' ≡ b = ground arith in
      (rw (← same) l, longer-Lacks c p n (suc i) (b' ∷ bs) (ground arith) w.1 k.1)
  Placed-Lacks c p n i (suc j) (b ∷ b' ∷ bs) g l h e w k = (
    All-map _ _ (λ x a. ground (arith, a.0, a.1, e)) b.list (All-both _ _ b.list w.0 k.0),
    Placed-Lacks c p n (suc i) j (b' ∷ bs) g l (ground arith) (ground arith) w.1 k.1,
  )

  InEach-map :
      (G H : List PeerInfo → Type 0) (bs : List Bucket)
      → ((xs : List PeerInfo) → G xs → H xs)
      → InEach G bs
      → InEach H bs
  InEach-map G H bs k =
      All-map (λ (b : Bucket). G b.list) (λ (b : Bucket). H b.list) (λ b. k b.list) bs

  hashed-Known :
      (t : Table F) (p : PeerId) (x : PeerInfo)
      → IsHashed x
      → Known (prefix_of env t) p (cpl_of env t p) x
  unfolding cpl_of
  hashed-Known t p x h = elim (Bool-cases (x.id == p)) [
    | inl e ↦
        let same : x.id ≡ p = ground arith in
        inr (ap (λ d. common_prefix_len env.hashing d t.local) (h ∙ ap (dht_id_of env) same))
    | inr e ↦ inl (ground arith)
  ]

  -- In a placed table a peer that is not found in its bucket may be added.
  pub absent-AreOthers :
      (t : Table F) (p : PeerId) {b : Bucket}
      → IsPlaced env t
      → InEach AreEntries t.buckets
      → get_elem? t.buckets (bucket_id_for_peer env t p) ≡ some b
      → get_peer p b ≡ none
      → InEach (AreOthers p) t.buckets
  unfolding bucket_id_for_peer bucket_index
  absent-AreOthers t p {b} v a g e =
      let known =
        InEach-map AreEntries (All (Known (prefix_of env t) p (cpl_of env t p))) t.buckets
          (λ xs h. All-map IsHashed _ (λ x. hashed-Known t p x) xs h.0) a in
      All-both _ _ t.buckets a (
        Placed-Lacks (prefix_of env t) p (cpl_of env t p) 0 (bucket_id_for_peer env t p) t.buckets g
          (get_peer-Lacks p b e) (omega arith) (ground arith) v.placed known)

  pub others-AreEntries :
      (p : PeerId) (bs : List Bucket) → InEach (AreOthers p) bs → InEach AreEntries bs
  others-AreEntries p bs = InEach-map (AreOthers p) AreEntries bs (λ xs h. h.0)
