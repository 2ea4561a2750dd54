-- ===== src/Table/Invariant.antt =====
-- The invariant of the routing table, and removePeer and nextBucket.
use kadrtt_test_plan.Base.{
  ℕ, zero, suc, ◌-◌, ◌<◌, ◌≡◌, refl, sym, ap, ◌∙◌, ◌⊎◌, inl, inr, Bool, true, false, some, List, [],
  ◌∷◌, ◌==◌, length, get_elem?, All, Differ, arith, Bool-cases, Option-cases,
}
use kadrtt_test_plan.Keyspace.{PeerId, common_prefix_len}
use kadrtt_test_plan.Bucket.{PeerInfo, Bucket, remove, remove_in}
use kadrtt_test_plan.Table.{Env, Table, peer_removed, update_at, bucket_id_for_peer}
use kadrtt_test_plan.Table.Estimator.{set_opt_values, set_opt_bucket}
use kadrtt_test_plan.Table.Buckets.{filter_remove, remove_peer, trim}
use kadrtt_test_plan.Table.Placement.{
  Placed, Fits, refs, trim-Placed, trim-Fits, trim-All, trim-Differ, trim_nonempty,
  update_at-Placed, update_at-refs,
}

module _ {F : Type 0} (env : Env F) where
  -- The bits that an entry shares with the local node.
  abbrev pub prefix_of : Table F → PeerInfo → ℕ
  prefix_of t x = common_prefix_len env.hashing x.dht_id t.local

  -- There is a bucket; each entry is in the bucket of its prefix; no two buckets are one object, and
  -- the next object is new.
  pub record IsPlaced (t : Table F) : Type 0 where
    pub nonempty : 0 < length t.buckets
    pub placed : Placed (prefix_of t) 0 t.buckets
    pub apart : Differ (refs t.buckets)
    pub fresh : All (λ r. r < t.next_ref) (refs t.buckets)

  pub length-update_at :
      (j : ℕ) (f : Bucket → Bucket) (bs : List Bucket) → length (update_at j f bs) ≡ length bs
  unfolding update_at
  length-update_at j f [] = refl
  length-update_at zero f (b ∷ bs) = refl
  length-update_at (suc j) f (b ∷ bs) = ap suc (length-update_at j f bs)

  -- Any write of one bucket that adds no entry and keeps its identity.
  pub update_at-IsPlaced :
      (j : ℕ) (f : Bucket → Bucket) (t : Table F)
      → ((b : Bucket) → (f b).ref ≡ b.ref)
      → ((P : ℕ → Type 0) (b : Bucket)
          → All (λ x. P (prefix_of t x)) b.list
          → All (λ x. P (prefix_of t x)) (f b).list)
      → IsPlaced t
      → IsPlaced (record t { buckets = update_at j f t.buckets })
  update_at-IsPlaced j f t k h v = record {
    nonempty = rw (length-update_at j f t.buckets) v.nonempty;
    placed = update_at-Placed (prefix_of t) j f 0 t.buckets h v.placed;
    apart = rw (update_at-refs j f t.buckets k) v.apart;
    fresh = rw (update_at-refs j f t.buckets k) v.fresh;
  }

  pub remove_in-All :
      (P : PeerInfo → Type 0) (p : PeerId) (xs : List PeerInfo)
      → All P xs
      → All P (remove_in p xs).0
  unfolding remove_in
  remove_in-All P p [] a = tt
  remove_in-All P p (x ∷ xs) a = elim (Bool-cases (x.id == p)) [
    | inl e ↦ rw e a.1
    | inr e ↦ rw e (a.0, remove_in-All P p xs a.1)
  ]

  pub remove-ref : (p : PeerId) (b : Bucket) → (remove p b).0.ref ≡ b.ref
  unfolding remove
  remove-ref p b = refl

  pub remove-All :
      (P : PeerInfo → Type 0) (p : PeerId) (b : Bucket) → All P b.list → All P (remove p b).0.list
  unfolding remove
  remove-All P p b a = remove_in-All P p b.list a

  pub filter_remove-buckets :
      (p : PeerId) (t : Table F)
      → ((filter_remove env p t).buckets ≡ t.buckets)
        × ((filter_remove env p t).local ≡ t.local)
        × ((filter_remove env p t).next_ref ≡ t.next_ref)
  unfolding filter_remove
  filter_remove-buckets p t = ground arith

  trimmed : (t : Table F) (n : ℕ) → IsPlaced t → IsPlaced (record t { buckets = trim n t.buckets })
  trimmed t n v = record {
    nonempty = trim_nonempty n t.buckets v.nonempty;
    placed = trim-Placed (prefix_of t) n t.buckets v.placed;
    apart = trim-Differ n t.buckets v.apart;
    fresh = trim-All _ n t.buckets v.fresh;
  }

  -- What the invariant reads of a table.
  pub same-IsPlaced :
      (t t' : Table F)
      → t'.buckets ≡ t.buckets
      → t'.local ≡ t.local
      → t'.next_ref ≡ t.next_ref
      → IsPlaced t
      → IsPlaced t'
  same-IsPlaced t t' b l n v = record {
    nonempty = rw b v.nonempty;
    placed = rw (b, l) v.placed;
    apart = rw b v.apart;
    fresh = rw (b, n) v.fresh;
  }

  -- The buckets after a removal from bucket `i`.
  abbrev removed_from : PeerId → ℕ → Table F → List Bucket
  removed_from p i t =
      trim (length (update_at i (λ b. (remove p b).0) t.buckets))
        (update_at i (λ b. (remove p b).0) t.buckets)

  abbrev after_removal : PeerId → ℕ → Table F → Table F
  after_removal p i t = record (filter_remove env p t) {
    buckets = removed_from p i t;
    notices = peer_removed p ∷ t.notices;
  }

  remove_peer_cases :
      (p : PeerId) (t : Table F) {r : Table F × Bool}
      → remove_peer env p t ≡ some r
      → (r ≡ (t, false)) ⊎ (r ≡ (after_removal p (bucket_id_for_peer env t p) t, true))
  unfolding remove_peer
  remove_peer_cases p t {r} e =
      elim (Option-cases (get_elem? t.buckets (bucket_id_for_peer env t p))) [
        | inl g ↦ absurd (ground arith)
        | inr (b, g) ↦ elim (Bool-cases (remove p b).1) [
          | inl h ↦ inr (ground arith)
          | inr h ↦ inl (ground arith)
        ]
      ]

  after_removal-IsPlaced :
      (p : PeerId) (i : ℕ) (t : Table F) → IsPlaced t → IsPlaced (after_removal p i t)
  after_removal-IsPlaced p i t v =
      let f = λ (b : Bucket). (remove p b).0 in
      let t1 : Table F = record t { buckets = update_at i f t.buckets } in
      let v1 =
        update_at-IsPlaced i f t (remove-ref p) (λ P b. remove-All (λ x. P (prefix_of t x)) p b)
          v in
      let (b, l, n) = filter_remove-buckets p t in
      same-IsPlaced (record t1 { buckets = removed_from p i t }) (after_removal p i t) refl l n
        (trimmed t1 (length t1.buckets) v1)

  -- removePeer keeps the table placed, also through the loop that drops empty buckets.
  pub remove_peer-IsPlaced :
      (p : PeerId) (t : Table F) {r : Table F × Bool}
      → IsPlaced t
      → remove_peer env p t ≡ some r
      → IsPlaced r.0
  remove_peer-IsPlaced p t {r} v e = elim (remove_peer_cases p t e) [
    | inl q ↦ rw q v
    | inr q ↦ rw q (after_removal-IsPlaced p (bucket_id_for_peer env t p) t v)
  ]

  update_at-Fits :
      (r n j i : ℕ) (f : Bucket → Bucket) (bs : List Bucket)
      → ((b : Bucket) → (f b).ref ≡ b.ref)
      → Fits r n i bs
      → Fits r n i (update_at j f bs)
  unfolding update_at
  update_at-Fits r n j i f [] k p = tt
  update_at-Fits r n zero i f (b ∷ []) k p = λ h. p (sym (k b) ∙ h)
  update_at-Fits r n (suc j) i f (b ∷ []) k p = p
  update_at-Fits r n zero i f (b ∷ b' ∷ bs) k p = (λ h. p.0 (sym (k b) ∙ h), p.1)
  update_at-Fits r n (suc zero) i f (b ∷ b' ∷ bs) k p =
      (p.0, update_at-Fits r n zero (suc i) f (b' ∷ bs) k p.1)
  update_at-Fits r n (suc (suc j)) i f (b ∷ b' ∷ bs) k p =
      (p.0, update_at-Fits r n (suc j) (suc i) f (b' ∷ bs) k p.1)

  -- A bucket that fits a prefix still does where a removal has moved it.
  pub remove_peer-Fits :
      (r n : ℕ) (p : PeerId) (t : Table F) {a : Table F × Bool}
      → remove_peer env p t ≡ some a
      → Fits r n 0 t.buckets
      → Fits r n 0 a.0.buckets
  remove_peer-Fits r n p t {a} e h = elim (remove_peer_cases p t e) [
    | inl q ↦ rw q h
    | inr q ↦
        let i = bucket_id_for_peer env t p in
        rw q (
          trim-Fits r n _ (update_at i (λ b. (remove p b).0) t.buckets)
            (update_at-Fits r n i 0 (λ b. (remove p b).0) t.buckets (remove-ref p) h))
  ]

  pub remove_peer-local :
      (p : PeerId) (t : Table F) {a : Table F × Bool}
      → remove_peer env p t ≡ some a
      → a.0.local ≡ t.local
  remove_peer-local p t {a} e = elim (remove_peer_cases p t e) [
    | inl q ↦ rw q
    | inr q ↦ rw q (filter_remove-buckets p t).1
  ]

  set_opt_bucket-entries :
      (t : Table F) (idx : ℕ) (b b_pre : Bucket)
      → ((set_opt_bucket env t idx b b_pre).list ≡ b.list)
        × ((set_opt_bucket env t idx b b_pre).ref ≡ b.ref)
  unfolding set_opt_bucket
  set_opt_bucket-entries t idx b b_pre = (refl, refl)

  -- setOptValues changes no entry.
  pub set_opt_values-IsPlaced :
      (idx : ℕ) (t : Table F) {t' : Table F}
      → IsPlaced t
      → set_opt_values env idx t ≡ some t'
      → IsPlaced t'
        × (length t'.buckets ≡ length t.buckets)
        × (t'.local ≡ t.local)
        × (t'.next_ref ≡ t.next_ref)
  unfolding set_opt_values
  set_opt_values-IsPlaced idx t {t'} v e = elim (Option-cases (get_elem? t.buckets idx)) [
    | inl g ↦ absurd (ground arith)
    | inr (b, g) ↦ elim (Option-cases (get_elem? t.buckets (idx - 1))) [
      | inl g' ↦ absurd (ground arith)
      | inr (b_pre, g') ↦
          let f = λ (b' : Bucket). set_opt_bucket env t idx b' b_pre in
          let q : t' ≡ record t { buckets = update_at idx f t.buckets; pool_size = t.bucket_size } =
            ground arith in
          let w =
            update_at-IsPlaced idx f t (λ b'. (set_opt_bucket-entries t idx b' b_pre).1)
              (λ P b' a. rw (set_opt_bucket-entries t idx b' b_pre).0 a) v in
          rw q (
            same-IsPlaced (record t { buckets = update_at idx f t.buckets }) _ refl refl refl w,
            length-update_at idx f t.buckets,
            refl,
            refl,
          )
    ]
  ]
