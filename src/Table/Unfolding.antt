-- ===== src/Table/Unfolding.antt =====
-- nextBucket: the last bucket is cut in two until the new one is small enough.
use kadrtt_test_plan.Base.{
  ℕ, zero, suc, ◌+◌, ◌-◌, ◌≤◌, ◌<◌, ◌≡◌, refl, ap, ◌∙◌, ◌≢◌, inl, inr, Bool, true, false, some,
  List, [], ◌∷◌, ◌++◌, ◌==◌, if◌then◌else◌, length, length-append, get_elem?, All, All-map,
  All-append, All-both, All-select, select, select-passes, Differ, arith, Bool-cases, Option-cases,
  >>=-eq-some,
}
use mathlib.Core.List.{map-append}
use kadrtt_test_plan.Bucket.{PeerInfo, Bucket, new_bucket, split, closer_than}
use kadrtt_test_plan.Table.{Env, Table, update_at}
use kadrtt_test_plan.Table.Buckets.{
  first_values, halves, cut, last_values, unfold_last, next_bucket,
}
use kadrtt_test_plan.Table.Placement.{refs, last-Placed, cut-Placed}
use kadrtt_test_plan.Table.Invariant.{
  IsPlaced, prefix_of, set_opt_values-IsPlaced, length-update_at,
}

module _ {F : Type 0} (env : Env F) where
  halves_far :
      (t : Table F) (b : Bucket)
      → All (λ x. length t.buckets - 1 ≤ prefix_of env t x) b.list
      → All (λ x. suc (length t.buckets - 1) ≤ prefix_of env t x) (halves env t b).1.list
  unfolding halves split closer_than new_bucket
  halves_far t b a =
      let f = closer_than env.hashing (length t.buckets - 1) t.local in
      All-map (λ x. f x ≡ true) _ (λ x h. ground arith) (select f b.list) (select-passes f b.list)

  halves_near :
      (t : Table F) (b : Bucket)
      → All (λ x. length t.buckets - 1 ≤ prefix_of env t x) b.list
      → All (λ x. prefix_of env t x ≡ length t.buckets - 1) (halves env t b).0.list
  unfolding halves split closer_than new_bucket
  halves_near t b a =
      let f = λ (x : PeerInfo).
        if closer_than env.hashing (length t.buckets - 1) t.local x then false else true in
      All-map (λ x. (length t.buckets - 1 ≤ prefix_of env t x) × (f x ≡ true)) _
        (λ x h. ground (arith, h.0, h.1)) (select f b.list)
        (All-both _ _ (select f b.list) (All-select _ f b.list a) (select-passes f b.list))

  halves-ref :
      (t : Table F) (b : Bucket)
      → ((halves env t b).0.ref ≡ b.ref) × ((halves env t b).1.ref ≡ t.next_ref)
  unfolding halves split new_bucket
  halves-ref t b = (refl, refl)

  pub update_at_same-refs :
      (j : ℕ) (c : Bucket) (bs : List Bucket) {b : Bucket}
      → get_elem? bs j ≡ some b
      → c.ref ≡ b.ref
      → refs (update_at j (λ _. c) bs) ≡ refs bs
  unfolding update_at
  update_at_same-refs j c [] g e = refl
  update_at_same-refs zero c (b ∷ bs) g e = ground arith
  update_at_same-refs (suc j) c (b ∷ bs) g e = ap (◌∷◌ b.ref) (update_at_same-refs j c bs g e)

  Differ-append_new :
      (r : ℕ) (xs : List ℕ) → All (λ x. x < r) xs → Differ xs → Differ (xs ++ r ∷ [])
  Differ-append_new r [] a d = (tt, tt)
  Differ-append_new r (x ∷ xs) a d =
      (All-append (λ y. y ≢ x) xs (r ∷ []) d.0 (omega arith, tt), Differ-append_new r xs a.1 d.1)

  cut-IsPlaced :
      (t : Table F) {b : Bucket}
      → IsPlaced env t
      → get_elem? t.buckets (length t.buckets - 1) ≡ some b
      → IsPlaced env (cut env t b)
  unfolding cut
  cut-IsPlaced t {b} v g =
      let n = length t.buckets - 1 in
      let old = update_at n (λ _. (halves env t b).0) t.buckets in
      let same : refs old ≡ refs t.buckets =
        update_at_same-refs n (halves env t b).0 t.buckets g (halves-ref t b).0 in
      let far =
        last-Placed (prefix_of env t) n 0 t.buckets g (omega (arith, v.nonempty)) v.placed in
      let far' =
        All-map (λ x. 0 + n ≤ prefix_of env t x) (λ x. n ≤ prefix_of env t x) (λ x h. omega arith)
          b.list far in
      let joined : refs (cut env t b).buckets ≡ refs t.buckets ++ t.next_ref ∷ [] =
        map-append (λ (x : Bucket). x.ref) old ((halves env t b).1 ∷ [])
        ∙ ap (λ l. l ++ (halves env t b).1.ref ∷ []) same
        ∙ ap (λ r. refs t.buckets ++ r ∷ []) (halves-ref t b).1 in
      record {
        nonempty = omega (arith, length-append old ((halves env t b).1 ∷ []));
        placed =
            cut-Placed (prefix_of env t) (halves env t b).0 (halves env t b).1 n n 0 t.buckets
              (halves_near t b far') (halves_far t b far') (omega (arith, v.nonempty)) (omega arith)
              v.placed;
        apart = rw joined (Differ-append_new t.next_ref (refs t.buckets) v.fresh v.apart);
        fresh = rw joined (
            All-append _ (refs t.buckets) (t.next_ref ∷ [])
              (All-map _ _ (λ r h. omega arith) (refs t.buckets) v.fresh) (omega arith, tt));
      }

  -- What a step that only sets parameters leaves as it was.
  abbrev Sets : Table F → Table F → Type 0
  Sets t t' =
      IsPlaced env t'
      × (length t'.buckets ≡ length t.buckets)
      × (t'.local ≡ t.local)
      × (t'.next_ref ≡ t.next_ref)

  first_values-Sets :
      (t : Table F) {t' : Table F} → IsPlaced env t → first_values env t ≡ some t' → Sets t t'
  unfolding first_values
  first_values-Sets t {t'} v e = elim (Bool-cases (length t.buckets - 1 == 0)) [
    | inl h ↦ set_opt_values-IsPlaced env 0 t v (ground arith)
    | inr h ↦ let q : t' ≡ t = ground arith in rw q (v, refl, refl, refl)
  ]

  last_values-Sets :
      (t : Table F) {t' : Table F} → IsPlaced env t → last_values env t ≡ some t' → Sets t t'
  unfolding last_values
  last_values-Sets t {t'} v e = elim (Bool-cases t.is_kad_rtt) [
    | inl h ↦ set_opt_values-IsPlaced env (length t.buckets - 1) t v (ground arith)
    | inr h ↦ let q : t' ≡ t = ground arith in rw q (v, refl, refl, refl)
  ]

  length-cut : (t : Table F) (b : Bucket) → length (cut env t b).buckets ≡ suc (length t.buckets)
  unfolding cut
  length-cut t b = omega (
    arith,
    length-append (update_at (length t.buckets - 1) (λ _. (halves env t b).0) t.buckets)
        ((halves env t b).1 ∷ []),
    length-update_at env (length t.buckets - 1) (λ _. (halves env t b).0) t.buckets,
  )

  cut-local : (t : Table F) (b : Bucket) → (cut env t b).local ≡ t.local
  unfolding cut
  cut-local t b = refl

  -- One unfolding keeps the table placed, with one bucket more.
  pub unfold_last-IsPlaced :
      (t : Table F) {r : Table F × Bool}
      → IsPlaced env t
      → unfold_last env t ≡ some r
      → IsPlaced env r.0 × (length r.0.buckets ≡ suc (length t.buckets)) × (r.0.local ≡ t.local)
  unfolding unfold_last
  unfold_last-IsPlaced t {r} v e =
      let (t0, e0, r0) = >>=-eq-some (first_values env t) _ e in
      let (v0, l0, s0, n0) = first_values-Sets t v e0 in
      let (b, g, r1) = >>=-eq-some (get_elem? t0.buckets (length t0.buckets - 1)) _ r0 in
      let (t2, e2, r2) = >>=-eq-some (last_values env (cut env t0 b)) _ r1 in
      let (v2, l2, s2, n2) = last_values-Sets (cut env t0 b) (cut-IsPlaced t0 v0 g) e2 in
      let q : t2 ≡ r.0 = ground arith in
      rw (← q) (v2, omega (arith, length-cut t0 b), s2 ∙ cut-local t0 b ∙ s0)

  -- nextBucket keeps the table placed, however often it calls itself.
  pub next_bucket-IsPlaced :
      (n : ℕ) (t : Table F) {t' : Table F}
      → IsPlaced env t
      → next_bucket env n t ≡ some t'
      → IsPlaced env t' × (length t.buckets < length t'.buckets) × (t'.local ≡ t.local)
  unfolding next_bucket
  next_bucket-IsPlaced zero t v e = cc
  next_bucket-IsPlaced (suc n) t {t'} v e = elim (Option-cases (unfold_last env t)) [
    | inl h ↦ absurd (ground arith)
    | inr ((t1, more), h) ↦
        let (v1, l1, s1) = unfold_last-IsPlaced t v h in
        elim (Bool-cases more) [
          | inl m ↦
              let (v2, l2, s2) = next_bucket-IsPlaced n t1 {t' = t'} v1 (ground arith) in
              (v2, omega arith, s2 ∙ s1)
          | inr m ↦ let q : t' ≡ t1 = ground arith in rw q (v1, omega arith, s1)
        ]
  ]
