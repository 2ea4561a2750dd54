-- ===== src/Table/Totals.antt =====
-- nextBucket ends, and nothing that addPeer and addPeer2 index is out of range.
use kadrtt_test_plan.Base.{
  get_elem?_total, ℕ, zero, suc, ◌+◌, ◌-◌, ◌≤◌, ◌<◌, ◌≡◌, refl, ap, ◌∙◌, ◌≢◌, ◌⊎◌, inl, inr, Bool,
  true, false, Option, none, some, List, [], ◌∷◌, ◌++◌, leb, ◌==◌, if◌then◌else◌, length,
  length-append, get_elem?, All, All-map, All-append, All-select, select, arith, Bool-cases,
  Option-cases,
}
use kadrtt_test_plan.Bucket.{PeerInfo, Bucket, len, new_bucket, split, closer_than}
use kadrtt_test_plan.Table.{Env, Table, update_at}
use kadrtt_test_plan.Table.Estimator.{set_opt_values, set_opt_bucket}
use kadrtt_test_plan.Table.Buckets.{
  first_values, halves, cut, last_values, unfold_last, next_bucket,
}
use kadrtt_test_plan.Table.Invariant.{prefix_of, length-update_at}

-- A property of every entry of the buckets.
abbrev pub Everywhere : (PeerInfo → Type 0) → List Bucket → Type 0
Everywhere P bs = All (λ (b : Bucket). All P b.list) bs

pub Everywhere-at :
    (P : PeerInfo → Type 0) (j : ℕ) (bs : List Bucket) {b : Bucket}
    → get_elem? bs j ≡ some b
    → Everywhere P bs
    → All P b.list
Everywhere-at P j [] g a = cc
Everywhere-at P zero (x ∷ bs) {b} g a = let e : b ≡ x = ground arith in rw e a.0
Everywhere-at P (suc j) (x ∷ bs) g a = Everywhere-at P j bs g a.1

pub update_at-Everywhere :
    (P : PeerInfo → Type 0) (j : ℕ) (f : Bucket → Bucket) (bs : List Bucket)
    → ((b : Bucket) → All P b.list → All P (f b).list)
    → Everywhere P bs
    → Everywhere P (update_at j f bs)
unfolding update_at
update_at-Everywhere P j f [] k a = tt
update_at-Everywhere P zero f (b ∷ bs) k a = (k b a.0, a.1)
update_at-Everywhere P (suc j) f (b ∷ bs) k a = (a.0, update_at-Everywhere P j f bs k a.1)

-- A write of one bucket, where only the new bucket matters.
pub write_at-Everywhere :
    (P : PeerInfo → Type 0) (j : ℕ) (c : Bucket) (bs : List Bucket)
    → All P c.list
    → Everywhere P bs
    → Everywhere P (update_at j (λ _. c) bs)
write_at-Everywhere P j c bs k a = update_at-Everywhere P j (λ _. c) bs (λ _ _. k) a

-- What is not a panic returns.
pub returns : {A : Type 0} (o : Option A) → o ≢ none → (a : A) × (o ≡ some a)
returns o k = elim (Option-cases o) [ inl e ↦ absurd (k e) | inr r ↦ r ]

module _ {F : Type 0} (env : Env F) where
  -- The table has a bucket, its bucket size is not 0 where it is used, and no entry shares more than
  -- `m` bits with the local node.
  pub record IsSized (m : ℕ) (t : Table F) : Type 0 where
    pub nonempty : 0 < length t.buckets
    pub below : Everywhere (λ x. prefix_of env t x ≤ m) t.buckets
    pub room : (t.is_kad_rtt ≡ true) ⊎ (0 < t.bucket_size)

  -- What setting parameters leaves as it was.
  pub record Settled (t t' : Table F) : Type 1 where
    pub count : length t'.buckets ≡ length t.buckets
    pub local : t'.local ≡ t.local
    pub mode : t'.is_kad_rtt ≡ t.is_kad_rtt
    pub bucket_size : t'.bucket_size ≡ t.bucket_size
    pub entries : (P : PeerInfo → Type 0) → Everywhere P t.buckets → Everywhere P t'.buckets

  Settled-refl : (t : Table F) → Settled t t
  Settled-refl t = record {
    count = refl;
    local = refl;
    mode = refl;
    bucket_size = refl;
    entries = λ P a. a;
  }

  pub Settled-IsSized : (m : ℕ) (t t' : Table F) → Settled t t' → IsSized m t → IsSized m t'
  Settled-IsSized m t t' s z = record {
    nonempty = rw s.count z.nonempty;
    below = rw s.local (s.entries (λ x. prefix_of env t x ≤ m) z.below);
    room = rw (s.mode, s.bucket_size) z.room;
  }

  set_opt_bucket-list :
      (t : Table F) (i : ℕ) (b b_pre : Bucket) → (set_opt_bucket env t i b b_pre).list ≡ b.list
  unfolding set_opt_bucket
  set_opt_bucket-list t i b b_pre = refl

  -- setOptValues does not panic on an index in range.
  pub set_opt_values_total :
      (i : ℕ) (t : Table F)
      → i < length t.buckets
      → (t' : Table F) × (set_opt_values env i t ≡ some t') × Settled t t'
  unfolding set_opt_values
  set_opt_values_total i t h =
      let (b, g) = get_elem?_total i t.buckets h in
      let (b_pre, g') = get_elem?_total (i - 1) t.buckets (omega arith) in
      let f = λ (b' : Bucket). set_opt_bucket env t i b' b_pre in
      (
        record t { buckets = update_at i f t.buckets; pool_size = t.bucket_size },
        rw (g, set_opt_values) (rw g' refl),
        record {
          count = length-update_at env i f t.buckets;
          local = refl;
          mode = refl;
          bucket_size = refl;
          entries = λ P a.
              update_at-Everywhere P i f t.buckets (λ b' p. rw (set_opt_bucket-list t i b' b_pre) p)
                a;
        },
      )

  first_values_total :
      (t : Table F)
      → 0 < length t.buckets
      → (t' : Table F) × (first_values env t ≡ some t') × Settled t t'
  unfolding first_values
  first_values_total t h = elim (Bool-cases (length t.buckets - 1 == 0)) [
    | inl e ↦ let (t', f, s) = set_opt_values_total 0 t h in (t', rw (e, first_values) f, s)
    | inr e ↦ (t, rw (e, first_values) refl, Settled-refl t)
  ]

  last_values_total :
      (t : Table F)
      → 0 < length t.buckets
      → (t' : Table F) × (last_values env t ≡ some t') × Settled t t'
  unfolding last_values
  last_values_total t h = elim (Bool-cases t.is_kad_rtt) [
    | inl e ↦
        let (t', f, s) = set_opt_values_total (length t.buckets - 1) t (omega arith) in
        (t', ground arith, s)
    | inr e ↦ (t, ground arith, Settled-refl t)
  ]

  -- Both halves have entries of the bucket that was cut, and the new one those with a longer prefix.
  halves-All :
      (P : PeerInfo → Type 0) (t : Table F) (b : Bucket)
      → All P b.list
      → All P (halves env t b).0.list × All P (halves env t b).1.list
  unfolding halves split closer_than new_bucket
  halves-All P t b a = (All-select P _ b.list a, All-select P _ b.list a)

  none_passes :
      (f : PeerInfo → Bool) (xs : List PeerInfo)
      → All (λ x. f x ≡ false) xs
      → length (select f xs) ≡ 0
  unfolding select
  none_passes f [] a = refl
  none_passes f (x ∷ xs) a = ground (arith, none_passes f xs, a.0, a.1)

  halves_short :
      (m : ℕ) (t : Table F) (b : Bucket)
      → All (λ x. prefix_of env t x ≤ m) b.list
      → m ≤ length t.buckets - 1
      → (len (halves env t b).1 ≡ 0) × ((halves env t b).1.k ≡ 1)
  unfolding halves split closer_than new_bucket
  halves_short m t b a h = (
    none_passes (closer_than env.hashing (length t.buckets - 1) t.local) b.list
        (All-map (λ x. prefix_of env t x ≤ m) _ (λ x p. ground arith) b.list a),
    refl,
  )

  cut-IsSized :
      (m : ℕ) (t : Table F) (b : Bucket)
      → All (λ x. prefix_of env t x ≤ m) b.list
      → IsSized m t
      → IsSized m (cut env t b) × (length (cut env t b).buckets ≡ suc (length t.buckets))
  unfolding cut
  cut-IsSized m t b a z =
      let n = length t.buckets - 1 in
      let old = update_at n (λ _. (halves env t b).0) t.buckets in
      let l : length (old ++ (halves env t b).1 ∷ []) ≡ suc (length t.buckets) = omega (
        arith,
        length-append old ((halves env t b).1 ∷ []),
        length-update_at env n (λ _. (halves env t b).0) t.buckets,
      ) in
      let P = λ (x : PeerInfo). prefix_of env t x ≤ m in
      let (near, far) = halves-All P t b a in
      (
        record {
          nonempty = omega arith;
          below =
              All-append (λ (c : Bucket). All P c.list) old ((halves env t b).1 ∷ [])
                (write_at-Everywhere P n (halves env t b).0 t.buckets near z.below) (far, tt);
          room = z.room;
        },
        l,
      )

  unfold_last_total :
      (m : ℕ) (t : Table F)
      → IsSized m t
      → (r : Table F × Bool) × (unfold_last env t ≡ some r)
        × IsSized m r.0
        × (length r.0.buckets ≡ suc (length t.buckets))
        × ((m ≤ length t.buckets - 1) → r.1 ≡ false)
  unfolding unfold_last
  unfold_last_total m t z =
      let (t0, e0, s0) = first_values_total t z.nonempty in
      let z0 = Settled-IsSized m t t0 s0 z in
      let (b, g) =
        get_elem?_total (length t0.buckets - 1) t0.buckets (omega (arith, z0.nonempty)) in
      let a =
        Everywhere-at (λ x. prefix_of env t0 x ≤ m) (length t0.buckets - 1) t0.buckets g z0.below in
      let (z1, l1) = cut-IsSized m t0 b a z0 in
      let (t2, e2, s2) = last_values_total (cut env t0 b) z1.nonempty in
      let bsize = if t0.is_kad_rtt then (halves env t0 b).1.k else t0.bucket_size in
      (
        (t2, leb bsize (len (halves env t0 b).1)),
        rw (e0, unfold_last) (rw g (rw e2 refl)),
        Settled-IsSized m (cut env t0 b) t2 s2 z1,
        s2.count ∙ l1 ∙ ap suc s0.count,
        λ h. let (short, one) = halves_short m t0 b a (rw s0.count h) in ground (arith, z0.room),
      )

  -- nextBucket ends: on a table with a bucket, whose bucket size is not 0 where it is used and
  -- where no entry shares more than `m` bits with the local node, fuel that is not 0 and allows
  -- `m + 2` buckets is enough, and the table has these properties again.
  pub next_bucket_total :
      (n m : ℕ) (t : Table F)
      → IsSized m t
      → 0 < n
      → m + 2 ≤ n + length t.buckets
      → (t' : Table F) × (next_bucket env n t ≡ some t') × IsSized m t'
  unfolding next_bucket
  next_bucket_total zero m t z p h = absurd (omega arith)
  next_bucket_total (suc n) m t z p h =
      let ((t1, more), e, z1, l, last) = unfold_last_total m t z in
      elim (Bool-cases more) [
        | inr f ↦ (t1, rw (e, next_bucket) (rw f refl), z1)
        | inl f ↦
            let far : length t.buckets ≤ m = ground arith in
            let (t', e', z') = next_bucket_total n m t1 z1 (omega arith) (omega arith) in
            (t', rw (e, next_bucket) (rw f e'), z')
      ]
