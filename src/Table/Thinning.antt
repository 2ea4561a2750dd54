-- ===== src/Table/Thinning.antt =====
-- What removePeer, nextBucket and the periodic update keep: a property of the entries of each bucket
-- that does not mind entries leaving.
use kadrtt_test_plan.Base.{
  ℕ, zero, suc, ◌+◌, ◌-◌, ◌≡◌, refl, ◌∙◌, inl, inr, Bool, false, some, List, [], ◌∷◌, leb, ltb,
  ◌==◌, if◌then◌else◌, length, get_elem?, take, sort_by, select, All, All-append, arith, Bool-cases,
  Option-cases, >>=-eq-some,
}
use kadrtt_test_plan.Keyspace.{PeerId}
use kadrtt_test_plan.Bucket.{
  PeerInfo, Bucket, VarianceInfo, len, remove, remove_in, split, by_variance_less, new_bucket,
}
use kadrtt_test_plan.Table.{Env, Table, update_at, bucket_id_for_peer}
use kadrtt_test_plan.Table.Estimator.{set_opt_values, set_opt_bucket}
use kadrtt_test_plan.Table.Variance.{sort_by_peer}
use kadrtt_test_plan.Table.Buckets.{
  filter_remove, remove_peer, trim, first_values, halves, cut, last_values, unfold_last,
  next_bucket,
}
use kadrtt_test_plan.Table.KadRtt.{variances, drop_peers, shrink, due_refresh, refresh}
use kadrtt_test_plan.Table.Placement.{Trims, drop_last, drop_before, keep, trim_keeps}

-- A property of lists of entries that holds of fewer entries too.
pub record IsThinning (G : List PeerInfo → Type 0) : Type 0 where
  pub empty : G []
  pub removed : (p : PeerId) (xs : List PeerInfo) → G xs → G (remove_in p xs).0
  pub selected : (f : PeerInfo → Bool) (xs : List PeerInfo) → G xs → G (select f xs)

abbrev pub InEach : (List PeerInfo → Type 0) → List Bucket → Type 0
InEach G bs = All (λ (b : Bucket). G b.list) bs

module _ (G : List PeerInfo → Type 0) where
  pub InEach-at :
      (j : ℕ) (bs : List Bucket) {b : Bucket} → get_elem? bs j ≡ some b → InEach G bs → G b.list
  InEach-at j [] g a = cc
  InEach-at zero (x ∷ bs) {b} g a = let e : b ≡ x = ground arith in rw e a.0
  InEach-at (suc j) (x ∷ bs) g a = InEach-at j bs g a.1

  pub update_at-InEach :
      (j : ℕ) (f : Bucket → Bucket) (bs : List Bucket)
      → ((b : Bucket) → G b.list → G (f b).list)
      → InEach G bs
      → InEach G (update_at j f bs)
  unfolding update_at
  update_at-InEach j f [] k a = tt
  update_at-InEach zero f (b ∷ bs) k a = (k b a.0, a.1)
  update_at-InEach (suc j) f (b ∷ bs) k a = (a.0, update_at-InEach j f bs k a.1)

  Trims-InEach : {bs l : List Bucket} → Trims bs l → InEach G bs → InEach G l
  Trims-InEach (drop_last e) a = (a.0, tt)
  Trims-InEach (drop_before e) a = a.1
  Trims-InEach (keep t) a = (a.0, Trims-InEach t a.1)

  trim-InEach : (n : ℕ) (bs : List Bucket) → InEach G bs → InEach G (trim n bs)
  trim-InEach = trim_keeps (InEach G) (λ bs l t. Trims-InEach t)

module _ {F : Type 0} (env : Env F) (G : List PeerInfo → Type 0) where
  -- The node, the mode and the bucket size stay, and the property of each bucket.
  pub record Kept (t t' : Table F) : Type 0 where
    pub local : t'.local ≡ t.local
    pub mode : t'.is_kad_rtt ≡ t.is_kad_rtt
    pub bucket_size : t'.bucket_size ≡ t.bucket_size
    pub entries : InEach G t.buckets → InEach G t'.buckets

  pub Kept-refl : (t : Table F) → Kept t t
  Kept-refl t = record { local = refl; mode = refl; bucket_size = refl; entries = λ a. a }

  pub Kept-trans : (t u v : Table F) → Kept t u → Kept u v → Kept t v
  Kept-trans t u v k l = record {
    local = l.local ∙ k.local;
    mode = l.mode ∙ k.mode;
    bucket_size = l.bucket_size ∙ k.bucket_size;
    entries = λ a. l.entries (k.entries a);
  }

  -- What does not change the buckets.
  pub same-Kept :
      (t t' : Table F)
      → t'.buckets ≡ t.buckets
      → t'.local ≡ t.local
      → t'.is_kad_rtt ≡ t.is_kad_rtt
      → t'.bucket_size ≡ t.bucket_size
      → Kept t t'
  same-Kept t t' b l m s = record { local = l; mode = m; bucket_size = s; entries = λ a. rw b a }

  pub filter_remove-Kept : (p : PeerId) (t : Table F) → Kept t (filter_remove env p t)
  unfolding filter_remove
  filter_remove-Kept p t = let (b, l, m, s) = kept in same-Kept t (filter_remove env p t) b l m s
    where
      kept :
          ((filter_remove env p t).buckets ≡ t.buckets)
          × ((filter_remove env p t).local ≡ t.local)
          × ((filter_remove env p t).is_kad_rtt ≡ t.is_kad_rtt)
          × ((filter_remove env p t).bucket_size ≡ t.bucket_size)
      kept = ground arith

module _ {F : Type 0} (env : Env F) (G : List PeerInfo → Type 0) (th : IsThinning G) where
  remove-InEach :
      (p : PeerId) (i : ℕ) (bs : List Bucket)
      → InEach G bs
      → InEach G (update_at i (λ b. (remove p b).0) bs)
  unfolding remove
  remove-InEach p i bs a =
      update_at-InEach G i (λ b. (remove p b).0) bs (λ b h. th.removed p b.list h) a

  pub remove_peer-Kept :
      (p : PeerId) (t : Table F) {r : Table F × Bool}
      → remove_peer env p t ≡ some r
      → Kept env G t r.0
  unfolding remove_peer
  remove_peer-Kept p t {r} e =
      let i = bucket_id_for_peer env t p in
      let (b, g, e1) = >>=-eq-some (get_elem? t.buckets i) _ e in
      elim (Bool-cases (remove p b).1) [
        | inr f ↦ let same : r ≡ (t, false) = ground arith in rw same (Kept-refl env G t)
        | inl f ↦
            let bs = update_at i (λ b'. (remove p b').0) t.buckets in
            let k = filter_remove-Kept env G p t in
            let l : r.0.buckets ≡ trim (length bs) bs = ground arith in
            let l1 : r.0.local ≡ (filter_remove env p t).local = ground arith in
            let l2 : r.0.is_kad_rtt ≡ (filter_remove env p t).is_kad_rtt = ground arith in
            let l3 : r.0.bucket_size ≡ (filter_remove env p t).bucket_size = ground arith in
            record {
              local = l1 ∙ k.local;
              mode = l2 ∙ k.mode;
              bucket_size = l3 ∙ k.bucket_size;
              entries = λ a. rw l (trim-InEach G (length bs) bs (remove-InEach p i t.buckets a));
            }
      ]

  pub set_opt_values-Kept :
      (i : ℕ) (t : Table F) {t' : Table F} → set_opt_values env i t ≡ some t' → Kept env G t t'
  unfolding set_opt_values set_opt_bucket
  set_opt_values-Kept i t {t'} e =
      let (b, g, e1) = >>=-eq-some (get_elem? t.buckets i) _ e in
      let (b_pre, g', e2) = >>=-eq-some (get_elem? t.buckets (i - 1)) _ e1 in
      let f = λ (b' : Bucket). set_opt_bucket env t i b' b_pre in
      let same : t' ≡ record t { buckets = update_at i f t.buckets; pool_size = t.bucket_size } =
        ground arith in
      rw same (record {
        local = refl;
        mode = refl;
        bucket_size = refl;
        entries = λ a. update_at-InEach G i f t.buckets (λ b' h. h) a;
      })

  first_values-Kept : (t : Table F) {t' : Table F} → first_values env t ≡ some t' → Kept env G t t'
  unfolding first_values
  first_values-Kept t {t'} e = elim (Bool-cases (length t.buckets - 1 == 0)) [
    | inl f ↦ set_opt_values-Kept 0 t {t' = t'} (ground arith)
    | inr f ↦ let same : t' ≡ t = ground arith in rw same (Kept-refl env G t)
  ]

  last_values-Kept : (t : Table F) {t' : Table F} → last_values env t ≡ some t' → Kept env G t t'
  unfolding last_values
  last_values-Kept t {t'} e = elim (Bool-cases t.is_kad_rtt) [
    | inl f ↦ set_opt_values-Kept (length t.buckets - 1) t {t' = t'} (ground arith)
    | inr f ↦ let same : t' ≡ t = ground arith in rw same (Kept-refl env G t)
  ]

  cut-Kept :
      (t : Table F) (b : Bucket) → (InEach G t.buckets → G b.list) → Kept env G t (cut env t b)
  unfolding cut halves split new_bucket
  cut-Kept t b h = record {
    local = refl;
    mode = refl;
    bucket_size = refl;
    entries = λ a.
        All-append (λ (c : Bucket). G c.list)
          (update_at (length t.buckets - 1) (λ _. (halves env t b).0) t.buckets)
          ((halves env t b).1 ∷ [])
          (update_at-InEach G (length t.buckets - 1) (λ _. (halves env t b).0) t.buckets
            (λ _ _. th.selected _ b.list (h a)) a)
          (th.selected _ b.list (h a), tt);
  }

  unfold_last-Kept :
      (t : Table F) {r : Table F × Bool} → unfold_last env t ≡ some r → Kept env G t r.0
  unfolding unfold_last
  unfold_last-Kept t {r} e =
      let (t0, e0, f0) = >>=-eq-some (first_values env t) _ e in
      let (b, g, f1) = >>=-eq-some (get_elem? t0.buckets (length t0.buckets - 1)) _ f0 in
      let (t2, e2, f2) = >>=-eq-some (last_values env (cut env t0 b)) _ f1 in
      let same : r.0 ≡ t2 = ground arith in
      rw same (
        Kept-trans env G t t0 t2 (first_values-Kept t e0) (
          Kept-trans env G t0 (cut env t0 b) t2
            (cut-Kept t0 b (InEach-at G (length t0.buckets - 1) t0.buckets g))
            (last_values-Kept (cut env t0 b) e2)))

  pub next_bucket-Kept :
      (n : ℕ) (t : Table F) {t' : Table F} → next_bucket env n t ≡ some t' → Kept env G t t'
  unfolding next_bucket
  next_bucket-Kept zero t e = cc
  next_bucket-Kept (suc n) t {t'} e = elim (Option-cases (unfold_last env t)) [
    | inl f ↦ absurd (ground arith)
    | inr ((t1, more), f) ↦ elim (Bool-cases more) [
      | inl h ↦
          Kept-trans env G t t1 t' (unfold_last-Kept t f)
            (next_bucket-Kept n t1 {t' = t'} (ground arith))
      | inr h ↦ let same : t' ≡ t1 = ground arith in rw same (unfold_last-Kept t f)
    ]
  ]

  drop_peers-keeps : (vs : List VarianceInfo) (b : Bucket) → G b.list → G (drop_peers env vs b).list
  unfolding drop_peers remove
  drop_peers-keeps [] b h = h
  drop_peers-keeps (v ∷ vs) b h = drop_peers-keeps vs (remove v.id b).0 (th.removed v.id b.list h)

  resized-keeps :
      (b : Bucket) {b' : Bucket}
      → (if ltb b.k (len b) then shrink env b else some b) ≡ some b'
      → G b.list
      → G b'.list
  unfolding shrink
  resized-keeps b {b'} e h = elim (Bool-cases (ltb b.k (len b))) [
    | inr f ↦ let same : b' ≡ b = ground arith in rw same h
    | inl f ↦
        let e1 : shrink env b ≡ some b' = ground arith in
        let (vs, e2, e3) =
          >>=-eq-some (variances env (sort_by_peer env b.list) (sort_by_peer env b.list) []) _ e1 in
        let same : drop_peers env (take (len b - b.k) (sort_by by_variance_less vs)) b ≡ b' =
          ground arith in
        rw (← same) (drop_peers-keeps (take (len b - b.k) (sort_by by_variance_less vs)) b h)
  ]

  due_refresh-Kept :
      (now span i : ℕ) (t : Table F) {t' : Table F}
      → due_refresh env now span i t ≡ some t'
      → Kept env G t t'
  unfolding due_refresh
  due_refresh-Kept now span i t {t'} e =
      let (t1, e1, f1) = >>=-eq-some (set_opt_values env i _) _ e in
      let (b, g, f2) = >>=-eq-some (get_elem? t1.buckets i) _ f1 in
      let (b', e2, f3) = >>=-eq-some (if ltb b.k (len b) then shrink env b else some b) _ f2 in
      let k = set_opt_values-Kept i _ e1 in
      let bs : t'.buckets ≡ update_at i (λ _. b') t1.buckets = ground arith in
      let l1 : t'.local ≡ t1.local = ground arith in
      let l2 : t'.is_kad_rtt ≡ t1.is_kad_rtt = ground arith in
      let l3 : t'.bucket_size ≡ t1.bucket_size = ground arith in
      record {
        local = l1 ∙ k.local;
        mode = l2 ∙ k.mode;
        bucket_size = l3 ∙ k.bucket_size;
        entries = λ a. rw bs (
            update_at-InEach G i (λ _. b') t1.buckets
              (λ _ _. resized-keeps b e2 (InEach-at G i t1.buckets g (k.entries a))) (k.entries a));
      }

  pub refresh-Kept :
      (now i : ℕ) (t : Table F) {t' : Table F} → refresh env now i t ≡ some t' → Kept env G t t'
  unfolding refresh
  refresh-Kept now i t {t'} e =
      let t1 : Table F = record t { num_arrive = t.num_arrive + 1 } in
      let k : Kept env G t t1 = same-Kept env G t t1 refl refl refl refl in
      elim (Bool-cases (leb t.rtt_interval (now - t.last_ex_time))) [
        | inl f ↦
            Kept-trans env G t t1 t' k
              (due_refresh-Kept now (now - t.last_ex_time) i t1 {t' = t'} (ground arith))
        | inr f ↦ let same : t' ≡ t1 = ground arith in rw same k
      ]
