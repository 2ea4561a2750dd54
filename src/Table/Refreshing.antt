-- ===== src/Table/Refreshing.antt =====
-- The periodic update of addPeerKadRTT returns: no variance divides by 0.
use kadrtt_test_plan.Base.{
  get_elem?_total, ℕ, zero, suc, ◌+◌, ◌-◌, ◌≤◌, ◌<◌, ◌≡◌, refl, ◌≢◌, inl, inr, not, some, List, [],
  ◌∷◌, leb, ltb, map, ◌==◌, if◌then◌else◌, length, get_elem?, All, Has, Differ, arith, Bool-cases,
  Option-cases, sort_by, Has-sort_by_iff, select, Has-select_iff,
}
use kadrtt_test_plan.Keyspace.{PeerId}
use kadrtt_test_plan.Bucket.{PeerInfo, Bucket, VarianceInfo, by_peer_less, len}
use kadrtt_test_plan.Table.{Env, Table, update_at}
use kadrtt_test_plan.Table.Estimator.{set_opt_values, set_opt_bucket, calc_k_opt}
use kadrtt_test_plan.Table.Variance.{get_id_variance_with_out, remove_peer_info, sort_by_peer}
use kadrtt_test_plan.Table.KadRtt.{variances, shrink, due_refresh, refresh}
use kadrtt_test_plan.Table.Invariant.{length-update_at}
use kadrtt_test_plan.Table.KadRttPlaced.{shrink_keeps}
use kadrtt_test_plan.Table.Totals.{
  Everywhere-at, write_at-Everywhere, returns, IsSized, Settled-IsSized, set_opt_values_total,
}

-- No two entries of a bucket have one ID.
abbrev pub IdsDiffer : List Bucket → Type 0
IdsDiffer bs = All (λ (b : Bucket). Differ (map (λ (x : PeerInfo). x.id) b.list)) bs

pub in_range : (j : ℕ) (bs : List Bucket) {b : Bucket} → get_elem? bs j ≡ some b → j < length bs
in_range j [] g = cc
in_range zero (x ∷ bs) g = omega arith
in_range (suc j) (x ∷ bs) g = let h = in_range j bs g in omega arith

module _ {F : Type 0} (env : Env F) where
  -- Among two entries with different IDs one does not have a given ID.
  other_entry :
      (id : PeerId) (xs : List PeerInfo)
      → 2 ≤ length xs
      → Differ (map (λ (x : PeerInfo). x.id) xs)
      → (y : PeerInfo) × Has y xs × (y.id ≢ id)
  other_entry id [] h d = absurd (omega arith)
  other_entry id (x ∷ []) h d = absurd (omega arith)
  other_entry id (x ∷ y ∷ xs) h d = elim (Bool-cases (x.id == id)) [
    | inl e ↦ (y, inr (inl refl), λ q. d.0.0 (ground arith))
    | inr e ↦ (x, inl refl, ground arith)
  ]

  Has-nonempty : {A : Type 0} (y : A) (xs : List A) → Has y xs → 0 < length xs
  Has-nonempty y [] h = absurd h
  Has-nonempty y (x ∷ xs) h = omega arith

  -- A bucket with two entries has one without any given peer, so nothing is divided by 0.
  variance_total :
      (b : Bucket) (id : PeerId)
      → 2 ≤ len b
      → Differ (map (λ (x : PeerInfo). x.id) b.list)
      → (v : ℕ) × (get_id_variance_with_out env (sort_by_peer env b.list) id ≡ some v)
  unfolding get_id_variance_with_out sort_by_peer remove_peer_info
  variance_total b id h d =
      let less = by_peer_less env.hashing in
      let sorted = sort_by less b.list in
      let (y, m, ne) = other_entry id b.list h d in
      let in_sorted = (Has-sort_by_iff less y b.list).1 m in
      let left = select (λ (v : PeerInfo). not (v.id == id)) sorted in
      let kept : Has y left =
        (Has-select_iff (λ (v : PeerInfo). not (v.id == id)) y sorted).1
          (in_sorted, ground arith) in
      let some_left = Has-nonempty y (sort_by less left) ((Has-sort_by_iff less y left).1 kept) in
      returns (get_id_variance_with_out env (sort_by_peer env b.list) id) (λ n. ground arith)

  variances_total :
      (b : Bucket) (xs : List PeerInfo) (out : List VarianceInfo)
      → 2 ≤ len b
      → Differ (map (λ (x : PeerInfo). x.id) b.list)
      → (vs : List VarianceInfo) × (variances env (sort_by_peer env b.list) xs out ≡ some vs)
  unfolding variances
  variances_total b [] out h d = (out, refl)
  variances_total b (x ∷ xs) out h d =
      let (v, e) = variance_total b x.id h d in
      let (vs, f) = variances_total b xs (record { id = x.id; variance = v } ∷ out) h d in
      (vs, rw e f)

  shrink_total :
      (b : Bucket)
      → 2 ≤ len b
      → Differ (map (λ (x : PeerInfo). x.id) b.list)
      → (b' : Bucket) × (shrink env b ≡ some b')
  unfolding shrink
  shrink_total b h d =
      let (vs, e) = variances_total b (sort_by_peer env b.list) [] h d in
      returns (shrink env b) (λ n. ground arith)

  calc_k_opt_bound : (t : Table F) (i : ℕ) → 2 ≤ calc_k_opt env t i
  unfolding calc_k_opt
  calc_k_opt_bound t i = ground arith

  written_at :
      (i : ℕ) (f : Bucket → Bucket) (bs : List Bucket) {b : Bucket}
      → get_elem? bs i ≡ some b
      → get_elem? (update_at i f bs) i ≡ some (f b)
  unfolding update_at
  written_at i f [] g = cc
  written_at zero f (x ∷ bs) g = ground arith
  written_at (suc i) f (x ∷ bs) g = written_at i f bs g

  -- The bucket whose parameters are set keeps its entries, and its `k` is 2 at least.
  set_opt_bucket-k :
      (t : Table F) (i : ℕ) (b b_pre : Bucket)
      → (2 ≤ (set_opt_bucket env t i b b_pre).k) × ((set_opt_bucket env t i b b_pre).list ≡ b.list)
  unfolding set_opt_bucket
  set_opt_bucket-k t i b b_pre = (calc_k_opt_bound t i, refl)

  set_opt_values-k :
      (i : ℕ) (t : Table F) {t' : Table F} {b : Bucket}
      → get_elem? t.buckets i ≡ some b
      → set_opt_values env i t ≡ some t'
      → (b' : Bucket) × (get_elem? t'.buckets i ≡ some b') × (2 ≤ b'.k) × (b'.list ≡ b.list)
  unfolding set_opt_values
  set_opt_values-k i t {t'} {b} g e = elim (Option-cases (get_elem? t.buckets (i - 1))) [
    | inl n ↦ absurd (ground arith)
    | inr (b_pre, n) ↦
        let f = λ (b' : Bucket). set_opt_bucket env t i b' b_pre in
        let q : t'.buckets ≡ update_at i f t.buckets = ground arith in
        let (k, l) = set_opt_bucket-k t i b b_pre in (f b, rw q (written_at i f t.buckets g), k, l)
  ]

  IdsDiffer-at :
      (i : ℕ) (bs : List Bucket) {b : Bucket}
      → get_elem? bs i ≡ some b
      → IdsDiffer bs
      → Differ (map (λ (x : PeerInfo). x.id) b.list)
  IdsDiffer-at i [] g a = cc
  IdsDiffer-at zero (x ∷ bs) {b} g a = let e : b ≡ x = ground arith in rw e a.0
  IdsDiffer-at (suc i) (x ∷ bs) g a = IdsDiffer-at i bs g a.1

  resized_total :
      (b : Bucket)
      → 2 ≤ b.k
      → Differ (map (λ (x : PeerInfo). x.id) b.list)
      → (b' : Bucket) × ((if ltb b.k (len b) then shrink env b else some b) ≡ some b')
        × ((P : PeerInfo → Type 0) → All P b.list → All P b'.list)
  resized_total b k d = elim (Bool-cases (ltb b.k (len b))) [
    | inl h ↦
        let (b', e) = shrink_total b (ground arith) d in
        (b', ground arith, (shrink_keeps env b e).1)
    | inr h ↦ (b, ground arith, λ P a. a)
  ]

  due_refresh_total :
      (m now span i : ℕ) (t : Table F)
      → i < length t.buckets
      → IdsDiffer t.buckets
      → IsSized env m t
      → (t' : Table F) × (due_refresh env now span i t ≡ some t') × IsSized env m t'
  unfolding due_refresh
  due_refresh_total m now span i t h d z =
      let fl = env.floats in
      let t0 : Table F = record t {
        last_ex_time = now;
        arv_rate_store = fl.div (fl.of_int t.num_arrive) (fl.of_int span);
        prob_exchange = fl.div (fl.of_int t.num_exchange) (fl.of_int t.num_arrive);
      } in
      let z0 : IsSized env m t0 = record {
        nonempty = z.nonempty;
        below = z.below;
        room = z.room;
      } in
      let (t1, e1, s1) = set_opt_values_total env i t0 h in
      let z1 = Settled-IsSized env m t0 t1 s1 z0 in
      let (b0, g0) = get_elem?_total i t.buckets h in
      let (b, g, k, l) = set_opt_values-k i t0 g0 e1 in
      let (b', e2, keeps) = resized_total b k (rw l (IdsDiffer-at i t.buckets g0 d)) in
      (
        record t1 {
          prob_exchange = if ltb (len b) b.k then fl.of_int 1 else t1.prob_exchange;
          buckets = update_at i (λ _. b') t1.buckets;
          num_arrive = 1;
          num_exchange = 0;
        },
        rw (e1, due_refresh) (rw g (rw e2 refl)),
        record {
          nonempty = rw (length-update_at env i (λ _. b') t1.buckets) z1.nonempty;
          below =
              write_at-Everywhere _ i b' t1.buckets
                (keeps _ (Everywhere-at _ i t1.buckets g z1.below)) z1.below;
          room = z1.room;
        },
      )

  -- The periodic update returns on buckets that have no ID twice.
  pub refresh_total :
      (m now i : ℕ) (t : Table F)
      → i < length t.buckets
      → IdsDiffer t.buckets
      → IsSized env m t
      → (t' : Table F) × (refresh env now i t ≡ some t') × IsSized env m t'
  unfolding refresh
  refresh_total m now i t0 h d z =
      let t : Table F = record t0 { num_arrive = t0.num_arrive + 1 } in
      let z1 : IsSized env m t = record { nonempty = z.nonempty; below = z.below; room = z.room } in
      elim (Bool-cases (leb t.rtt_interval (now - t.last_ex_time))) [
        | inl e ↦
            let (t', f, z') = due_refresh_total m now (now - t.last_ex_time) i t h d z1 in
            (t', ground arith, z')
        | inr e ↦ (t, ground arith, z1)
      ]
