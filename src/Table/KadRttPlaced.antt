-- ===== src/Table/KadRttPlaced.antt =====
-- addPeerKadRTT keeps every peer in the bucket of its prefix, and what it answers of an exchange.
use kadrtt_test_plan.Base.{
  ℕ, zero, suc, ◌+◌, ◌-◌, ◌≤◌, ◌≡◌, refl, ap, ◌∙◌, inl, inr, some, List, [], ◌∷◌, leb, ltb,
  if◌then◌else◌, ◌&&◌, length, get_elem?, take, sort_by, All, arith, Bool-cases, Option-cases,
  >>=-eq-some,
}
use kadrtt_test_plan.Keyspace.{PeerId}
use kadrtt_test_plan.Bucket.{
  PeerInfo, Bucket, VarianceInfo, by_variance_less, len, get_peer, remove,
}
use kadrtt_test_plan.Table.{
  Env, Table, update_at, bucket_id_for_peer, bucket_index, cpl_of, dht_id_of,
}
use kadrtt_test_plan.Table.Estimator.{set_opt_values}
use kadrtt_test_plan.Table.Buckets.{remove_peer}
use kadrtt_test_plan.Table.Variance.{new_entry, exchange_choice, sort_by_peer}
use kadrtt_test_plan.Table.Adding.{Added, Request, info_of, insert, give_up, place, rtt_limit}
use kadrtt_test_plan.Table.KadRtt.{
  variances, drop_peers, shrink, due_refresh, refresh, swap, exchange, entering, swap_single,
  rearrange_table, rearrange, when_full, add_peer_kad_rtt,
}
use kadrtt_test_plan.Table.Placement.{Placed, Fits}
use kadrtt_test_plan.Table.Invariant.{
  IsPlaced, prefix_of, same-IsPlaced, length-update_at, remove-ref, remove-All,
  set_opt_values-IsPlaced, remove_peer-IsPlaced, remove_peer-Fits, remove_peer-local,
}
use kadrtt_test_plan.Table.Unfolding.{update_at_same-refs}
use kadrtt_test_plan.Table.AddingPlaced.{
  Suits, Keeps, insert-IsPlaced, bucket_for-Suits, give_up-IsPlaced, replace-Keeps, place-IsPlaced,
  admit-IsPlaced,
}

module _ {F : Type 0} (env : Env F) where
  drop_peers_keeps :
      (vs : List VarianceInfo) (b : Bucket)
      → ((drop_peers env vs b).ref ≡ b.ref)
        × ((P : PeerInfo → Type 0) → All P b.list → All P (drop_peers env vs b).list)
  unfolding drop_peers
  drop_peers_keeps [] b = (refl, λ P a. a)
  drop_peers_keeps (v ∷ vs) b =
      let (r, k) = drop_peers_keeps vs (remove v.id b).0 in
      (r ∙ remove-ref env v.id b, λ P a. k P (remove-All env P v.id b a))

  -- A bucket shrinks to some of its own entries.
  pub shrink_keeps :
      (b : Bucket) {b' : Bucket}
      → shrink env b ≡ some b'
      → (b'.ref ≡ b.ref) × ((P : PeerInfo → Type 0) → All P b.list → All P b'.list)
  unfolding shrink
  shrink_keeps b {b'} e =
      let (vs, e1, r) =
        >>=-eq-some (variances env (sort_by_peer env b.list) (sort_by_peer env b.list) []) _ e in
      let q : drop_peers env (take (len b - b.k) (sort_by by_variance_less vs)) b ≡ b' =
        ground arith in
      rw (← q) (drop_peers_keeps (take (len b - b.k) (sort_by by_variance_less vs)) b)

  replaced-Placed :
      (c : PeerInfo → ℕ) (j i : ℕ) (b' : Bucket) (bs : List Bucket) {b : Bucket}
      → get_elem? bs j ≡ some b
      → ((P : PeerInfo → Type 0) → All P b.list → All P b'.list)
      → Placed c i bs
      → Placed c i (update_at j (λ _. b') bs)
  unfolding update_at
  replaced-Placed c j i b' [] g k p = tt
  replaced-Placed c zero i b' (x ∷ []) {b} g k p =
      let q : x ≡ b = ground arith in k (λ y. i ≤ c y) (rw (← q) p)
  replaced-Placed c (suc j) i b' (x ∷ []) g k p = p
  replaced-Placed c zero i b' (x ∷ y ∷ bs) {b} g k p =
      let q : x ≡ b = ground arith in (k (λ z. c z ≡ i) (rw (← q) p.0), p.1)
  replaced-Placed c (suc zero) i b' (x ∷ y ∷ bs) {b} g k p =
      (p.0, replaced-Placed c zero (suc i) b' (y ∷ bs) {b = b} g k p.1)
  replaced-Placed c (suc (suc j)) i b' (x ∷ y ∷ bs) {b} g k p =
      (p.0, replaced-Placed c (suc j) (suc i) b' (y ∷ bs) {b = b} g k p.1)

  replaced-IsPlaced :
      (j : ℕ) (b' : Bucket) (t : Table F) {b : Bucket}
      → get_elem? t.buckets j ≡ some b
      → (b'.ref ≡ b.ref) × ((P : PeerInfo → Type 0) → All P b.list → All P b'.list)
      → IsPlaced env t
      → IsPlaced env (record t { buckets = update_at j (λ _. b') t.buckets })
  replaced-IsPlaced j b' t g k v =
      let s = update_at_same-refs env j b' t.buckets g k.0 in
      record {
        nonempty = rw (length-update_at env j (λ _. b') t.buckets) v.nonempty;
        placed = replaced-Placed (prefix_of env t) j 0 b' t.buckets g k.1 v.placed;
        apart = rw s v.apart;
        fresh = rw s v.fresh;
      }

  due_refresh-IsPlaced :
      (now span i : ℕ) (t : Table F) {t' : Table F}
      → IsPlaced env t
      → due_refresh env now span i t ≡ some t'
      → IsPlaced env t' × (length t'.buckets ≡ length t.buckets) × (t'.local ≡ t.local)
  unfolding due_refresh
  due_refresh-IsPlaced now span i t {t'} v e =
      let (t1, e1, r1) = >>=-eq-some (set_opt_values env i _) _ e in
      let (v1, n1, l1, f1) =
        set_opt_values-IsPlaced env i _ (same-IsPlaced env t _ refl refl refl v) e1 in
      let (b, g, r2) = >>=-eq-some (get_elem? t1.buckets i) _ r1 in
      let (b', e2, r3) = >>=-eq-some (if ltb b.k (len b) then shrink env b else some b) _ r2 in
      let k : (b'.ref ≡ b.ref) × ((P : PeerInfo → Type 0) → All P b.list → All P b'.list) =
        elim (Bool-cases (ltb b.k (len b))) [
          | inl h ↦ shrink_keeps b {b' = b'} (ground arith)
          | inr h ↦ let q : b' ≡ b = ground arith in rw q (refl, λ P a. a)
        ] in
      let bs : t'.buckets ≡ update_at i (λ _. b') t1.buckets = ground arith in
      let l : t'.local ≡ t1.local = ground arith in
      let n : t'.next_ref ≡ t1.next_ref = ground arith in
      (
        same-IsPlaced env (record t1 { buckets = update_at i (λ _. b') t1.buckets }) t' bs l n
            (replaced-IsPlaced i b' t1 g k v1),
        ap length bs ∙ length-update_at env i (λ _. b') t1.buckets ∙ n1,
        l ∙ l1,
      )

  pub refresh-IsPlaced :
      (now i : ℕ) (t : Table F) {t' : Table F}
      → IsPlaced env t
      → refresh env now i t ≡ some t'
      → IsPlaced env t' × (length t'.buckets ≡ length t.buckets) × (t'.local ≡ t.local)
  unfolding refresh
  refresh-IsPlaced now i t {t'} v e =
      let t1 : Table F = record t { num_arrive = t.num_arrive + 1 } in
      let v1 = same-IsPlaced env t t1 refl refl refl v in
      elim (Bool-cases (leb t.rtt_interval (now - t.last_ex_time))) [
        | inl h ↦ due_refresh-IsPlaced now (now - t.last_ex_time) i t1 v1 (ground arith)
        | inr h ↦ let q : t' ≡ t1 = ground arith in rw q (v1, refl, refl)
      ]

  pub same_bucket :
      (p : PeerId) (t t' : Table F)
      → length t'.buckets ≡ length t.buckets
      → t'.local ≡ t.local
      → bucket_id_for_peer env t' p ≡ bucket_id_for_peer env t p
  unfolding bucket_id_for_peer bucket_index cpl_of
  same_bucket p t t' n l = rw (n, l)

  entry-Suits :
      (ref : ℕ) (r : Request) (t t' : Table F)
      → t'.local ≡ t.local
      → Fits ref (prefix_of env t (info_of env r)) 0 t'.buckets
      → Suits env ref (entering env r) t' × Suits env ref (new_entry env r.peer r.rtt r.now) t'
  unfolding new_entry info_of dht_id_of
  entry-Suits ref r t t' l f = (rw l f, rw l f)

  swap-IsPlaced :
      (r : Request) (b : Bucket) (old : PeerId) (t : Table F) {t' : Table F}
      → IsPlaced env t
      → Suits env b.ref (info_of env r) t
      → swap env r b old t ≡ some t'
      → IsPlaced env t'
  unfolding swap
  swap-IsPlaced r b old t {t'} v f e =
      let ((t1, removed), e1, r1) = >>=-eq-some (remove_peer env old t) _ e in
      let v1 = remove_peer-IsPlaced env old t v e1 in
      let l1 = remove_peer-local env old t e1 in
      let f1 = remove_peer-Fits env b.ref (prefix_of env t (info_of env r)) old t e1 f in
      let t2 = insert env b.ref (new_entry env r.peer r.rtt r.now) t1 in
      elim (Bool-cases removed) [
        | inl h ↦
            let q : t'
                ≡ record t2 { num_arrive = t2.num_arrive + 1; num_exchange = t2.num_exchange + 1 } =
              ground arith in
            rw q (
              same-IsPlaced env t2 _ refl refl refl
                (insert-IsPlaced env b.ref _ t1 v1 (entry-Suits b.ref r t t1 l1 f1).1))
        | inr h ↦ let q : t' ≡ t1 = ground arith in rw q v1
      ]

  exchange-IsPlaced :
      (r : Request) (b : Bucket) (t : Table F) {t' : Table F}
      → IsPlaced env t
      → Suits env b.ref (info_of env r) t
      → exchange env r b t ≡ some t'
      → IsPlaced env t'
  unfolding exchange
  exchange-IsPlaced r b t {t'} v f e =
      elim (Option-cases (exchange_choice env b r.peer r.rtt r.now).0) [
        | inl h ↦ let q : t' ≡ t = ground arith in rw q v
        | inr (old, h) ↦ elim (Option-cases (get_peer old b)) [
          | inl g ↦ let q : t' ≡ t = ground arith in rw q v
          | inr (x, g) ↦ elim (Bool-cases x.replaceable) [
            | inr y ↦ let q : t' ≡ t = ground arith in rw q v
            | inl y ↦ swap-IsPlaced r b old t {t' = t'} v f (ground arith)
          ]
        ]
      ]

  swap_single-IsPlaced :
      (r : Request) (b : Bucket) (info : PeerInfo) (t : Table F) {t' : Table F}
      → IsPlaced env t
      → Suits env b.ref (info_of env r) t
      → swap_single env r b info t ≡ some t'
      → IsPlaced env t'
  unfolding swap_single
  swap_single-IsPlaced r b info t {t'} v f e =
      let ((t1, removed), e1, r1) = >>=-eq-some (remove_peer env info.id t) _ e in
      let v1 = remove_peer-IsPlaced env info.id t v e1 in
      let l1 = remove_peer-local env info.id t e1 in
      let f1 = remove_peer-Fits env b.ref (prefix_of env t (info_of env r)) info.id t e1 f in
      let t2 = insert env b.ref (entering env r) t1 in
      elim (Bool-cases removed) [
        | inl h ↦
            let q : t' ≡ record t2 { num_exchange = t2.num_exchange + 1 } = ground arith in
            rw q (
              same-IsPlaced env t2 _ refl refl refl
                (insert-IsPlaced env b.ref _ t1 v1 (entry-Suits b.ref r t t1 l1 f1).0))
        | inr h ↦
            let q : t' ≡ record t1 { num_exchange = t1.num_exchange + 1 } = ground arith in
            rw q (same-IsPlaced env t1 _ refl refl refl v1)
      ]

  rearrange_table-IsPlaced :
      (r : Request) (b : Bucket) (xs : List PeerInfo) (t : Table F) {t' : Table F}
      → b.list ≡ xs
      → IsPlaced env t
      → Suits env b.ref (info_of env r) t
      → rearrange_table env r b t ≡ some t'
      → IsPlaced env t'
  unfolding rearrange_table
  rearrange_table-IsPlaced r b [] t {t'} l v f e =
      let t2 = insert env b.ref (entering env r) t in
      let q : t' ≡ record t2 { num_exchange = t2.num_exchange + 1 } = ground arith in
      rw q (
        same-IsPlaced env t2 _ refl refl refl
          (insert-IsPlaced env b.ref _ t v (entry-Suits b.ref r t t refl f).0))
  rearrange_table-IsPlaced r b (info ∷ []) t {t'} l v f e =
      elim (Bool-cases (ltb r.rtt info.rtt && info.replaceable)) [
        | inl h ↦ swap_single-IsPlaced r b info t {t' = t'} v f (ground arith)
        | inr h ↦ let q : t' ≡ t = ground arith in rw q v
      ]
  rearrange_table-IsPlaced r b (x ∷ y ∷ xs) t {t'} l v f e =
      exchange-IsPlaced r b t {t' = t'} v f (ground arith)

  rearrange-Keeps : Keeps env (rearrange env)
  unfolding rearrange
  rearrange-Keeps r b t a v f e =
      let (t1, e1, r1) = >>=-eq-some (rearrange_table env r b t) _ e in
      let q : a ≡ give_up env r t1 = ground arith in
      rw q (give_up-IsPlaced env r t1 (rearrange_table-IsPlaced r b b.list t refl v f e1))

  when_full-Keeps : Keeps env (when_full env)
  unfolding when_full info_of
  when_full-Keeps r b t a v f e = elim (Bool-cases t.is_kad_rtt) [
    | inl h ↦ rearrange-Keeps r b t a v f (ground arith)
    | inr h ↦ replace-Keeps env (record r { rtt = 0 }) b t a v f (ground arith)
  ]

  -- addPeerKadRTT keeps the table placed on every branch: the periodic update that may shrink a
  -- bucket, the checks, the free place, the unfolding, and each way of exchanging entries.
  pub add_peer_kad_rtt-IsPlaced :
      (r : Request) (t : Table F) {a : Added F}
      → IsPlaced env t
      → add_peer_kad_rtt env r t ≡ some a
      → IsPlaced env a.0
  unfolding add_peer_kad_rtt
  add_peer_kad_rtt-IsPlaced r t {a} v e =
      let i = bucket_id_for_peer env t r.peer in
      let (b0, g0, e0) = >>=-eq-some (get_elem? t.buckets i) _ e in
      let (t1, e1, r1) = >>=-eq-some (refresh env r.now i t) _ e0 in
      let (b, g, r2) = >>=-eq-some (get_elem? t1.buckets i) _ r1 in
      let (v1, n1, l1) = refresh-IsPlaced r.now i t v e1 in
      let g' : get_elem? t1.buckets (bucket_id_for_peer env t1 r.peer) ≡ some b =
        rw (same_bucket r.peer t t1 n1 l1) g in
      admit-IsPlaced env (place env (rtt_limit env) (rtt_limit env) (when_full env) r) r i b t1
        (λ t' v' f'.
          place-IsPlaced env (rtt_limit env) (rtt_limit env) (when_full env) r i b t'
            when_full-Keeps v' f')
        v1 (bucket_for-Suits env r t1 v1 g') r2
