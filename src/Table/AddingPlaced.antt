-- ===== src/Table/AddingPlaced.antt =====
-- addPeer, addPeer2 and addPeerKadRTT keep every peer in the bucket of its prefix.
use kadrtt_test_plan.Base.{
  ℕ, ◌-◌, ◌≡◌, refl, ap, inl, inr, true, false, Option, none, some, List, [], ◌∷◌, ltb, ◌==◌, ◌&&◌,
  length, get_elem?, All, arith, Bool-cases, Option-cases, >>=-eq-some,
}
use kadrtt_test_plan.Keyspace.{PeerId}
use kadrtt_test_plan.Bucket.{PeerInfo, Bucket, len, get_peer, min_peer, update_peer_in, push_front}
use kadrtt_test_plan.Table.{
  Env, Table, rejected_high_latency, rejected_by_filter, update_ref, bucket_index,
  bucket_id_for_peer, cpl_of,
}
use kadrtt_test_plan.Table.Buckets.{remove_peer, next_bucket}
use kadrtt_test_plan.Table.Adding.{
  Added, Request, info_of, insert, bump, give_up, replaceable_first, evict, replace, after_unfold,
  place, admit, plain_limit, rtt_limit, add_peer, add_peer2,
}
use kadrtt_test_plan.Table.Placement.{
  Fits, Fits-at, update_ref-Placed, update_ref-refs, length-refs,
}
use kadrtt_test_plan.Table.Invariant.{
  IsPlaced, prefix_of, same-IsPlaced, update_at-IsPlaced, filter_remove-buckets,
  remove_peer-IsPlaced, remove_peer-Fits, remove_peer-local,
}
use kadrtt_test_plan.Table.Unfolding.{next_bucket-IsPlaced}

module _ {F : Type 0} (env : Env F) where
  -- An entry fits the bucket with the identity `ref`, wherever that stands.
  abbrev pub Suits : ℕ → PeerInfo → Table F → Type 0
  Suits ref info t = Fits ref (prefix_of env t info) 0 t.buckets

  pub insert-IsPlaced :
      (ref : ℕ) (info : PeerInfo) (t : Table F)
      → IsPlaced env t
      → Suits ref info t
      → IsPlaced env (insert env ref info t)
  unfolding insert
  insert-IsPlaced ref info t v f = record {
    nonempty = omega (
      arith,
      ap length (update_ref-refs ref info t.buckets),
      v.nonempty,
      length-refs t.buckets,
      length-refs (update_ref ref (push_front info) t.buckets),
    );
    placed = update_ref-Placed (prefix_of env t) ref info 0 t.buckets v.placed f;
    apart = rw (update_ref-refs ref info t.buckets) v.apart;
    fresh = rw (update_ref-refs ref info t.buckets) v.fresh;
  }

  -- The bucket that `bucketIdForPeer` picks suits the entry that a request makes.
  pub bucket_for-Suits :
      (r : Request) (t : Table F) {b : Bucket}
      → IsPlaced env t
      → get_elem? t.buckets (bucket_id_for_peer env t r.peer) ≡ some b
      → Suits b.ref (info_of env r) t
  unfolding bucket_id_for_peer bucket_index cpl_of info_of
  bucket_for-Suits r t v g =
      Fits-at _ (cpl_of env t r.peer) (bucket_id_for_peer env t r.peer) 0 t.buckets v.apart g refl
        (omega arith) (ground arith)

  pub give_up-IsPlaced :
      (r : Request) (t : Table F) → IsPlaced env t → IsPlaced env (give_up env r t).0
  unfolding give_up
  give_up-IsPlaced r t v =
      let (b, l, n) = filter_remove-buckets env r.peer t in same-IsPlaced env t _ b l n v

  evict-IsPlaced :
      (r : Request) (b : Bucket) (victim : PeerId) (t : Table F) {a : Added F}
      → IsPlaced env t
      → Suits b.ref (info_of env r) t
      → evict env r b victim t ≡ some a
      → IsPlaced env a.0
  unfolding evict
  evict-IsPlaced r b victim t {a} v f e =
      let ((t1, removed), e1, r1) = >>=-eq-some (remove_peer env victim t) _ e in
      let v1 = remove_peer-IsPlaced env victim t v e1 in
      let f1 = remove_peer-Fits env b.ref (prefix_of env t (info_of env r)) victim t e1 f in
      let l1 = remove_peer-local env victim t e1 in
      elim (Bool-cases removed) [
        | inl h ↦
            let q : a ≡ (insert env b.ref (info_of env r) t1, true, none) = ground arith in
            rw q (insert-IsPlaced b.ref (info_of env r) t1 v1 (rw l1 f1))
        | inr h ↦ let q : a ≡ give_up env r t1 = ground arith in rw q (give_up-IsPlaced r t1 v1)
      ]

  -- What an operation on a full bucket does when given a bucket that suits the peer.
  abbrev pub Keeps : (Request → Bucket → Table F → Option (Added F)) → Type 0
  Keeps op =
      (r : Request) (b : Bucket) (t : Table F) (a : Added F)
      → IsPlaced env t
      → Suits b.ref (info_of env r) t
      → op r b t ≡ some a
      → IsPlaced env a.0

  pub replace-Keeps : Keeps (replace env)
  unfolding replace
  replace-Keeps r b t a v f e = elim (Option-cases (min_peer (replaceable_first env) b)) [
    | inl h ↦ let q : a ≡ give_up env r t = ground arith in rw q (give_up-IsPlaced r t v)
    | inr (x, h) ↦ elim (Bool-cases x.replaceable) [
      | inl y ↦ evict-IsPlaced r b x.id t {a = a} v f (ground arith)
      | inr y ↦ let q : a ≡ give_up env r t = ground arith in rw q (give_up-IsPlaced r t v)
    ]
  ]

  after_unfold-IsPlaced :
      (limit : Table F → Bucket → ℕ) (op : Request → Bucket → Table F → Option (Added F))
      (r : Request) (t : Table F) {a : Added F}
      → Keeps op
      → IsPlaced env t
      → after_unfold env limit op r t ≡ some a
      → IsPlaced env a.0
  unfolding after_unfold
  after_unfold-IsPlaced limit op r t {a} k v e =
      let (t1, e1, r1) = >>=-eq-some (next_bucket env r.fuel t) _ e in
      let (b, g, r2) = >>=-eq-some (get_elem? t1.buckets (bucket_id_for_peer env t1 r.peer)) _ r1 in
      let v1 = (next_bucket-IsPlaced env r.fuel t v e1).0 in
      let f1 = bucket_for-Suits r t1 v1 g in
      elim (Bool-cases (ltb (len b) (limit t1 b))) [
        | inl h ↦
            let q : a ≡ (insert env b.ref (info_of env r) t1, true, none) = ground arith in
            rw q (insert-IsPlaced b.ref (info_of env r) t1 v1 f1)
        | inr h ↦ k r b t1 a v1 f1 (ground arith)
      ]

  pub place-IsPlaced :
      (limit unfolded : Table F → Bucket → ℕ) (op : Request → Bucket → Table F → Option (Added F))
      (r : Request) (i : ℕ) (b : Bucket) (t : Table F) {a : Added F}
      → Keeps op
      → IsPlaced env t
      → Suits b.ref (info_of env r) t
      → place env limit unfolded op r i b t ≡ some a
      → IsPlaced env a.0
  unfolding place
  place-IsPlaced limit unfolded op r i b t {a} k v f e =
      elim (Bool-cases (ltb (len b) (limit t b))) [
        | inl h ↦
            let q : a ≡ (insert env b.ref (info_of env r) t, true, none) = ground arith in
            rw q (insert-IsPlaced b.ref (info_of env r) t v f)
        | inr h ↦ elim (Bool-cases (i == length t.buckets - 1)) [
          | inl l ↦ after_unfold-IsPlaced unfolded op r t {a = a} k v (ground arith)
          | inr l ↦ k r b t a v f (ground arith)
        ]
      ]

  update_peer_in-All :
      (P : PeerInfo → Type 0) (p : PeerId) (f : PeerInfo → PeerInfo) (xs : List PeerInfo)
      → ((x : PeerInfo) → P x → P (f x))
      → All P xs
      → All P (update_peer_in p f xs)
  unfolding update_peer_in
  update_peer_in-All P p f [] k a = tt
  update_peer_in-All P p f (x ∷ xs) k a = elim (Bool-cases (x.id == p)) [
    | inl e ↦ rw e (k x a.0, a.1)
    | inr e ↦ rw e (a.0, update_peer_in-All P p f xs k a.1)
  ]

  bump-IsPlaced :
      (r : Request) (i : ℕ) (found : PeerInfo) (t : Table F)
      → IsPlaced env t
      → IsPlaced env (bump env r i found t)
  unfolding bump
  bump-IsPlaced r i found t v = elim (Bool-cases (found.last_useful_at == 0 && r.query_peer)) [
    | inl h ↦ simp h (
        update_at-IsPlaced env i _ t (λ b. refl)
          (λ P b a. update_peer_in-All (λ x. P (prefix_of env t x)) r.peer _ b.list (λ x p. p) a) v)
    | inr h ↦ simp h v
  ]

  pub admit-IsPlaced :
      (place_it : ℕ → Bucket → Table F → Option (Added F)) (r : Request) (i : ℕ) (b : Bucket)
      (t : Table F) {a : Added F}
      → ((t' : Table F)
          → IsPlaced env t'
          → Suits b.ref (info_of env r) t'
          → place_it i b t' ≡ some a
          → IsPlaced env a.0)
      → IsPlaced env t
      → Suits b.ref (info_of env r) t
      → admit env place_it r i b t ≡ some a
      → IsPlaced env a.0
  unfolding admit
  admit-IsPlaced place_it r i b t {a} k v f e = elim (Option-cases (get_peer r.peer b)) [
    | inr (x, h) ↦
        let q : a ≡ (bump env r i x t, false, none) = ground arith in rw q (bump-IsPlaced r i x t v)
    | inl h ↦ elim (Bool-cases (ltb t.max_latency (env.latency_ewma r.peer))) [
      | inl y ↦ let q : a ≡ (t, false, some rejected_high_latency) = ground arith in rw q v
      | inr y ↦ elim (Option-cases t.df) [
        | inl d ↦ k t v f (ground arith)
        | inr (s, d) ↦
            let r' = env.df_try_add r.peer s in
            let t' : Table F = record t { df = some r'.0 } in
            let v' = same-IsPlaced env t t' refl refl refl v in
            elim (Bool-cases r'.1) [
              | inl z ↦ k t' v' f (ground arith)
              | inr z ↦ let q : a ≡ (t', false, some rejected_by_filter) = ground arith in rw q v'
            ]
      ]
    ]
  ]

  -- addPeer and addPeer2 keep the table placed, on every branch: the peer that is known, the two
  -- refusals, the free place, the unfolding of the last bucket and the replacement of an entry.
  pub add_peer-IsPlaced :
      (r : Request) (t : Table F) {a : Added F}
      → IsPlaced env t
      → add_peer env r t ≡ some a
      → IsPlaced env a.0
  unfolding add_peer
  add_peer-IsPlaced r t {a} v e =
      let r' : Request = record r { rtt = 0 } in
      let i = bucket_id_for_peer env t r.peer in
      let (b, g, e1) = >>=-eq-some (get_elem? t.buckets i) _ e in
      admit-IsPlaced (place env (plain_limit env) (rtt_limit env) (replace env) r') r' i b t
        (λ t' v' f'.
          place-IsPlaced (plain_limit env) (rtt_limit env) (replace env) r' i b t' replace-Keeps v'
            f')
        v (bucket_for-Suits r' t v g) e1

  pub add_peer2-IsPlaced :
      (r : Request) (t : Table F) {a : Added F}
      → IsPlaced env t
      → add_peer2 env r t ≡ some a
      → IsPlaced env a.0
  unfolding add_peer2
  add_peer2-IsPlaced r t {a} v e =
      let i = bucket_id_for_peer env t r.peer in
      let (b, g, e1) = >>=-eq-some (get_elem? t.buckets i) _ e in
      admit-IsPlaced (place env (plain_limit env) (plain_limit env) (replace env) r) r i b t
        (λ t' v' f'.
          place-IsPlaced (plain_limit env) (plain_limit env) (replace env) r i b t' replace-Keeps v'
            f')
        v (bucket_for-Suits r t v g) e1
