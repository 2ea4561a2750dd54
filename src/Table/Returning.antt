-- ===== src/Table/Returning.antt =====
-- Nothing that removePeer, addPeer and addPeer2 index is out of range.
use kadrtt_test_plan.Base.{
  get_elem?_total, ℕ, ◌+◌, ◌-◌, ◌≤◌, ◌<◌, ◌≡◌, refl, inl, inr, Bool, Option, some, ltb, ◌==◌,
  length, get_elem?, arith, Bool-cases, Option-cases,
}
use kadrtt_test_plan.Keyspace.{PeerId}
use kadrtt_test_plan.Bucket.{Bucket, len, get_peer, min_peer, remove}
use kadrtt_test_plan.Table.{Env, Table, bucket_id_for_peer, bucket_index}
use kadrtt_test_plan.Table.Buckets.{remove_peer}
use kadrtt_test_plan.Table.Adding.{
  Added, Request, replaceable_first, evict, replace, after_unfold, place, admit,
}
use kadrtt_test_plan.Table.Invariant.{IsPlaced, remove_peer-IsPlaced}
use kadrtt_test_plan.Table.Totals.{returns, IsSized, next_bucket_total}

module _ {F : Type 0} (env : Env F) where
  -- The index that is looked up is in range of a table with a bucket.
  pub bucket_total :
      (t : Table F) (p : PeerId)
      → 0 < length t.buckets
      → (b : Bucket) × (get_elem? t.buckets (bucket_id_for_peer env t p) ≡ some b)
  unfolding bucket_id_for_peer bucket_index
  bucket_total t p h = get_elem?_total (bucket_id_for_peer env t p) t.buckets (ground arith)

  pub remove_peer_total :
      (p : PeerId) (t : Table F)
      → 0 < length t.buckets
      → (r : Table F × Bool) × (remove_peer env p t ≡ some r)
  unfolding remove_peer
  remove_peer_total p t h =
      let (b, g) = bucket_total t p h in
      elim (Bool-cases (remove p b).1) [
        | inl e ↦ returns (remove_peer env p t) (λ n. ground arith)
        | inr e ↦ returns (remove_peer env p t) (λ n. ground arith)
      ]

  -- A result of an addition.
  abbrev pub Returns : Option (Added F) → Type 0
  Returns o = (a : Added F) × (o ≡ some a)

  -- What is run on a full bucket returns on a table with a bucket.
  abbrev pub Answers : (Request → Bucket → Table F → Option (Added F)) → Type 0
  Answers op = (r : Request) (b : Bucket) (t : Table F) → 0 < length t.buckets → Returns (op r b t)

  evict_total :
      (r : Request) (b : Bucket) (victim : PeerId) (t : Table F)
      → 0 < length t.buckets
      → Returns (evict env r b victim t)
  unfolding evict
  evict_total r b victim t h =
      let (a, e) = remove_peer_total victim t h in
      returns (evict env r b victim t) (λ n. ground arith)

  pub replace_total : Answers (replace env)
  unfolding replace
  replace_total r b t h = elim (Option-cases (min_peer (replaceable_first env) b)) [
    | inl e ↦ returns (replace env r b t) (λ n. ground arith)
    | inr (x, e) ↦ elim (Bool-cases x.replaceable) [
      | inl f ↦
          let (a, g) = evict_total r b x.id t h in returns (replace env r b t) (λ n. ground arith)
      | inr f ↦ returns (replace env r b t) (λ n. ground arith)
    ]
  ]

  after_unfold_total :
      (limit : Table F → Bucket → ℕ) (op : Request → Bucket → Table F → Option (Added F)) (m : ℕ)
      (r : Request) (t : Table F)
      → Answers op
      → IsSized env m t
      → 0 < r.fuel
      → m + 2 ≤ r.fuel + length t.buckets
      → Returns (after_unfold env limit op r t)
  unfolding after_unfold
  after_unfold_total limit op m r t k z p h =
      let (t1, e1, z1) = next_bucket_total env r.fuel m t z p h in
      let (b, g) = bucket_total t1 r.peer z1.nonempty in
      elim (Bool-cases (ltb (len b) (limit t1 b))) [
        | inl f ↦ returns (after_unfold env limit op r t) (λ n. ground arith)
        | inr f ↦
            let (a, e) = k r b t1 z1.nonempty in
            returns (after_unfold env limit op r t) (λ n. ground arith)
      ]

  pub place_total :
      (limit unfolded : Table F → Bucket → ℕ) (op : Request → Bucket → Table F → Option (Added F))
      (m : ℕ) (r : Request) (i : ℕ) (b : Bucket) (t : Table F)
      → Answers op
      → IsSized env m t
      → 0 < r.fuel
      → m + 2 ≤ r.fuel + length t.buckets
      → Returns (place env limit unfolded op r i b t)
  unfolding place
  place_total limit unfolded op m r i b t k z p h = elim (Bool-cases (ltb (len b) (limit t b))) [
    | inl f ↦ returns (place env limit unfolded op r i b t) (λ n. ground arith)
    | inr f ↦ elim (Bool-cases (i == length t.buckets - 1)) [
      | inl l ↦
          let (a, e) = after_unfold_total unfolded op m r t k z p h in
          returns (place env limit unfolded op r i b t) (λ n. ground arith)
      | inr l ↦
          let (a, e) = k r b t z.nonempty in
          returns (place env limit unfolded op r i b t) (λ n. ground arith)
    ]
  ]

  pub admit_total :
      (place_it : ℕ → Bucket → Table F → Option (Added F)) (m : ℕ) (r : Request) (i : ℕ)
      (b : Bucket) (t : Table F)
      → ((t' : Table F)
          → IsSized env m t'
          → length t'.buckets ≡ length t.buckets
          → Returns (place_it i b t'))
      → IsSized env m t
      → Returns (admit env place_it r i b t)
  unfolding admit
  admit_total place_it m r i b t k z = elim (Option-cases (get_peer r.peer b)) [
    | inr (x, e) ↦ returns (admit env place_it r i b t) (λ n. ground arith)
    | inl e ↦ elim (Bool-cases (ltb t.max_latency (env.latency_ewma r.peer))) [
      | inl f ↦ returns (admit env place_it r i b t) (λ n. ground arith)
      | inr f ↦ elim (Option-cases t.df) [
        | inl d ↦
            let (a, g) = k t z refl in returns (admit env place_it r i b t) (λ n. ground arith)
        | inr (s, d) ↦ elim (Bool-cases (env.df_try_add r.peer s).1) [
          | inl y ↦
              let (a, g) =
                k (record t { df = some (env.df_try_add r.peer s).0 })
                  (record { nonempty = z.nonempty; below = z.below; room = z.room }) refl in
              returns (admit env place_it r i b t) (λ n. ground arith)
          | inr y ↦ returns (admit env place_it r i b t) (λ n. ground arith)
        ]
      ]
    ]
  ]

  -- On a placed table removePeer returns, and the table that it returns is placed, also through
  -- the loop that drops empty buckets.
  pub remove_peer_keeps :
      (p : PeerId) (t : Table F)
      → IsPlaced env t
      → (r : Table F × Bool) × (remove_peer env p t ≡ some r) × IsPlaced env r.0
  remove_peer_keeps p t v =
      let (r, e) = remove_peer_total p t v.nonempty in (r, e, remove_peer-IsPlaced env p t v e)
