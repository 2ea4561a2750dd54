-- ===== src/Table/Growing.antt =====
-- addPeer, addPeer2 and addPeerKadRTT add one entry, to a bucket that lacks its peer.
use kadrtt_test_plan.Base.{
  ℕ, ◌-◌, ◌≡◌, refl, ◌∙◌, inl, inr, Bool, true, Option, none, some, ltb, ◌==◌, length, get_elem?,
  arith, Bool-cases, Option-cases, >>=-eq-some,
}
use kadrtt_test_plan.Keyspace.{PeerId}
use kadrtt_test_plan.Bucket.{PeerInfo, Bucket, len, min_peer}
use kadrtt_test_plan.Table.{Env, Table, bucket_id_for_peer}
use kadrtt_test_plan.Table.Buckets.{remove_peer, next_bucket}
use kadrtt_test_plan.Table.Adding.{
  Added, Request, info_of, insert, give_up, replaceable_first, evict, replace, after_unfold, place,
}
use kadrtt_test_plan.Table.Thinning.{
  InEach, Kept, filter_remove-Kept, remove_peer-Kept, next_bucket-Kept,
}
use kadrtt_test_plan.Table.Entries.{
  AreEntries, AreOthers, AreOthers-IsThinning, update_ref-AreEntries, others-AreEntries, IsHashed,
}

module _ {F : Type 0} (env : Env F) where
  -- The node, the mode and the bucket size stay; where every bucket had entries and none of them is of
  -- the peer `p`, every bucket has entries.
  pub record Grown (p : PeerId) (t t' : Table F) : Type 0 where
    pub local : t'.local ≡ t.local
    pub mode : t'.is_kad_rtt ≡ t.is_kad_rtt
    pub bucket_size : t'.bucket_size ≡ t.bucket_size
    pub entries : InEach (AreOthers env p) t.buckets → InEach (AreEntries env) t'.buckets

  pub Kept-Grown : (p : PeerId) (t t' : Table F) → Kept env (AreOthers env p) t t' → Grown p t t'
  Kept-Grown p t t' k = record {
    local = k.local;
    mode = k.mode;
    bucket_size = k.bucket_size;
    entries = λ a. others-AreEntries env p t'.buckets (k.entries a);
  }

  pub Kept-then :
      (p : PeerId) (t u v : Table F) → Kept env (AreOthers env p) t u → Grown p u v → Grown p t v
  Kept-then p t u v k g = record {
    local = g.local ∙ k.local;
    mode = g.mode ∙ k.mode;
    bucket_size = g.bucket_size ∙ k.bucket_size;
    entries = λ a. g.entries (k.entries a);
  }

  pub then-Kept :
      (p : PeerId) (t u v : Table F) → Grown p t u → Kept env (AreEntries env) u v → Grown p t v
  then-Kept p t u v g k = record {
    local = k.local ∙ g.local;
    mode = k.mode ∙ g.mode;
    bucket_size = k.bucket_size ∙ g.bucket_size;
    entries = λ a. k.entries (g.entries a);
  }

  pub insert-Grown :
      (ref : ℕ) (x : PeerInfo) (t : Table F) → IsHashed env x → Grown x.id t (insert env ref x t)
  unfolding insert
  insert-Grown ref x t h = record {
    local = refl;
    mode = refl;
    bucket_size = refl;
    entries = λ a. update_ref-AreEntries env ref x t.buckets h a;
  }

  pub give_up-Grown : (r : Request) (t : Table F) → Grown r.peer t (give_up env r t).0
  unfolding give_up
  give_up-Grown r t = Kept-Grown r.peer t _ (filter_remove-Kept env (AreOthers env r.peer) r.peer t)

  pub removed :
      (p victim : PeerId) (t : Table F) {a : Table F × Bool}
      → remove_peer env victim t ≡ some a
      → Kept env (AreOthers env p) t a.0
  removed p victim t e =
      remove_peer-Kept env (AreOthers env p) (AreOthers-IsThinning env p) victim t e

  -- What is run on a full bucket.
  abbrev pub Grows : (Request → Bucket → Table F → Option (Added F)) → Type 0
  Grows op =
      (r : Request) (b : Bucket) (t : Table F) (a : Added F)
      → op r b t ≡ some a
      → Grown r.peer t a.0

  evict-Grown :
      (r : Request) (b : Bucket) (victim : PeerId) (t : Table F) {a : Added F}
      → evict env r b victim t ≡ some a
      → Grown r.peer t a.0
  unfolding evict info_of
  evict-Grown r b victim t {a} e =
      let ((t1, gone), e1, f) = >>=-eq-some (remove_peer env victim t) _ e in
      let k = removed r.peer victim t e1 in
      elim (Bool-cases gone) [
        | inl g ↦
            let q : a.0 ≡ insert env b.ref (info_of env r) t1 = ground arith in
            rw q (Kept-then r.peer t t1 _ k (insert-Grown b.ref (info_of env r) t1 refl))
        | inr g ↦
            let q : a.0 ≡ (give_up env r t1).0 = ground arith in
            rw q (Kept-then r.peer t t1 _ k (give_up-Grown r t1))
      ]

  pub replace-Grows : Grows (replace env)
  unfolding replace
  replace-Grows r b t a e = elim (Option-cases (min_peer (replaceable_first env) b)) [
    | inl h ↦ let q : a ≡ give_up env r t = ground arith in rw q (give_up-Grown r t)
    | inr (x, h) ↦ elim (Bool-cases x.replaceable) [
      | inl y ↦ evict-Grown r b x.id t {a = a} (ground arith)
      | inr y ↦ let q : a ≡ give_up env r t = ground arith in rw q (give_up-Grown r t)
    ]
  ]

  after_unfold-Grown :
      (limit : Table F → Bucket → ℕ) (op : Request → Bucket → Table F → Option (Added F))
      (r : Request) (t : Table F) {a : Added F}
      → Grows op
      → after_unfold env limit op r t ≡ some a
      → Grown r.peer t a.0
  unfolding after_unfold info_of
  after_unfold-Grown limit op r t {a} k e =
      let (t1, e1, f1) = >>=-eq-some (next_bucket env r.fuel t) _ e in
      let (b, g, f2) = >>=-eq-some (get_elem? t1.buckets (bucket_id_for_peer env t1 r.peer)) _ f1 in
      let kept =
        next_bucket-Kept env (AreOthers env r.peer) (AreOthers-IsThinning env r.peer) r.fuel t e1 in
      elim (Bool-cases (ltb (len b) (limit t1 b))) [
        | inl h ↦
            let q : a ≡ (insert env b.ref (info_of env r) t1, true, none) = ground arith in
            rw q (Kept-then r.peer t t1 _ kept (insert-Grown b.ref (info_of env r) t1 refl))
        | inr h ↦ Kept-then r.peer t t1 a.0 kept (k r b t1 a (ground arith))
      ]

  pub place-Grown :
      (limit unfolded : Table F → Bucket → ℕ) (op : Request → Bucket → Table F → Option (Added F))
      (r : Request) (i : ℕ) (b : Bucket) (t : Table F) {a : Added F}
      → Grows op
      → place env limit unfolded op r i b t ≡ some a
      → Grown r.peer t a.0
  unfolding place info_of
  place-Grown limit unfolded op r i b t {a} k e = elim (Bool-cases (ltb (len b) (limit t b))) [
    | inl h ↦
        let q : a ≡ (insert env b.ref (info_of env r) t, true, none) = ground arith in
        rw q (insert-Grown b.ref (info_of env r) t refl)
    | inr h ↦ elim (Bool-cases (i == length t.buckets - 1)) [
      | inl l ↦ after_unfold-Grown unfolded op r t {a = a} k (ground arith)
      | inr l ↦ k r b t a (ground arith)
    ]
  ]
