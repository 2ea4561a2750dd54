-- ===== src/Table/GrowingKadRtt.antt =====
-- The exchanges of addPeerKadRTT add one entry at most, after another has left.
use kadrtt_test_plan.Base.{
  ◌+◌, ◌≡◌, refl, inl, inr, ◌&&◌, some, List, [], ◌∷◌, ltb, arith, Bool-cases, Option-cases,
  >>=-eq-some,
}
use kadrtt_test_plan.Keyspace.{PeerId, convert_peer_id}
use kadrtt_test_plan.Bucket.{PeerInfo, Bucket, get_peer}
use kadrtt_test_plan.Table.{Env, Table, dht_id_of}
use kadrtt_test_plan.Table.Buckets.{remove_peer}
use kadrtt_test_plan.Table.Variance.{new_entry, exchange_choice}
use kadrtt_test_plan.Table.Adding.{Request, info_of, insert, give_up}
use kadrtt_test_plan.Table.KadRtt.{
  swap, exchange, entering, swap_single, rearrange_table, rearrange, when_full,
}
use kadrtt_test_plan.Table.Thinning.{Kept-refl, same-Kept, filter_remove-Kept}
use kadrtt_test_plan.Table.Entries.{AreEntries, AreOthers}
use kadrtt_test_plan.Table.Growing.{
  Grown, Kept-Grown, Kept-then, then-Kept, insert-Grown, removed, Grows, replace-Grows,
}

module _ {F : Type 0} (env : Env F) where
  -- The counters are no part of what is kept.
  counted :
      (p : PeerId) (t u u' : Table F)
      → Grown env p t u
      → u'.buckets ≡ u.buckets
      → u'.local ≡ u.local
      → u'.is_kad_rtt ≡ u.is_kad_rtt
      → u'.bucket_size ≡ u.bucket_size
      → Grown env p t u'
  counted p t u u' g b l m s =
      then-Kept env p t u u' g (same-Kept env (AreEntries env) u u' b l m s)

  unchanged : (p : PeerId) (t : Table F) → Grown env p t t
  unchanged p t = Kept-Grown env p t t (Kept-refl env (AreOthers env p) t)

  swap-Grown :
      (r : Request) (b : Bucket) (old : PeerId) (t : Table F) {t' : Table F}
      → swap env r b old t ≡ some t'
      → Grown env r.peer t t'
  unfolding swap new_entry dht_id_of convert_peer_id
  swap-Grown r b old t {t'} e =
      let ((t1, gone), e1, f) = >>=-eq-some (remove_peer env old t) _ e in
      let k = removed env r.peer old t e1 in
      elim (Bool-cases gone) [
        | inl g ↦
            let t2 = insert env b.ref (new_entry env r.peer r.rtt r.now) t1 in
            let q : t'
                ≡ record t2 { num_arrive = t2.num_arrive + 1; num_exchange = t2.num_exchange + 1 } =
              ground arith in
            rw q (
              counted r.peer t t2 _
                (Kept-then env r.peer t t1 t2 k
                  (insert-Grown env b.ref (new_entry env r.peer r.rtt r.now) t1 refl))
                refl refl refl refl)
        | inr g ↦ let q : t' ≡ t1 = ground arith in rw q (Kept-Grown env r.peer t t1 k)
      ]

  exchange-Grown :
      (r : Request) (b : Bucket) (t : Table F) {t' : Table F}
      → exchange env r b t ≡ some t'
      → Grown env r.peer t t'
  unfolding exchange
  exchange-Grown r b t {t'} e = elim (Option-cases (exchange_choice env b r.peer r.rtt r.now).0) [
    | inl c ↦ let q : t' ≡ t = ground arith in rw q (unchanged r.peer t)
    | inr (old, c) ↦ elim (Option-cases (get_peer old b)) [
      | inl g ↦ let q : t' ≡ t = ground arith in rw q (unchanged r.peer t)
      | inr (x, g) ↦ elim (Bool-cases x.replaceable) [
        | inl y ↦ swap-Grown r b old t {t' = t'} (ground arith)
        | inr y ↦ let q : t' ≡ t = ground arith in rw q (unchanged r.peer t)
      ]
    ]
  ]

  swap_single-Grown :
      (r : Request) (b : Bucket) (info : PeerInfo) (t : Table F) {t' : Table F}
      → swap_single env r b info t ≡ some t'
      → Grown env r.peer t t'
  unfolding swap_single info_of
  swap_single-Grown r b info t {t'} e =
      let ((t1, gone), e1, f) = >>=-eq-some (remove_peer env info.id t) _ e in
      let k = removed env r.peer info.id t e1 in
      elim (Bool-cases gone) [
        | inl g ↦
            let t2 = insert env b.ref (entering env r) t1 in
            let q : t' ≡ record t2 { num_exchange = t2.num_exchange + 1 } = ground arith in
            rw q (
              counted r.peer t t2 _
                (Kept-then env r.peer t t1 t2 k (insert-Grown env b.ref (entering env r) t1 refl))
                refl refl refl refl)
        | inr g ↦
            let q : t' ≡ record t1 { num_exchange = t1.num_exchange + 1 } = ground arith in
            rw q (counted r.peer t t1 _ (Kept-Grown env r.peer t t1 k) refl refl refl refl)
      ]

  rearrange_table-Grown :
      (r : Request) (b : Bucket) (xs : List PeerInfo) (t : Table F) {t' : Table F}
      → b.list ≡ xs
      → rearrange_table env r b t ≡ some t'
      → Grown env r.peer t t'
  unfolding rearrange_table info_of
  rearrange_table-Grown r b [] t {t'} l e =
      let t2 = insert env b.ref (entering env r) t in
      let q : t' ≡ record t2 { num_exchange = t2.num_exchange + 1 } = ground arith in
      rw q
        (counted r.peer t t2 _ (insert-Grown env b.ref (entering env r) t refl) refl refl refl refl)
  rearrange_table-Grown r b (info ∷ []) t {t'} l e =
      elim (Bool-cases (ltb r.rtt info.rtt && info.replaceable)) [
        | inl h ↦ swap_single-Grown r b info t {t' = t'} (ground arith)
        | inr h ↦ let q : t' ≡ t = ground arith in rw q (unchanged r.peer t)
      ]
  rearrange_table-Grown r b (x ∷ y ∷ xs) t {t'} l e = exchange-Grown r b t {t' = t'} (ground arith)

  rearrange-Grows : Grows env (rearrange env)
  unfolding rearrange give_up
  rearrange-Grows r b t a e =
      let (t1, e1, f) = >>=-eq-some (rearrange_table env r b t) _ e in
      let q : a ≡ give_up env r t1 = ground arith in
      rw q (
        then-Kept env r.peer t t1 _ (rearrange_table-Grown r b b.list t refl e1)
          (filter_remove-Kept env (AreEntries env) r.peer t1))

  pub when_full-Grows : Grows env (when_full env)
  unfolding when_full
  when_full-Grows r b t a e = elim (Bool-cases t.is_kad_rtt) [
    | inl h ↦ rearrange-Grows r b t a (ground arith)
    | inr h ↦ replace-Grows env (record r { rtt = 0 }) b t a (ground arith)
  ]
