-- ===== src/Table/Sound.antt =====
-- The whole invariant of the routing table, which each of its operations keeps without a panic.
use kadrtt_test_plan.Base.{
  ℕ, ◌≤◌, ◌<◌, ◌≡◌, refl, sym, ap, ◌∙◌, ◌⊎◌, inl, inr, true, false, ◌&&◌, Option, none, some, List,
  [], ◌∷◌, map, ltb, ◌==◌, length, get_elem?, All, All-map, Differ, arith, Bool-cases, Option-cases,
  >>=-eq-some,
}
use kadrtt_test_plan.Keyspace.{PeerId, Hashing, Bytes, common_prefix_len, convert_peer_id}
use kadrtt_test_plan.Keyspace.Prefix.{zero_prefix_len-le}
use kadrtt_test_plan.Bucket.{PeerInfo, Bucket, get_peer, update_peer_in}
use kadrtt_test_plan.Table.{Env, Table, bucket_id_for_peer, dht_id_of}
use kadrtt_test_plan.Table.Adding.{
  Added, Request, bump, replace, place, admit, plain_limit, rtt_limit, add_peer, add_peer2,
}
use kadrtt_test_plan.Table.KadRtt.{refresh, when_full, add_peer_kad_rtt}
use kadrtt_test_plan.Table.Invariant.{IsPlaced, prefix_of}
use kadrtt_test_plan.Table.Totals.{IsSized}
use kadrtt_test_plan.Table.Refreshing.{IdsDiffer}
use kadrtt_test_plan.Table.AddingTotal.{add_peer_total, add_peer2_total, add_peer_kad_rtt_total}
use kadrtt_test_plan.Table.KadRttPlaced.{refresh-IsPlaced, same_bucket}
use kadrtt_test_plan.Table.Marks.{update_peer_in-All}
use kadrtt_test_plan.Table.Thinning.{InEach, update_at-InEach, refresh-Kept}
use kadrtt_test_plan.Table.Entries.{
  ids, AreEntries, AreOthers, IsHashed, AreEntries-IsThinning, absent-AreOthers,
}
use kadrtt_test_plan.Table.Growing.{Grown, place-Grown, replace-Grows}
use kadrtt_test_plan.Table.GrowingKadRtt.{when_full-Grows}

-- What is known of the hash and of XOR: a hash has 32 bytes, and the XOR of two slices of one length
-- has that length.
pub record IsHashing (h : Hashing) : Type 0 where
  pub length-sum256 : (p : PeerId) → length (h.sum256 p) ≡ 32
  pub length-xor : (a b : Bytes) → length a ≡ length b → length (h.xor a b) ≡ length a

update_peer_in-ids :
    (p : PeerId) (f : PeerInfo → PeerInfo) (xs : List PeerInfo)
    → ((x : PeerInfo) → (f x).id ≡ x.id)
    → ids (update_peer_in p f xs) ≡ ids xs
unfolding update_peer_in
update_peer_in-ids p f [] k = refl
update_peer_in-ids p f (x ∷ xs) k = elim (Bool-cases (x.id == p)) [
  | inl e ↦ rw e (rw (k x) refl)
  | inr e ↦ rw e (ap (◌∷◌ x.id) (update_peer_in-ids p f xs k))
]

module _ {F : Type 0} (env : Env F) where
  -- Every entry is in the bucket of its prefix, has the hash of its peer's ID, and no ID stands twice
  -- in a bucket; there is room for an entry in a bucket; and the local node's ID has 32 bytes.
  pub record IsSound (t : Table F) : Type 0 where
    pub placed : IsPlaced env t
    pub entries : InEach (AreEntries env) t.buckets
    pub room : (t.is_kad_rtt ≡ true) ⊎ (0 < t.bucket_size)
    pub local : length t.local ≡ 32

  pub update_peer_in-AreEntries :
      (p : PeerId) (f : PeerInfo → PeerInfo) (xs : List PeerInfo)
      → ((x : PeerInfo) → (f x).id ≡ x.id)
      → ((x : PeerInfo) → (f x).dht_id ≡ x.dht_id)
      → AreEntries env xs
      → AreEntries env (update_peer_in p f xs)
  update_peer_in-AreEntries p f xs k l a = (
    update_peer_in-All (IsHashed env) p f xs (λ x h. l x ∙ h ∙ ap (dht_id_of env) (sym (k x))) a.0,
    rw (update_peer_in-ids p f xs k) a.1,
  )

  -- What an operation keeps of the table, besides the places of entries.
  record Stays (t t' : Table F) : Type 0 where
    local : t'.local ≡ t.local
    mode : t'.is_kad_rtt ≡ t.is_kad_rtt
    bucket_size : t'.bucket_size ≡ t.bucket_size
    entries : InEach (AreEntries env) t'.buckets

  bump-Stays :
      (r : Request) (i : ℕ) (found : PeerInfo) (t : Table F)
      → InEach (AreEntries env) t.buckets
      → Stays t (bump env r i found t)
  unfolding bump
  bump-Stays r i found t a = elim (Bool-cases (found.last_useful_at == 0 && r.query_peer)) [
    | inr e ↦ rw (e, bump) (record { local = refl; mode = refl; bucket_size = refl; entries = a })
    | inl e ↦
        rw (e, bump)
          (record {
            local = refl;
            mode = refl;
            bucket_size = refl;
            entries =
                update_at-InEach (AreEntries env) i
                  (λ b. record b {
                    list = update_peer_in r.peer (λ x. record x { last_useful_at = r.now }) b.list;
                  })
                  t.buckets
                  (λ b.
                    update_peer_in-AreEntries r.peer (λ x. record x { last_useful_at = r.now })
                      b.list (λ x. refl) (λ x. refl))
                  a;
          })
  ]

  Grown-Stays :
      (p : PeerId) (t t' : Table F)
      → InEach (AreOthers env p) t.buckets
      → Grown env p t t'
      → Stays t t'
  Grown-Stays p t t' a g = record {
    local = g.local;
    mode = g.mode;
    bucket_size = g.bucket_size;
    entries = g.entries a;
  }

  admit-Stays :
      (place_it : ℕ → Bucket → Table F → Option (Added F)) (r : Request) (i : ℕ) (b : Bucket)
      (t : Table F) {a : Added F}
      → ((t' : Table F) → place_it i b t' ≡ some a → Grown env r.peer t' a.0)
      → IsPlaced env t
      → InEach (AreEntries env) t.buckets
      → get_elem? t.buckets (bucket_id_for_peer env t r.peer) ≡ some b
      → admit env place_it r i b t ≡ some a
      → Stays t a.0
  unfolding admit
  admit-Stays place_it r i b t {a} k v es g e = elim (Option-cases (get_peer r.peer b)) [
    | inr (x, h) ↦
        let q : a ≡ (bump env r i x t, false, none) = ground arith in rw q (bump-Stays r i x t es)
    | inl h ↦
        let others = absent-AreOthers env t r.peer v es g h in
        let same : Stays t t = record {
          local = refl;
          mode = refl;
          bucket_size = refl;
          entries = es;
        } in
        elim (Bool-cases (ltb t.max_latency (env.latency_ewma r.peer))) [
          | inl f ↦ let q : a.0 ≡ t = ground arith in rw q same
          | inr f ↦ elim (Option-cases t.df) [
            | inl d ↦ Grown-Stays r.peer t a.0 others (k t (ground arith))
            | inr (s, d) ↦
                let t1 : Table F = record t { df = some (env.df_try_add r.peer s).0 } in
                elim (Bool-cases (env.df_try_add r.peer s).1) [
                  | inl y ↦
                      let w = Grown-Stays r.peer t1 a.0 others (k t1 (ground arith)) in
                      record {
                        local = w.local;
                        mode = w.mode;
                        bucket_size = w.bucket_size;
                        entries = w.entries;
                      }
                  | inr y ↦
                      let q : a.0 ≡ t1 = ground arith in
                      rw q (record { local = refl; mode = refl; bucket_size = refl; entries = es })
                ]
          ]
        ]
  ]

  sound : (t t' : Table F) → IsSound t → IsPlaced env t' → Stays t t' → IsSound t'
  sound t t' v w s = record {
    placed = w;
    entries = s.entries;
    room = rw (s.mode, s.bucket_size) v.room;
    local = rw s.local v.local;
  }

  abbrev plain_place : Request → ℕ → Bucket → Table F → Option (Added F)
  plain_place r = place env (plain_limit env) (rtt_limit env) (replace env) r

  add_peer-Stays :
      (r : Request) (t : Table F) {a : Added F}
      → IsPlaced env t
      → InEach (AreEntries env) t.buckets
      → add_peer env r t ≡ some a
      → Stays t a.0
  unfolding add_peer
  add_peer-Stays r t {a} v es e =
      let r' : Request = record r { rtt = 0 } in
      let i = bucket_id_for_peer env t r.peer in
      let (b, g, e1) = >>=-eq-some (get_elem? t.buckets i) _ e in
      admit-Stays (plain_place r') r' i b t
        (λ t' f.
          place-Grown env (plain_limit env) (rtt_limit env) (replace env) r' i b t'
            (replace-Grows env) f)
        v es g e1

  add_peer2-Stays :
      (r : Request) (t : Table F) {a : Added F}
      → IsPlaced env t
      → InEach (AreEntries env) t.buckets
      → add_peer2 env r t ≡ some a
      → Stays t a.0
  unfolding add_peer2
  add_peer2-Stays r t {a} v es e =
      let i = bucket_id_for_peer env t r.peer in
      let (b, g, e1) = >>=-eq-some (get_elem? t.buckets i) _ e in
      admit-Stays (place env (plain_limit env) (plain_limit env) (replace env) r) r i b t
        (λ t' f.
          place-Grown env (plain_limit env) (plain_limit env) (replace env) r i b t'
            (replace-Grows env) f)
        v es g e1

  add_peer_kad_rtt-Stays :
      (r : Request) (t : Table F) {a : Added F}
      → IsPlaced env t
      → InEach (AreEntries env) t.buckets
      → add_peer_kad_rtt env r t ≡ some a
      → Stays t a.0
  unfolding add_peer_kad_rtt
  add_peer_kad_rtt-Stays r t {a} v es e =
      let i = bucket_id_for_peer env t r.peer in
      let (b0, g0, e0) = >>=-eq-some (get_elem? t.buckets i) _ e in
      let (t1, e1, r1) = >>=-eq-some (refresh env r.now i t) _ e0 in
      let (b, g, r2) = >>=-eq-some (get_elem? t1.buckets i) _ r1 in
      let (v1, n1, l1) = refresh-IsPlaced env r.now i t v e1 in
      let k = refresh-Kept env (AreEntries env) (AreEntries-IsThinning env) r.now i t e1 in
      let g' : get_elem? t1.buckets (bucket_id_for_peer env t1 r.peer) ≡ some b =
        rw (same_bucket env r.peer t t1 n1 l1) g in
      let s =
        admit-Stays (place env (rtt_limit env) (rtt_limit env) (when_full env) r) r i b t1
          (λ t' f.
            place-Grown env (rtt_limit env) (rtt_limit env) (when_full env) r i b t'
              (when_full-Grows env) f)
          v1 (k.entries es) g' r2 in
      record {
        local = s.local ∙ k.local;
        mode = s.mode ∙ k.mode;
        bucket_size = s.bucket_size ∙ k.bucket_size;
        entries = s.entries;
      }

module _ {F : Type 0} (env : Env F) (law : IsHashing env.hashing) where
  prefix-le :
      (t : Table F) (x : PeerInfo) → length t.local ≡ 32 → IsHashed env x → prefix_of env t x ≤ 256
  unfolding common_prefix_len dht_id_of convert_peer_id
  prefix-le t x l h =
      let d : length x.dht_id ≡ 32 = ap length h ∙ law.length-sum256 x.id in
      omega (
        arith,
        zero_prefix_len-le (env.hashing.xor x.dht_id t.local),
        law.length-xor x.dht_id t.local (d ∙ sym l),
        d,
      )

  IsSound-IsSized : (t : Table F) → IsSound env t → IsSized env 256 t
  IsSound-IsSized t v = record {
    nonempty = v.placed.nonempty;
    below =
        All-map (λ (b : Bucket). AreEntries env b.list)
          (λ (b : Bucket). All (λ x. prefix_of env t x ≤ 256) b.list)
          (λ b a. All-map (IsHashed env) _ (λ x h. prefix-le t x v.local h) b.list a.0) t.buckets
          v.entries;
    room = v.room;
  }

  IsSound-IdsDiffer : (t : Table F) → IsSound env t → IdsDiffer t.buckets
  IsSound-IdsDiffer t v =
      All-map (λ (b : Bucket). AreEntries env b.list)
        (λ (b : Bucket). Differ (map (λ (x : PeerInfo). x.id) b.list)) (λ b a. a.1) t.buckets
        v.entries

  -- On a sound table addPeer returns, with fuel 257, and the table that it returns is sound.
  pub add_peer-IsSound :
      (r : Request) (t : Table F)
      → IsSound env t
      → 257 ≤ r.fuel
      → (a : Added F) × (add_peer env r t ≡ some a) × IsSound env a.0
  add_peer-IsSound r t v h =
      let (a, e, w) =
        add_peer_total env 256 r t v.placed (IsSound-IsSized t v) (omega arith)
          (omega (arith, v.placed.nonempty)) in
      (a, e, sound env t a.0 v w (add_peer-Stays env r t v.placed v.entries e))

  -- So does addPeer2.
  pub add_peer2-IsSound :
      (r : Request) (t : Table F)
      → IsSound env t
      → 257 ≤ r.fuel
      → (a : Added F) × (add_peer2 env r t ≡ some a) × IsSound env a.0
  add_peer2-IsSound r t v h =
      let (a, e, w) =
        add_peer2_total env 256 r t v.placed (IsSound-IsSized t v) (omega arith)
          (omega (arith, v.placed.nonempty)) in
      (a, e, sound env t a.0 v w (add_peer2-Stays env r t v.placed v.entries e))

  -- And addPeerKadRTT.
  pub add_peer_kad_rtt-IsSound :
      (r : Request) (t : Table F)
      → IsSound env t
      → 257 ≤ r.fuel
      → (a : Added F) × (add_peer_kad_rtt env r t ≡ some a) × IsSound env a.0
  add_peer_kad_rtt-IsSound r t v h =
      let (a, e, w) =
        add_peer_kad_rtt_total env 256 r t v.placed (IsSound-IdsDiffer t v) (IsSound-IsSized t v)
          (omega arith) (omega (arith, v.placed.nonempty)) in
      (a, e, sound env t a.0 v w (add_peer_kad_rtt-Stays env r t v.placed v.entries e))
