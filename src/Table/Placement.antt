-- ===== src/Table/Placement.antt =====
-- Where the buckets keep their peers: bucket i those with a common prefix of i bits with the local
-- node, the last bucket those with at least as many. Here for lists of buckets.
use kadrtt_test_plan.Base.{
  ℕ, zero, suc, ◌+◌, ◌-◌, ◌≤◌, ◌<◌, ◌≡◌, refl, sym, ap, ◌∙◌, ◌≢◌, inl, inr, some, List, [], ◌∷◌,
  ◌++◌, map, leb, ◌==◌, if◌then◌else◌, length, get_elem?, All, All-map, Differ, arith, Bool-cases,
  Option-cases,
}
use mathlib.Core.Path.{subst}
use kadrtt_test_plan.Bucket.{PeerInfo, Bucket, len, push_front}
use kadrtt_test_plan.Table.{update_at, update_ref, peers_of}
use kadrtt_test_plan.Table.Buckets.{trim_once, trim}

-- `c` gives each entry its common prefix with the local node, and `i` is the first bucket's index.
abbrev pub Placed : (PeerInfo → ℕ) → ℕ → List Bucket → Type 0
Placed c i [] = Unit
Placed c i (b ∷ []) = All (λ x. i ≤ c x) b.list
Placed c i (b ∷ b' ∷ bs) = All (λ x. c x ≡ i) b.list × Placed c (suc i) (b' ∷ bs)

-- A prefix of `n` bits fits the bucket with the identity `r`, if that is there.
abbrev pub Fits : ℕ → ℕ → ℕ → List Bucket → Type 0
Fits r n i [] = Unit
Fits r n i (b ∷ []) = b.ref ≡ r → i ≤ n
Fits r n i (b ∷ b' ∷ bs) = (b.ref ≡ r → n ≡ i) × Fits r n (suc i) (b' ∷ bs)

module _ (c : PeerInfo → ℕ) where
  pub update_ref-Placed :
      (r : ℕ) (x : PeerInfo) (i : ℕ) (bs : List Bucket)
      → Placed c i bs
      → Fits r (c x) i bs
      → Placed c i (update_ref r (push_front x) bs)
  unfolding update_ref push_front
  update_ref-Placed r x i [] p f = tt
  update_ref-Placed r x i (b ∷ []) p f = elim (Bool-cases (b.ref == r)) [
    | inl e ↦ rw e (f (ground arith), p)
    | inr e ↦ rw e p
  ]
  update_ref-Placed r x i (b ∷ b' ∷ bs) p f = elim (Bool-cases (b.ref == r)) [
    | inl e ↦ rw e ((f.0 (ground arith), p.0), update_ref-Placed r x (suc i) (b' ∷ bs) p.1 f.1)
    | inr e ↦ rw e (p.0, update_ref-Placed r x (suc i) (b' ∷ bs) p.1 f.1)
  ]

  -- A write that only drops or rewrites entries in place.
  pub update_at-Placed :
      (j : ℕ) (f : Bucket → Bucket) (i : ℕ) (bs : List Bucket)
      → ((P : ℕ → Type 0) (b : Bucket) → All (λ x. P (c x)) b.list → All (λ x. P (c x)) (f b).list)
      → Placed c i bs
      → Placed c i (update_at j f bs)
  unfolding update_at
  update_at-Placed j f i [] k p = tt
  update_at-Placed zero f i (b ∷ []) k p = k (λ n. i ≤ n) b p
  update_at-Placed (suc j) f i (b ∷ []) k p = p
  update_at-Placed zero f i (b ∷ b' ∷ bs) k p = (k (λ n. n ≡ i) b p.0, p.1)
  update_at-Placed (suc zero) f i (b ∷ b' ∷ bs) k p =
      (p.0, update_at-Placed zero f (suc i) (b' ∷ bs) k p.1)
  update_at-Placed (suc (suc j)) f i (b ∷ b' ∷ bs) k p =
      (p.0, update_at-Placed (suc j) f (suc i) (b' ∷ bs) k p.1)

-- What one round of the loop of `removePeer` does to the buckets.
pub data Trims : List Bucket → List Bucket → Type 0 where
  drop_last : {b d : Bucket} → len d ≡ 0 → Trims (b ∷ d ∷ []) (b ∷ [])
  drop_before : {b d : Bucket} → len b ≡ 0 → Trims (b ∷ d ∷ []) (d ∷ [])
  keep :
      {b d g : Bucket} {bs l : List Bucket}
      → Trims (d ∷ bs) (g ∷ l)
      → Trims (b ∷ d ∷ bs) (b ∷ g ∷ l)

keep_head :
    (b d g : Bucket) (bs l : List Bucket) → Trims (d ∷ g ∷ bs) l → Trims (b ∷ d ∷ g ∷ bs) (b ∷ l)
keep_head b d g bs [] t =
    elim t as (λ x y _. y ≡ [] → Trims (b ∷ d ∷ g ∷ bs) (b ∷ [])) [
      | drop_last e ↦ λ h. cc
      | drop_before e ↦ λ h. cc
      | keep t' ↦ λ h. cc
    ]
      refl
keep_head b d g bs (x ∷ l) t = keep t

pub trim_once-Trims : (bs : List Bucket) {l : List Bucket} → trim_once bs ≡ some l → Trims bs l
unfolding trim_once
trim_once-Trims [] e = cc
trim_once-Trims (b ∷ []) e = cc
trim_once-Trims (b ∷ d ∷ []) {l} e = elim (Bool-cases (len d == 0)) [
  | inl z ↦ let h : l ≡ b ∷ [] = ground arith in rw h (drop_last (ground arith))
  | inr z ↦ elim (Bool-cases (len b == 0)) [
    | inl y ↦ let h : l ≡ d ∷ [] = ground arith in rw h (drop_before (ground arith))
    | inr y ↦ absurd (ground arith)
  ]
]
trim_once-Trims (b ∷ d ∷ g ∷ bs) {l} e = elim (Option-cases (trim_once (d ∷ g ∷ bs))) [
  | inl n ↦ absurd (ground arith)
  | inr (l', n) ↦
      let h : l ≡ b ∷ l' = ground arith in
      rw h (keep_head b d g bs l' (trim_once-Trims (d ∷ g ∷ bs) n))
]

-- A property of bucket lists that each round keeps holds after the loop.
pub trim_keeps :
    (P : List Bucket → Type 0)
    → ((bs l : List Bucket) → Trims bs l → P bs → P l)
    → (n : ℕ) (bs : List Bucket) → P bs
    → P (trim n bs)
unfolding trim
trim_keeps P k zero bs p = p
trim_keeps P k (suc n) bs p = elim (Option-cases (trim_once bs)) [
  | inl e ↦ rw (e, trim) p
  | inr (l, e) ↦ rw (e, trim) (trim_keeps P k n l (k bs l (trim_once-Trims bs e) p))
]

-- A bucket list is never trimmed to nothing, and its first index stays.
Trims-Placed :
    (c : PeerInfo → ℕ) (i : ℕ) {bs l : List Bucket} → Trims bs l → Placed c i bs → Placed c i l
Trims-Placed c i (drop_last {b} {d} e) p = All-map _ _ (λ x h. omega arith) b.list p.0
Trims-Placed c i (drop_before {b} {d} e) p = All-map _ _ (λ x h. omega arith) d.list p.1
Trims-Placed c i (keep t) p = (p.0, Trims-Placed c (suc i) t p.1)

Trims-Fits : (r n i : ℕ) {bs l : List Bucket} → Trims bs l → Fits r n i bs → Fits r n i l
Trims-Fits r n i (drop_last {b} {d} e) p = λ h. omega (arith, p.0 h)
Trims-Fits r n i (drop_before {b} {d} e) p = λ h. omega (arith, p.1 h)
Trims-Fits r n i (keep t) p = (p.0, Trims-Fits r n (suc i) t p.1)

empty_list : (xs : List PeerInfo) → length xs ≡ 0 → xs ≡ []
empty_list [] e = refl
empty_list (x ∷ xs) e = absurd (omega arith)

-- Only empty buckets are dropped.
Trims-peers : {bs l : List Bucket} → Trims bs l → peers_of l ≡ peers_of bs
unfolding peers_of
Trims-peers (drop_last {b} {d} e) = rw (empty_list d.list e)
Trims-peers (drop_before {b} {d} e) = rw (empty_list b.list e)
Trims-peers (keep {b} t) = ap (◌++◌ b.list) (Trims-peers t)

abbrev pub refs : List Bucket → List ℕ
refs = map (λ b. b.ref)

Trims-All : (P : ℕ → Type 0) {bs l : List Bucket} → Trims bs l → All P (refs bs) → All P (refs l)
Trims-All P (drop_last e) a = (a.0, tt)
Trims-All P (drop_before e) a = a.1
Trims-All P (keep t) a = (a.0, Trims-All P t a.1)

Trims-Differ : {bs l : List Bucket} → Trims bs l → Differ (refs bs) → Differ (refs l)
Trims-Differ (drop_last e) d = (tt, tt)
Trims-Differ (drop_before e) d = d.1
Trims-Differ (keep t) d = (Trims-All _ t d.0, Trims-Differ t d.1)

Trims-nonempty : {bs l : List Bucket} → Trims bs l → 0 < length l
Trims-nonempty (drop_last e) = omega arith
Trims-nonempty (drop_before e) = omega arith
Trims-nonempty (keep t) = omega arith

-- The loop of `removePeer` keeps the placement, the identities and every entry.
pub trim-Placed :
    (c : PeerInfo → ℕ) (n : ℕ) (bs : List Bucket) → Placed c 0 bs → Placed c 0 (trim n bs)
trim-Placed c = trim_keeps (Placed c 0) (λ bs l t. Trims-Placed c 0 t)

pub trim-Fits : (r m n : ℕ) (bs : List Bucket) → Fits r m 0 bs → Fits r m 0 (trim n bs)
trim-Fits r m = trim_keeps (Fits r m 0) (λ bs l t. Trims-Fits r m 0 t)

pub trim-All :
    (P : ℕ → Type 0) (n : ℕ) (bs : List Bucket) → All P (refs bs) → All P (refs (trim n bs))
trim-All P = trim_keeps (λ bs. All P (refs bs)) (λ bs l t. Trims-All P t)

pub trim-Differ : (n : ℕ) (bs : List Bucket) → Differ (refs bs) → Differ (refs (trim n bs))
trim-Differ = trim_keeps (λ bs. Differ (refs bs)) (λ bs l t. Trims-Differ t)

pub trim_nonempty : (n : ℕ) (bs : List Bucket) → 0 < length bs → 0 < length (trim n bs)
trim_nonempty = trim_keeps (λ bs. 0 < length bs) (λ bs l t _. Trims-nonempty t)

-- The loop that drops empty buckets loses no entry and keeps their order.
pub peers_of-trim : (n : ℕ) (bs : List Bucket) → peers_of (trim n bs) ≡ peers_of bs
peers_of-trim n bs =
    trim_keeps (λ l. peers_of l ≡ peers_of bs) (λ k l t e. Trims-peers t ∙ e) n bs refl

-- A write by position or identity that keeps the identity changes none.
pub update_at-refs :
    (j : ℕ) (f : Bucket → Bucket) (bs : List Bucket)
    → ((b : Bucket) → (f b).ref ≡ b.ref)
    → refs (update_at j f bs) ≡ refs bs
unfolding update_at
update_at-refs j f [] k = refl
update_at-refs zero f (b ∷ bs) k = rw (k b)
update_at-refs (suc j) f (b ∷ bs) k = ap (◌∷◌ b.ref) (update_at-refs j f bs k)

pub update_ref-refs :
    (r : ℕ) (x : PeerInfo) (bs : List Bucket) → refs (update_ref r (push_front x) bs) ≡ refs bs
unfolding update_ref push_front
update_ref-refs r x [] = refl
update_ref-refs r x (b ∷ bs) = ground (arith, update_ref-refs r x bs)

pub length-refs : (bs : List Bucket) → length (refs bs) ≡ length bs
length-refs [] = refl
length-refs (b ∷ bs) = ap suc (length-refs bs)

Fits-absent : (r n i : ℕ) (bs : List Bucket) → All (λ y. y ≢ r) (refs bs) → Fits r n i bs
Fits-absent r n i [] a = tt
Fits-absent r n i (b ∷ []) a = λ e. absurd (a.0 e)
Fits-absent r n i (b ∷ b' ∷ bs) a = (λ e. absurd (a.0 e), Fits-absent r n (suc i) (b' ∷ bs) a.1)

pub All-at :
    (P : ℕ → Type 0) (j : ℕ) (bs : List Bucket) {b : Bucket}
    → get_elem? bs j ≡ some b
    → All P (refs bs)
    → P b.ref
All-at P j [] g a = cc
All-at P zero (x ∷ bs) {b} g a = let e : b ≡ x = ground arith in rw e a.0
All-at P (suc j) (x ∷ bs) g a = All-at P j bs g a.1

-- The bucket that the code picks for a prefix of `n` bits fits it, in a list of different buckets:
-- it is bucket `n`, or the last one.
pub Fits-at :
    (r n j i : ℕ) (bs : List Bucket) {b : Bucket}
    → Differ (refs bs)
    → get_elem? bs j ≡ some b
    → b.ref ≡ r
    → i ≤ n
    → j ≡ (if leb (length bs) (n - i) then length bs - 1 else n - i)
    → Fits r n i bs
Fits-at r n j i [] d g e l h = tt
Fits-at r n j i (b ∷ []) d g e l h = λ _. l
Fits-at r n zero i (b ∷ b' ∷ bs) d g e l h = (
  λ _. ground arith,
  Fits-absent r n (suc i) (b' ∷ bs)
      (let q : b.ref ≡ r = ground arith in subst (λ z. All (λ y. y ≢ z) (refs (b' ∷ bs))) q d.0),
)
Fits-at r n (suc j) i (b ∷ b' ∷ bs) d g e l h = (
  λ q. absurd (All-at (λ y. y ≢ b.ref) j (b' ∷ bs) g d.0 (e ∙ sym q)),
  Fits-at r n j (suc i) (b' ∷ bs) d.1 g e (ground arith) (ground arith),
)

-- The entries of the last bucket share at least as many bits as its index.
pub last-Placed :
    (c : PeerInfo → ℕ) (j i : ℕ) (bs : List Bucket) {b : Bucket}
    → get_elem? bs j ≡ some b
    → suc j ≡ length bs
    → Placed c i bs
    → All (λ x. i + j ≤ c x) b.list
last-Placed c j i [] g e p = cc
last-Placed c zero i (b ∷ []) {b = b'} g e p =
    let q : b' ≡ b = ground arith in
    rw q (All-map (λ x. i ≤ c x) (λ x. i + 0 ≤ c x) (λ x h. omega arith) b.list p)
last-Placed c (suc j) i (b ∷ []) g e p = cc
last-Placed c zero i (b ∷ b' ∷ bs) g e p = absurd (omega arith)
last-Placed c (suc j) i (b ∷ b' ∷ bs) {b = b''} g e p =
    All-map (λ x. suc i + j ≤ c x) (λ x. i + suc j ≤ c x) (λ x h. omega arith) b''.list
      (last-Placed c j (suc i) (b' ∷ bs) g (omega arith) p.1)

-- The last bucket is replaced by one of exactly its index, and one of more bits is put after it.
pub cut-Placed :
    (c : PeerInfo → ℕ) (low fresh : Bucket) (m j i : ℕ) (bs : List Bucket)
    → All (λ x. c x ≡ m) low.list
    → All (λ x. suc m ≤ c x) fresh.list
    → suc j ≡ length bs
    → m ≡ i + j
    → Placed c i bs
    → Placed c i (update_at j (λ _. low) bs ++ fresh ∷ [])
unfolding update_at
cut-Placed c low fresh m j i [] a w e h p = cc
cut-Placed c low fresh m zero i (b ∷ []) a w e h p =
    (All-map _ _ (λ x k. omega arith) low.list a, All-map _ _ (λ x k. omega arith) fresh.list w)
cut-Placed c low fresh m (suc j) i (b ∷ []) a w e h p = absurd (omega arith)
cut-Placed c low fresh m zero i (b ∷ b' ∷ bs) a w e h p = absurd (omega arith)
cut-Placed c low fresh m (suc zero) i (b ∷ b' ∷ bs) a w e h p =
    (p.0, cut-Placed c low fresh m zero (suc i) (b' ∷ bs) a w (omega arith) (omega arith) p.1)
cut-Placed c low fresh m (suc (suc j)) i (b ∷ b' ∷ bs) a w e h p =
    (p.0, cut-Placed c low fresh m (suc j) (suc i) (b' ∷ bs) a w (omega arith) (omega arith) p.1)
