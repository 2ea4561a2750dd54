-- ===== src/Dual/Merging.antt =====
-- What FindProvidersAsync of the dual DHT sends, whatever the order in which the two answer.
use kadrtt_test_plan.Base.{
  ℕ, ◌+◌, ◌≤◌, ◌≡◌, ◌≢◌, ◌⊎◌, inl, inr, refl, sym, ap, Bool, true, false, none, some, List, [], ◌∷◌,
  ◌++◌, ◌==◌, if◌then◌else◌, length, length-append, All, All-map, All-append, Differ, Has,
  Bool-cases, arith,
}
use kadrtt_test_plan.Keyspace.{PeerId}
use kadrtt_test_plan.Dual.{
  is_among, Arrival, from_wan, from_lan, context_over, Merge, start_merge, goes_on, offer, arrive,
  merge,
}

-- One of the two DHTs gave the peer.
abbrev pub Offered : List Arrival → PeerId → Type 0
Offered es p = Has (from_wan (some p)) es ⊎ Has (from_lan (some p)) es

is_among-All : (p : PeerId) (ps : List PeerId) → is_among p ps ≡ false → All (λ q. q ≢ p) ps
unfolding is_among
is_among-All p [] e = tt
is_among-All p (q ∷ ps) e = (ground arith, is_among-All p ps (ground arith))

append-Differ :
    (p : PeerId) (ps : List PeerId) → All (λ q. q ≢ p) ps → Differ ps → Differ (ps ++ p ∷ [])
append-Differ p [] a d = (tt, tt)
append-Differ p (q ∷ ps) a d =
    (All-append (λ y. y ≢ q) ps (p ∷ []) d.0 (λ e. a.0 (sym e), tt), append-Differ p ps a.1 d.1)

-- What is sent is what was found, without repetition, offered, and within the count.
record IsMerged (all : List Arrival) (limit : ℕ) (m : Merge) : Type 0 where
  same : m.sent ≡ m.found
  differ : Differ m.found
  offered : All (Offered all) m.sent
  zero_iff : m.zero_count ≡ (limit == 0)
  counted : (m.zero_count ≡ true) ⊎ (length m.sent + m.count ≡ limit)

offer-IsMerged :
    (all : List Arrival) (limit : ℕ) (p : PeerId) (m : Merge)
    → goes_on m ≡ true
    → Offered all p
    → IsMerged all limit m
    → IsMerged all limit (offer p m)
unfolding offer goes_on
offer-IsMerged all limit p m g o v = elim (Bool-cases (is_among p m.found)) [
  | inl e ↦ rw (offer, e) v
  | inr e ↦
      rw (offer, e)
        (record {
          same = ap (λ l. l ++ p ∷ []) v.same;
          differ = append-Differ p m.found (is_among-All p m.found e) v.differ;
          offered = All-append (Offered all) m.sent (p ∷ []) v.offered (o, tt);
          zero_iff = v.zero_iff;
          counted = elim v.counted [
            | inl z ↦ inl z
            | inr n ↦ elim (Bool-cases m.zero_count) [
              | inl z ↦ inl z
              | inr z ↦ inr (ground (arith, length-append m.sent (p ∷ [])))
            ]
          ];
        })
]

if-IsMerged :
    (all : List Arrival) (limit : ℕ) (b : Bool) (m n : Merge)
    → IsMerged all limit m
    → IsMerged all limit n
    → IsMerged all limit (if b then m else n)
if-IsMerged all limit true m n v w = v
if-IsMerged all limit false m n v w = w

arrive-IsMerged :
    (all : List Arrival) (limit : ℕ) (a : Arrival) (m : Merge)
    → goes_on m ≡ true
    → Has a all
    → IsMerged all limit m
    → IsMerged all limit (arrive a m)
unfolding arrive
arrive-IsMerged all limit (from_wan none) m g h v = record {
  same = v.same;
  differ = v.differ;
  offered = v.offered;
  zero_iff = v.zero_iff;
  counted = v.counted;
}
arrive-IsMerged all limit (from_lan none) m g h v = record {
  same = v.same;
  differ = v.differ;
  offered = v.offered;
  zero_iff = v.zero_iff;
  counted = v.counted;
}
arrive-IsMerged all limit context_over m g h v = record {
  same = v.same;
  differ = v.differ;
  offered = v.offered;
  zero_iff = v.zero_iff;
  counted = v.counted;
}
arrive-IsMerged all limit (from_wan (some p)) m g h v =
    if-IsMerged all limit m.wan_open (offer p m) m (offer-IsMerged all limit p m g (inl h) v) v
arrive-IsMerged all limit (from_lan (some p)) m g h v =
    if-IsMerged all limit m.lan_open (offer p m) m (offer-IsMerged all limit p m g (inr h) v) v

merge-IsMerged :
    (all : List Arrival) (limit : ℕ) (es : List Arrival) (m : Merge)
    → All (λ a. Has a all) es
    → IsMerged all limit m
    → IsMerged all limit (merge es m)
unfolding merge
merge-IsMerged all limit [] m h v = v
merge-IsMerged all limit (a ∷ es) m h v = elim (Bool-cases (goes_on m)) [
  | inl e ↦
      rw (merge, e)
        (merge-IsMerged all limit es (arrive a m) h.1 (arrive-IsMerged all limit a m e h.0 v))
  | inr e ↦ rw (merge, e) v
]

all-Has : (es : List Arrival) → All (λ a. Has a es) es
all-Has [] = tt
all-Has (a ∷ es) =
    (inl refl, All-map (λ b. Has b es) (λ b. Has b (a ∷ es)) (λ b h. inr h) es (all-Has es))

-- Whatever the order in which the two DHTs answer, FindProvidersAsync sends no provider twice, only
-- providers that one of them gave, and at most `count` of them unless `count` is 0.
pub merge_sound :
    (count : ℕ) (es : List Arrival)
    → Differ (merge es (start_merge count)).sent
      × All (Offered es) (merge es (start_merge count)).sent
      × ((count ≡ 0) ⊎ (length (merge es (start_merge count)).sent ≤ count))
unfolding start_merge
merge_sound count es =
    let start : IsMerged es count (start_merge count) = record {
      same = refl;
      differ = tt;
      offered = tt;
      zero_iff = refl;
      counted = inr (omega arith);
    } in
    let v = merge-IsMerged es count es (start_merge count) (all-Has es) start in
    (
      rw v.same v.differ,
      v.offered,
      elim v.counted [ inl z ↦ inl (ground (arith, v.zero_iff)) | inr n ↦ inr (omega (arith, n)) ],
    )
