-- ===== src/Diversity/Counts.antt =====
-- Increment and Decrement against counts that are plain functions.
use kadrtt_test_plan.Base.{
  ℕ, zero, suc, ◌+◌, ◌≡◌, refl, Bool, true, ◌&&◌, some, [], ◌∷◌, ◌==◌, if◌then◌else◌, Map, lookup,
  put, delete, is_empty, lookup-put, lookup-delete, inl, inr, arith, Bool-cases, Option-cases,
}
use kadrtt_test_plan.Diversity.{
  ℤ, pos, negsuc, increase, decrease, is_zero, PeerGroupInfo, GroupCounts, count_at, inner_map,
  increment, lower, decrement,
}

abbrev pub table_count : ℕ → GroupCounts → ℤ
table_count k r = count_at k r.table_ip_group_count

abbrev pub cpl_count : ℕ → ℕ → GroupCounts → ℤ
cpl_count c k r = count_at k (inner_map c r.cpl_ip_group_count)

-- 1 for a group that is counted.
abbrev pub indicator : Bool → ℕ
indicator b = if b then 1 else 0

abbrev pub in_table : ℕ → PeerGroupInfo → Bool
in_table k g = g.ip_group_key == k

abbrev pub in_cpl : ℕ → ℕ → PeerGroupInfo → Bool
in_cpl c k g = g.cpl == c && g.ip_group_key == k

-- The two maps hold these counts.
abbrev pub Counted : (ℕ → ℕ) → (ℕ → ℕ → ℕ) → GroupCounts → Type 0
Counted n m r =
    ((k : ℕ) → table_count k r ≡ pos (n k)) × ((c k : ℕ) → cpl_count c k r ≡ pos (m c k))

count_at-put :
    (j k : ℕ) (v : ℤ) (m : Map ℤ) → count_at j (put k v m) ≡ (if k == j then v else count_at j m)
unfolding count_at
count_at-put j k v m = ground (arith, lookup-put j k v m)

count_at-delete :
    (j k : ℕ) (m : Map ℤ) → count_at j (delete k m) ≡ (if k == j then pos 0 else count_at j m)
unfolding count_at
count_at-delete j k m = ground (arith, lookup-delete j k m)

pub inner_map-put :
    {V : Type 0} (j k : ℕ) (c : Map V) (m : Map (Map V))
    → inner_map j (put k c m) ≡ (if k == j then c else inner_map j m)
unfolding inner_map
inner_map-put j k c m = ground (arith, lookup-put j k c m)

pub inner_map-delete :
    {V : Type 0} (j k : ℕ) (m : Map (Map V))
    → inner_map j (delete k m) ≡ (if k == j then [] else inner_map j m)
unfolding inner_map
inner_map-delete j k m = ground (arith, lookup-delete j k m)

is_zero-eq : (n : ℤ) → is_zero n ≡ true → n ≡ pos 0
unfolding is_zero
is_zero-eq (pos zero) e = refl
is_zero-eq (pos (suc n)) e = cc
is_zero-eq (negsuc n) e = cc

count_at-lower :
    (j k : ℕ) (m : Map ℤ)
    → count_at j (lower k m) ≡ (if k == j then decrease (count_at k m) else count_at j m)
unfolding lower
count_at-lower j k m =
    let n = decrease (count_at k m) in
    elim (Bool-cases (is_zero n)) [
      | inl z ↦
          ground (arith, is_zero-eq n z, count_at-delete j k (put k n m), count_at-put j k n m)
      | inr z ↦ ground (arith, count_at-put j k n m)
    ]

is_empty-nil : {V : Type 0} (m : Map V) → is_empty m ≡ true → m ≡ []
is_empty-nil [] e = refl
is_empty-nil (x ∷ m) e = cc

pub increment-Counted :
    (g : PeerGroupInfo) (n : ℕ → ℕ) (m : ℕ → ℕ → ℕ) (r : GroupCounts)
    → Counted n m r
    → Counted
        (λ k. n k + indicator (in_table k g))
        (λ c k. m c k + indicator (in_cpl c k g))
        (increment g r)
unfolding increment increase
increment-Counted g n m r h =
    let key = g.ip_group_key in
    let inner = inner_map g.cpl r.cpl_ip_group_count in
    let t = increase (count_at key r.table_ip_group_count) in
    let i = increase (count_at key inner) in
    (
      λ k. ground (arith, count_at-put k key t r.table_ip_group_count, h.0 key, h.0 k),
      λ c k. ground (
        arith,
        inner_map-put c g.cpl (put key i inner) r.cpl_ip_group_count,
        count_at-put k key i inner,
        h.1 g.cpl key,
        h.1 g.cpl k,
        h.1 c k,
      ),
    )

-- The inner map of a group that is counted.
inner_found :
    (g : PeerGroupInfo) (m : ℕ) (r : GroupCounts)
    → cpl_count g.cpl g.ip_group_key r ≡ pos (suc m)
    → (c : Map ℤ) × (lookup g.cpl r.cpl_ip_group_count ≡ some c)
      × (inner_map g.cpl r.cpl_ip_group_count ≡ c)
unfolding inner_map count_at lookup
inner_found g m r h = elim (Option-cases (lookup g.cpl r.cpl_ip_group_count)) [
  | inl e ↦ absurd (ground arith)
  | inr (c, e) ↦ (c, e, ground arith)
]

lowered :
    (g : PeerGroupInfo) (c : Map ℤ) (r : GroupCounts) (j : ℕ)
    → inner_map j
        (if is_empty c then delete g.cpl r.cpl_ip_group_count else put g.cpl c r.cpl_ip_group_count)
      ≡ (if g.cpl == j then c else inner_map j r.cpl_ip_group_count)
lowered g c r j = elim (Bool-cases (is_empty c)) [
  | inl e ↦ ground (arith, inner_map-delete j g.cpl r.cpl_ip_group_count, is_empty-nil c e)
  | inr e ↦ ground (arith, inner_map-put j g.cpl c r.cpl_ip_group_count)
]

decrease_lem : (n : ℕ) → decrease (pos (n + 1)) ≡ pos n
unfolding decrease
decrease_lem n = ground arith

-- Decrement undoes Increment: it does not panic on a group that is counted.
pub decrement-Counted :
    (g : PeerGroupInfo) (n : ℕ → ℕ) (m : ℕ → ℕ → ℕ) (r : GroupCounts)
    → Counted (λ k. n k + indicator (in_table k g)) (λ c k. m c k + indicator (in_cpl c k g)) r
    → (r' : GroupCounts) × (decrement g r ≡ some r') × Counted n m r'
unfolding decrement
decrement-Counted g n m r h =
    let key = g.ip_group_key in
    let one : cpl_count g.cpl key r ≡ pos (suc (m g.cpl key)) = ground (arith, h.1 g.cpl key) in
    let (c, e, q) = inner_found g (m g.cpl key) r one in
    let c' = lower key c in
    (
      record r {
        table_ip_group_count = lower key r.table_ip_group_count;
        cpl_ip_group_count =
            if is_empty c'
            then delete g.cpl r.cpl_ip_group_count
            else put g.cpl c' r.cpl_ip_group_count;
      },
      rw (e, decrement) refl,
      (
        λ k. ground (
          arith,
          count_at-lower k key r.table_ip_group_count,
          h.0 key,
          h.0 k,
          decrease_lem (n key),
        ),
        λ j k. ground (
          arith,
          lowered g c' r j,
          count_at-lower k key c,
          h.1 g.cpl key,
          h.1 g.cpl k,
          h.1 j k,
          decrease_lem (m g.cpl key),
        ),
      ),
    )
