-- ===== src/Base/Sort.antt =====
-- `sort.Sort`, as insertion by a strict comparison. Go promises a sorted permutation of the input,
-- and no more; so the modules that sort use only what stands here of the result.
use Prim.Native.Nat.{ℕ, zero, suc, ◌≤◌}
use mathlib.Core.Path.{◌≡◌, refl}
use mathlib.Core.Logic.{◌⊎◌, ◌↔◌, inl, inr}
use mathlib.Core.List.{List, [], ◌∷◌, map, Perm}
use mathlib.Core.List.Perm
use mathlib.Core.Bool.{Bool}
use native.Mathlib.Omega.{arith}
use kadrtt_test_plan.Base.Tests.{if◌then◌else◌, Bool-cases, ltb}
use kadrtt_test_plan.Base.Lists.{length, Has, All, take, select}

module _ {ℓ} {A : Type ℓ} where
  -- Before the first element that `less` puts above it.
  unfoldable pub insert_by : (A → A → Bool) → A → List A → List A
  insert_by less a [] = a ∷ []
  insert_by less a (x ∷ xs) = if less a x then a ∷ x ∷ xs else x ∷ insert_by less a xs

  unfoldable pub sort_by : (A → A → Bool) → List A → List A
  unfolding insert_by
  sort_by less [] = []
  sort_by less (x ∷ xs) = insert_by less x (sort_by less xs)

  pub length-insert_by :
      (less : A → A → Bool) (a : A) (xs : List A) → length (insert_by less a xs) ≡ suc (length xs)
  unfolding insert_by
  length-insert_by less a [] = refl
  length-insert_by less a (x ∷ xs) = ground (arith, length-insert_by less a xs)

  pub length-sort_by : (less : A → A → Bool) (xs : List A) → length (sort_by less xs) ≡ length xs
  unfolding sort_by
  length-sort_by less [] = refl
  length-sort_by less (x ∷ xs) =
      omega (arith, length-insert_by less x (sort_by less xs), length-sort_by less xs)

  insert_by-perm : (less : A → A → Bool) (a : A) (xs : List A) → Perm (insert_by less a xs) (a ∷ xs)
  unfolding insert_by
  insert_by-perm less a [] = Perm.refl (a ∷ [])
  insert_by-perm less a (x ∷ xs) = elim (Bool-cases (less a x)) [
    | inl e ↦ rw e (Perm.refl (a ∷ x ∷ xs))
    | inr e ↦ rw e (Perm.trans (Perm.cons x (insert_by-perm less a xs)) (Perm.swap a x xs))
  ]

  pub sort_by-perm : (less : A → A → Bool) (xs : List A) → Perm (sort_by less xs) xs
  unfolding sort_by
  sort_by-perm less [] = Perm.refl []
  sort_by-perm less (x ∷ xs) =
      Perm.trans (insert_by-perm less x (sort_by less xs)) (Perm.cons x (sort_by-perm less xs))

-- A sort by a number `key`, ascending.
abbrev pub less_by {ℓ} : {A : Type ℓ} → (A → ℕ) → A → A → Bool
less_by key a b = ltb (key a) (key b)

-- Ascending by `key`, with `n` a lower bound.
abbrev pub AscendingFrom {ℓ} : {A : Type ℓ} → (A → ℕ) → ℕ → List A → Type 0
AscendingFrom key n [] = Unit
AscendingFrom key n (x ∷ xs) = (n ≤ key x) × AscendingFrom key (key x) xs

abbrev pub Ascending {ℓ} : {A : Type ℓ} → (A → ℕ) → List A → Type 0
Ascending key xs = AscendingFrom key 0 xs

module _ {ℓ} {A : Type ℓ} (key : A → ℕ) where
  insert_by-Ascending :
      (n : ℕ) (a : A) (xs : List A)
      → n ≤ key a
      → AscendingFrom key n xs
      → AscendingFrom key n (insert_by (less_by key) a xs)
  unfolding insert_by
  insert_by-Ascending n a [] h s = (h, tt)
  insert_by-Ascending n a (x ∷ xs) h s = ground (arith, insert_by-Ascending (key x) a xs)

  pub sort_by-Ascending : (xs : List A) → Ascending key (sort_by (less_by key) xs)
  unfolding sort_by
  sort_by-Ascending [] = tt
  sort_by-Ascending (x ∷ xs) =
      insert_by-Ascending 0 x (sort_by (less_by key) xs) (omega arith) (sort_by-Ascending xs)

  pub AscendingFrom-weaken :
      (m n : ℕ) (xs : List A) → m ≤ n → AscendingFrom key n xs → AscendingFrom key m xs
  AscendingFrom-weaken m n [] h s = tt
  AscendingFrom-weaken m n (x ∷ xs) h s = (omega arith, s.1)

  pub AscendingFrom-select :
      (n : ℕ) (p : A → Bool) (xs : List A)
      → AscendingFrom key n xs
      → AscendingFrom key n (select p xs)
  unfolding select
  AscendingFrom-select n p [] s = tt
  AscendingFrom-select n p (x ∷ xs) s = elim (Bool-cases (p x)) [
    | inl e ↦ rw e (s.0, AscendingFrom-select (key x) p xs s.1)
    | inr e ↦
        rw e
          (AscendingFrom-weaken n (key x) (select p xs) s.0 (AscendingFrom-select (key x) p xs s.1))
  ]

  pub AscendingFrom-take :
      (m n : ℕ) (xs : List A) → AscendingFrom key n xs → AscendingFrom key n (take m xs)
  AscendingFrom-take zero n xs s = tt
  AscendingFrom-take (suc m) n [] s = tt
  AscendingFrom-take (suc m) n (x ∷ xs) s = (s.0, AscendingFrom-take m (key x) xs s.1)

  pub AscendingFrom-image {κ} :
      {B : Type κ} (rank : B → ℕ) (f : A → B) (n : ℕ) (xs : List A)
      → All (λ a. key a ≡ rank (f a)) xs
      → AscendingFrom key n xs
      → AscendingFrom rank n (map f xs)
  AscendingFrom-image rank f n [] h s = tt
  AscendingFrom-image rank f n (x ∷ xs) h s =
      (omega arith, rw h.0 at (AscendingFrom-image rank f (key x) xs h.1 s.1))

module _ {ℓ} {A : Type ℓ} where
  insert_by-All {κ} :
      (P : A → Type κ) (less : A → A → Bool) (a : A) (xs : List A)
      → P a
      → All P xs
      → All P (insert_by less a xs)
  unfolding insert_by
  insert_by-All P less a [] h k = (h, tt)
  insert_by-All P less a (x ∷ xs) h k = elim (Bool-cases (less a x)) [
    | inl e ↦ rw e (h, (k.0, k.1))
    | inr e ↦ rw e (k.0, insert_by-All P less a xs h k.1)
  ]

  pub sort_by-All {κ} :
      (P : A → Type κ) (less : A → A → Bool) (xs : List A) → All P xs → All P (sort_by less xs)
  unfolding sort_by
  sort_by-All P less [] h = tt
  sort_by-All P less (x ∷ xs) h =
      insert_by-All P less x (sort_by less xs) h.0 (sort_by-All P less xs h.1)

-- Of an ascending list, what `take n` leaves out is no nearer than what it keeps, and then it
-- keeps `n`.
pub Has-take_or_above :
    {A : Type 0} (key : A → ℕ) (n m : ℕ) (a : A) (xs : List A)
    → AscendingFrom key m xs
    → Has a xs
    → Has a (take n xs)
      ⊎ ((length (take n xs) ≡ n) × All (λ b. key b ≤ key a) (take n xs) × (m ≤ key a))
Has-take_or_above key zero m a (x ∷ xs) s (inl e) = inr (refl, tt, rw e s.0)
Has-take_or_above key zero m a (x ∷ xs) s (inr h) =
    elim (Has-take_or_above key zero (key x) a xs s.1 h) [
      | inl k ↦ absurd k
      | inr (l, k, o) ↦ inr (refl, tt, omega arith)
    ]
Has-take_or_above key (suc n) m a (x ∷ xs) s (inl e) = inl (inl e)
Has-take_or_above key (suc n) m a (x ∷ xs) s (inr h) =
    elim (Has-take_or_above key n (key x) a xs s.1 h) [
      | inl k ↦ inl (inr k)
      | inr (l, k, o) ↦ inr (omega arith, (o, k), omega arith)
    ]
Has-take_or_above key zero m a [] s h = absurd h
Has-take_or_above key (suc n) m a [] s h = absurd h

-- Sorting neither loses nor makes up an element.
Has-insert_by_iff :
    {A : Type 0} (less : A → A → Bool) (b a : A) (xs : List A)
    → Has b (insert_by less a xs) ↔ ((b ≡ a) ⊎ Has b xs)
unfolding insert_by
Has-insert_by_iff less b a [] = (λ m. m, λ m. m)
Has-insert_by_iff less b a (x ∷ xs) = ground (arith, Has-insert_by_iff less b a xs)

pub Has-sort_by_iff :
    {A : Type 0} (less : A → A → Bool) (b : A) (xs : List A) → Has b (sort_by less xs) ↔ Has b xs
unfolding sort_by
Has-sort_by_iff less b [] = (λ m. m, λ m. m)
Has-sort_by_iff less b (x ∷ xs) =
    ground (arith, Has-insert_by_iff less b x (sort_by less xs), Has-sort_by_iff less b xs)
