-- ===== src/Base/Maps.antt =====
-- Go's maps by numbers: association lists, read at the first entry of a key.
use Prim.Native.Nat.{ℕ}
use mathlib.Core.Path.{◌≡◌, refl}
use mathlib.Core.Logic.{inl, inr}
use mathlib.Core.List.{List, [], ◌∷◌}
use mathlib.Core.Bool.{Bool, true, false}
use mathlib.Core.Option.{Option, none, some}
use native.Mathlib.Omega.{arith}
use kadrtt_test_plan.Base.Tests.{if◌then◌else◌, Bool-cases, ◌==◌}

abbrev pub Map : Type 0 → Type 0
Map V = List (ℕ × V)

module _ {V : Type 0} where
  unfoldable pub lookup : ℕ → Map V → Option V
  lookup k [] = none
  lookup k ((j, v) ∷ m) = if j == k then some v else lookup k m

  -- A write in place, or a new entry at the end.
  unfoldable pub put : ℕ → V → Map V → Map V
  put k v [] = (k, v) ∷ []
  put k v ((j, w) ∷ m) = if j == k then (k, v) ∷ m else (j, w) ∷ put k v m

  -- Every entry of the key is dropped.
  unfoldable pub delete : ℕ → Map V → Map V
  delete k [] = []
  delete k ((j, w) ∷ m) = if j == k then delete k m else (j, w) ∷ delete k m

  -- `len(m) == 0`.
  abbrev pub is_empty : Map V → Bool
  is_empty [] = true
  is_empty (e ∷ m) = false

  pub lookup-put :
      (j k : ℕ) (v : V) (m : Map V) → lookup j (put k v m) ≡ (if k == j then some v else lookup j m)
  unfolding lookup put
  lookup-put j k v [] = ground arith
  lookup-put j k v ((i, w) ∷ m) = ground (arith, lookup-put j k v m)

  pub lookup-delete :
      (j k : ℕ) (m : Map V) → lookup j (delete k m) ≡ (if k == j then none else lookup j m)
  unfolding lookup delete
  lookup-delete j k [] = ground arith
  lookup-delete j k ((i, w) ∷ m) = ground (arith, lookup-delete j k m)

  pub lookup-is_empty : (k : ℕ) (m : Map V) → is_empty m ≡ true → lookup k m ≡ none
  unfolding lookup
  lookup-is_empty k [] e = refl
  lookup-is_empty k (x ∷ m) e = cc

-- No key has two entries.
abbrev pub IsMap : {V : Type 0} → Map V → Type 0
IsMap [] = Unit
IsMap ((k, v) ∷ m) = (lookup k m ≡ none) × IsMap m

module _ {V : Type 0} where
  pub put-IsMap : (k : ℕ) (v : V) (m : Map V) → IsMap m → IsMap (put k v m)
  unfolding put lookup
  put-IsMap k v [] d = (refl, tt)
  put-IsMap k v ((j, w) ∷ m) d = elim (Bool-cases (j == k)) [
    | inl e ↦ rw e (ground arith, d.1)
    | inr e ↦ rw e (ground (arith, lookup-put j k v m), put-IsMap k v m d.1)
  ]

  pub delete-IsMap : (k : ℕ) (m : Map V) → IsMap m → IsMap (delete k m)
  unfolding delete
  delete-IsMap k [] d = tt
  delete-IsMap k ((j, w) ∷ m) d = elim (Bool-cases (j == k)) [
    | inl e ↦ rw e (delete-IsMap k m d.1)
    | inr e ↦ rw e (ground (arith, lookup-delete j k m), delete-IsMap k m d.1)
  ]

  pub delete_absent : (k : ℕ) (m : Map V) → lookup k m ≡ none → delete k m ≡ m
  unfolding delete lookup
  delete_absent k [] e = refl
  delete_absent k ((j, w) ∷ m) e = ground (arith, delete_absent k m)
