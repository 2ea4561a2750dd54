-- ===== src/Providers/Keys.antt =====
-- The keys of the provider records, which NewKey of the datastore's package keeps as they are where
-- the key and the peer are not empty.
use kadrtt_test_plan.Base.{
  ℕ, ◌≡◌, ◌≢◌, ◌⊎◌, inl, inr, refl, Bool, true, false, [], ◌∷◌, ◌++◌, ◌==◌, All, arith,
}
use mathlib.Core.List.{append-nil}
use kadrtt_test_plan.Keyspace.{Bytes}
use kadrtt_test_plan.Providers.{Coding, slash, has_slash, mk_prov_key, mk_prov_key_for}

abbrev dot : ℕ
dot = 46

-- What follows is free of dots, of empty elements and of a slash at the end; `at_slash` tells whether
-- it comes after a slash.
abbrev CleanAfter : Bool → Bytes → Type 0
CleanAfter at_slash [] = at_slash ≡ false
CleanAfter at_slash (x ∷ xs) =
    (x ≢ dot) × ((x ≢ slash) ⊎ (at_slash ≡ false)) × CleanAfter (x == slash) xs

-- A path from the root that path.Clean leaves as it is.
abbrev pub IsClean : Bytes → Type 0
IsClean [] = ⊥
IsClean (x ∷ xs) = (x ≡ slash) × CleanAfter true xs

-- An encoding: no dots, no slash, and not empty.
abbrev pub IsPlain : Bytes → Type 0
IsPlain e = All (λ y. y ≢ dot) e × (has_slash e ≡ false) × (e ≢ [])

CleanAfter-append :
    (x : ℕ) (xs rest : Bytes) (at_slash : Bool)
    → All (λ y. y ≢ dot) (x ∷ xs)
    → has_slash (x ∷ xs) ≡ false
    → CleanAfter false rest
    → CleanAfter at_slash ((x ∷ xs) ++ rest)
unfolding has_slash
CleanAfter-append x [] rest at_slash a e c =
    let other : (x == slash) ≡ false = ground arith in (a.0, inl (ground arith), rw other c)
CleanAfter-append x (y ∷ xs) rest at_slash a e c =
    let other : (x == slash) ≡ false = ground arith in
    (a.0, inl (ground arith), CleanAfter-append y xs rest (x == slash) a.1 (ground arith) c)

CleanAfter-IsPlain :
    (e rest : Bytes) → IsPlain e → CleanAfter false rest → CleanAfter true (e ++ rest)
CleanAfter-IsPlain [] rest (a, s, n) c = absurd (n refl)
CleanAfter-IsPlain (x ∷ xs) rest (a, s, n) c = CleanAfter-append x xs rest true a s c

pub mk_prov_key_for-IsClean :
    (cd : Coding) (k p : Bytes)
    → IsPlain (cd.encode k)
    → IsPlain (cd.encode p)
    → IsClean (mk_prov_key_for cd k p)
unfolding mk_prov_key_for mk_prov_key
mk_prov_key_for-IsClean cd k p e f =
    let last : CleanAfter true (cd.encode p) =
      rw (append-nil (cd.encode p)) at (CleanAfter-IsPlain (cd.encode p) [] f refl) in
    let end : CleanAfter true (cd.encode k ++ slash ∷ cd.encode p) =
      CleanAfter-IsPlain (cd.encode k) (slash ∷ cd.encode p) e
        (λ q. absurd (omega arith), inr refl, last) in
    ground (arith, end)
