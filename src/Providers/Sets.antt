-- ===== src/Providers/Sets.antt =====
-- providerSet: each peer with a time is listed.
use kadrtt_test_plan.Base.{
  ℕ, ◌≡◌, ◌⊎◌, inl, inr, refl, true, List, [], ◌∷◌, Has, Has-append_iff, Bool-cases, arith,
}
use kadrtt_test_plan.Keyspace.{Bytes, bytes_equal}
use kadrtt_test_plan.Keyspace.Order.{bytes_equal-eq}
use kadrtt_test_plan.Providers.{ProviderSet, new_provider_set, is_found, put_time, set_val}

-- Every peer of the map is in the list.
pub record IsListed (ps : ProviderSet) : Type 0 where
  pub listed : (p : Bytes) → is_found p ps.set ≡ true → Has p ps.providers

pub new_provider_set-IsListed : IsListed new_provider_set
unfolding new_provider_set is_found
new_provider_set-IsListed = record { listed = λ p e. absurd (ground arith) }

is_found-put_time :
    (q p : Bytes) (t : ℕ) (m : List (Bytes × ℕ))
    → is_found q (put_time p t m) ≡ true
    → (p ≡ q) ⊎ (is_found q m ≡ true)
unfolding is_found put_time
is_found-put_time q p t [] e = elim (Bool-cases (bytes_equal p q)) [
  | inl y ↦ inl (bytes_equal-eq p q y)
  | inr y ↦ absurd (ground arith)
]
is_found-put_time q p t ((r, u) ∷ m) e = elim (Bool-cases (bytes_equal r p)) [
  | inl y ↦ elim (Bool-cases (bytes_equal p q)) [
    | inl z ↦ inl (bytes_equal-eq p q z)
    | inr z ↦ inr (ground arith)
  ]
  | inr y ↦ elim (Bool-cases (bytes_equal r q)) [
    | inl z ↦ inr (ground arith)
    | inr z ↦ elim (is_found-put_time q p t m (ground arith)) [
      | inl same ↦ inl same
      | inr found ↦ inr (ground arith)
    ]
  ]
]

pub set_val-Has_other :
    (q p : Bytes) (t : ℕ) (ps : ProviderSet) → Has q ps.providers → Has q (set_val p t ps).providers
unfolding set_val
set_val-Has_other q p t ps h = elim (Bool-cases (is_found p ps.set)) [
  | inl e ↦ rw e h
  | inr e ↦ rw e ((Has-append_iff q ps.providers (p ∷ [])).1 (inl h))
]

pub set_val-Has :
    (p : Bytes) (t : ℕ) (ps : ProviderSet) → IsListed ps → Has p (set_val p t ps).providers
unfolding set_val
set_val-Has p t ps v = elim (Bool-cases (is_found p ps.set)) [
  | inl e ↦ rw e (v.listed p e)
  | inr e ↦ rw e ((Has-append_iff p ps.providers (p ∷ [])).1 (inr (inl refl)))
]

pub set_val-IsListed :
    (p : Bytes) (t : ℕ) (ps : ProviderSet) → IsListed ps → IsListed (set_val p t ps)
unfolding set_val
set_val-IsListed p t ps v = record {
  listed = λ q e. elim (is_found-put_time q p t ps.set e) [
    | inl same ↦ rw (← same) (set_val-Has p t ps v)
    | inr found ↦ set_val-Has_other q p t ps (v.listed q found)
  ];
}
