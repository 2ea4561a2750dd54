-- ===== src/Handlers/Announcing.antt =====
-- What ADD_PROVIDER makes the node record.
use kadrtt_test_plan.Base.{
  ℕ, ◌≡◌, ◌≢◌, ◌<◌, ◌≤◌, inl, inr, refl, true, some, List, [], ◌∷◌, ltb, ◌==◌, All, Bool-cases,
  arith,
}
use kadrtt_test_plan.Keyspace.{PeerId}
use kadrtt_test_plan.Table.{Env}
use kadrtt_test_plan.Handlers.Peers.{
  AddrInfo, has_addrs, ProviderCall, addresses_added, provider_added, add_providers,
  handle_add_provider,
}

-- A call that is about the sender and the key of the message; addresses are of another node.
abbrev pub IsOwn : PeerId → PeerId → ℕ → ProviderCall → Type 0
IsOwn self from key (provider_added k p) = (k ≡ key) × (p ≡ from)
IsOwn self from key (addresses_added p addrs) = (p ≡ from) × (p ≢ self) × (addrs ≢ [])

has_addrs-ne : (i : AddrInfo) → has_addrs i ≡ true → i.addrs ≢ []
has_addrs-ne i e n = absurd (ground arith)

module _ {F : Type 0} (env : Env F) (self : PeerId) where
  add_providers-IsOwn :
      (from : PeerId) (key : ℕ) (infos : List AddrInfo)
      → All (IsOwn self from key) (add_providers env self from key infos)
  unfolding add_providers
  add_providers-IsOwn from key [] = tt
  add_providers-IsOwn from key (i ∷ infos) =
      let rest = add_providers-IsOwn from key infos in
      elim (Bool-cases (i.id == from)) [
        | inr e ↦ rw (add_providers, e) rest
        | inl e ↦ elim (Bool-cases (has_addrs i)) [
          | inr f ↦ rw (add_providers, e, f) rest
          | inl f ↦ elim (Bool-cases (i.id == self)) [
            | inl g ↦ rw (add_providers, e, f, g) ((refl, refl), rest)
            | inr g ↦
                rw (add_providers, e, f, g)
                  ((ground arith, ground arith, has_addrs-ne i f), ((refl, refl), rest))
          ]
        ]
      ]

  -- handleAddProvider takes a key of 1 to 80 bytes, and then records the sender of the message alone,
  -- for that key; the addresses that it keeps are the sender's, some, and not for the node itself.
  pub handle_add_provider-IsOwn :
      (from : PeerId) (key key_length : ℕ) (infos : List AddrInfo) (calls : List ProviderCall)
      → handle_add_provider env self from key key_length infos ≡ some calls
      → (0 < key_length) × (key_length ≤ 80) × All (IsOwn self from key) calls
  unfolding handle_add_provider
  handle_add_provider-IsOwn from key key_length infos calls e =
      elim (Bool-cases (ltb 80 key_length)) [
        | inl f ↦ absurd (ground arith)
        | inr f ↦ elim (Bool-cases (key_length == 0)) [
          | inl g ↦ absurd (ground arith)
          | inr g ↦
              let same : add_providers env self from key infos ≡ calls = ground arith in
              (ground arith, ground arith, rw (← same) (add_providers-IsOwn from key infos))
        ]
      ]
