-- ===== src/Filters/Public.antt =====
-- The relayed and the public addresses, and the two filters that ask for a public one.
use kadrtt_test_plan.Base.{
  ℕ, ◌≡◌, sym, ◌∙◌, ◌↔◌, ◌⊎◌, inl, inr, Bool, true, false, not, ◌&&◌, List, [], ◌∷◌, ◌==◌, Has,
  Bool-cases, Option-cases, arith,
}
use kadrtt_test_plan.Keyspace.{PeerId}
use kadrtt_test_plan.Filters.{
  Addresses, Conn, is_public_addr, is_private_addr, relay_in, is_relay_addr, public_addr_in,
  public_query_filter, is_known_public, public_routing_table_filter,
}

module _ (n : Addresses) where
  relay_in_iff : (cs : List ℕ) → (relay_in n cs false ≡ true) ↔ Has n.p_circuit cs
  unfolding relay_in
  relay_in_iff [] = ground arith
  relay_in_iff (c ∷ cs) = elim (Bool-cases (c == n.p_circuit)) [
    | inl e ↦ ground arith
    | inr e ↦ ground (arith, relay_in_iff cs)
  ]

  pub is_relay_addr_iff : (a : ℕ) → (is_relay_addr n a ≡ true) ↔ Has n.p_circuit (n.codes a)
  unfolding is_relay_addr
  is_relay_addr_iff a = relay_in_iff (n.codes a)

  -- No address is both public and private, whatever the networks of the library.
  pub is_public_addr-is_private_addr :
      (a : ℕ) → is_public_addr n a ≡ true → is_private_addr n a ≡ false
  unfolding is_public_addr is_private_addr
  is_public_addr-is_private_addr a = elim (Option-cases (n.to_ip a)) [
    | inl e ↦ rw (e, is_public_addr, is_private_addr) (ground arith)
    | inr (ip, e) ↦ rw (e, is_public_addr, is_private_addr) (ground arith)
  ]

  -- An address without a circuit that is public.
  abbrev pub HasPublic : List ℕ → Type 0
  HasPublic [] = ⊥
  HasPublic (a ∷ addrs) =
      ((is_public_addr n a ≡ true) × ¬ (Has n.p_circuit (n.codes a))) ⊎ HasPublic addrs

  public_addr_in_iff :
      (addrs : List ℕ) (found : Bool)
      → (public_addr_in n addrs found ≡ true) ↔ ((found ≡ true) ⊎ HasPublic addrs)
  unfolding public_addr_in
  public_addr_in_iff [] found = ground arith
  public_addr_in_iff (a ∷ addrs) found =
      elim (Bool-cases (not (is_relay_addr n a) && is_public_addr n a)) [
        | inl e ↦ rw e (ground (arith, public_addr_in_iff addrs true, is_relay_addr_iff a))
        | inr e ↦ rw e (ground (arith, public_addr_in_iff addrs found, is_relay_addr_iff a))
      ]

  is_known_public_iff : (addrs : List ℕ) → (is_known_public n addrs ≡ true) ↔ HasPublic addrs
  unfolding is_known_public
  is_known_public_iff [] = ground arith
  is_known_public_iff (a ∷ addrs) =
      elim (Bool-cases (not (is_relay_addr n a) && is_public_addr n a)) [
        | inl e ↦ rw e (ground (arith, is_relay_addr_iff a))
        | inr e ↦ rw e (ground (arith, is_known_public_iff addrs, is_relay_addr_iff a))
      ]

  public_query_filter_iff :
      (addrs : List ℕ) → (public_query_filter n addrs ≡ true) ↔ HasPublic addrs
  unfolding public_query_filter
  public_query_filter_iff [] = ground arith
  public_query_filter_iff (a ∷ addrs) = ground (arith, public_addr_in_iff (a ∷ addrs) false)

  -- Where the peer is connected and the peerstore knows the addresses that the query has, the filter
  -- of the routing table and the filter of queries agree: both let the peer pass exactly if it has a
  -- public address without a circuit.
  pub public_routing_table_filter-public_query_filter :
      (known : PeerId → List ℕ) (c : Conn) (conns : List Conn)
      → (public_routing_table_filter n known (c ∷ conns)
          ≡ public_query_filter n (known c.remote_peer))
        × ((public_query_filter n (known c.remote_peer) ≡ true) ↔ HasPublic (known c.remote_peer))
  unfolding public_routing_table_filter
  public_routing_table_filter-public_query_filter known c conns =
      let k = is_known_public_iff (known c.remote_peer) in
      let q = public_query_filter_iff (known c.remote_peer) in
      (
        elim (Bool-cases (is_known_public n (known c.remote_peer))) [
          | inl e ↦ e ∙ sym (q.1 (k.0 e))
          | inr e ↦ elim (Bool-cases (public_query_filter n (known c.remote_peer))) [
            | inl f ↦ absurd (ground (arith, k.1 (q.0 f)))
            | inr f ↦ e ∙ sym f
          ]
        ],
        q,
      )
