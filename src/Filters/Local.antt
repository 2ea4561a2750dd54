-- ===== src/Filters/Local.antt =====
-- Which connections PrivateRoutingTableFilter takes for local ones.
use kadrtt_test_plan.Base.{
  ℕ, ◌≡◌, refl, ◌↔◌, ◌⊎◌, inl, inr, true, false, not, ◌&&◌, Option, none, some, List, [], ◌∷◌, Has,
  Bool-cases, Option-cases, arith,
}
use kadrtt_test_plan.Keyspace.{Bytes}
use kadrtt_test_plan.Filters.{
  Addresses, Conn, is_ip4, ip_equal, is_eui, same_v6_net, is_public_addr, is_private_addr,
  is_relay_addr, advertised_ips, is_own_network, is_advertised, is_direct, is_local, local_in,
  private_routing_table_filter,
}
use kadrtt_test_plan.Filters.Public.{is_relay_addr_iff}

module _ (n : Addresses) where
  -- An address with an IP that is public, and no circuit.
  abbrev pub Advertised : List ℕ → Bytes → Type 0
  Advertised [] i = ⊥
  Advertised (a ∷ addrs) i =
      ((n.to_ip a ≡ some i) × (is_public_addr n a ≡ true) × ¬ (Has n.p_circuit (n.codes a)))
      ⊎ Advertised addrs i

  -- The same IP, or one of the same IPv6 network that is made from a hardware address.
  abbrev pub SameNetwork : Bytes → Bytes → Type 0
  SameNetwork i ip =
      (ip_equal i ip ≡ true)
      ⊎ ((is_ip4 i ≡ false) × (is_ip4 ip ≡ false) × (is_eui ip ≡ true) × (same_v6_net i ip ≡ true))

  is_own_network_iff : (i ip : Bytes) → (is_own_network n i ip ≡ true) ↔ SameNetwork i ip
  unfolding is_own_network
  is_own_network_iff i ip = ground arith

  is_advertised_iff :
      (own : List Bytes) (ip : Bytes)
      → (is_advertised n own ip ≡ true) ↔ ((i : Bytes) × Has i own × SameNetwork i ip)
  unfolding is_advertised
  is_advertised_iff [] ip = (λ e. absurd cc, λ (i, h, s). absurd h)
  is_advertised_iff (i ∷ own) ip = elim (Bool-cases (is_own_network n i ip)) [
    | inl e ↦ (λ h. (i, inl refl, (is_own_network_iff i ip).0 e), λ x. rw e refl)
    | inr e ↦ (
      λ h. let (j, m, s) = (is_advertised_iff own ip).0 (rw e at h) in (j, inr m, s),
      λ (j, m, s). rw e (elim m [
        | inl q ↦ absurd (ground (arith, (is_own_network_iff i ip).1 (rw (← q) s)))
        | inr m' ↦ (is_advertised_iff own ip).1 (j, m', s)
      ]),
    )
  ]

  Has-advertised_ips_iff :
      (addrs : List ℕ) (i : Bytes) → Has i (advertised_ips n addrs) ↔ Advertised addrs i
  unfolding advertised_ips
  Has-advertised_ips_iff [] i = ground arith
  Has-advertised_ips_iff (a ∷ addrs) i = elim (Option-cases (n.to_ip a)) [
    | inl e ↦ rw e (ground (arith, Has-advertised_ips_iff addrs i))
    | inr (ip, e) ↦ elim (Bool-cases (is_public_addr n a && not (is_relay_addr n a))) [
      | inl b ↦ rw e (rw b (ground (arith, Has-advertised_ips_iff addrs i, is_relay_addr_iff n a)))
      | inr b ↦ rw e (rw b (ground (arith, Has-advertised_ips_iff addrs i, is_relay_addr_iff n a)))
    ]
  ]

  -- An IP that the host advertises, or in whose network it is.
  abbrev pub IsOwn : List ℕ → Bytes → Type 0
  IsOwn host_addrs ip = (i : Bytes) × Advertised host_addrs i × SameNetwork i ip

  is_advertised-IsOwn_iff :
      (host_addrs : List ℕ) (ip : Bytes)
      → (is_advertised n (advertised_ips n host_addrs) ip ≡ true) ↔ IsOwn host_addrs ip
  is_advertised-IsOwn_iff host_addrs ip = (
    λ e.
        let (i, h, s) = (is_advertised_iff (advertised_ips n host_addrs) ip).0 e in
        (i, (Has-advertised_ips_iff host_addrs i).0 h, s),
    λ (i, h, s).
        (is_advertised_iff (advertised_ips n host_addrs) ip).1
          (i, (Has-advertised_ips_iff host_addrs i).1 h, s),
  )

  module _ {R : Type 0} (route : R → Bytes → Option (Option Bytes)) where
    -- A router routes to the IP without a gateway.
    abbrev pub Direct : Option R → Bytes → Type 0
    Direct none ip = ⊥
    Direct (some r) ip = route r ip ≡ some none

    is_direct_iff :
        (router : Option R) (ip : Bytes) → (is_direct n route router ip ≡ true) ↔ Direct router ip
    unfolding is_direct
    is_direct_iff none ip = ground arith
    is_direct_iff (some r) ip = elim (Option-cases (route r ip)) [
      | inl e ↦ rw e (ground arith)
      | inr (none, e) ↦ rw e (ground arith)
      | inr (some g, e) ↦ rw e (ground arith)
    ]

    -- A private address without a circuit; or a public one whose IP the host advertises, or shares a
    -- network with, or reaches without a gateway.
    abbrev pub IsLocal : Option R → List ℕ → ℕ → Type 0
    IsLocal router host_addrs ra =
        ((is_private_addr n ra ≡ true) × ¬ (Has n.p_circuit (n.codes ra)))
        ⊎ ((is_public_addr n ra ≡ true)
            × ((ip : Bytes) × (n.to_ip ra ≡ some ip) × (IsOwn host_addrs ip ⊎ Direct router ip)))

    is_local_iff :
        (router : Option R) (host_addrs : List ℕ) (ra : ℕ)
        → (is_local n route router (advertised_ips n host_addrs) ra ≡ true)
          ↔ IsLocal router host_addrs ra
    unfolding is_local
    is_local_iff router host_addrs ra =
        elim (Bool-cases (is_private_addr n ra && not (is_relay_addr n ra))) [
          | inl e ↦ ground (arith, is_relay_addr_iff n ra)
          | inr e ↦
              let apart : ¬ ((is_private_addr n ra ≡ true) × ¬ (Has n.p_circuit (n.codes ra))) =
                ground (arith, is_relay_addr_iff n ra) in
              elim (Bool-cases (is_public_addr n ra)) [
                | inr f ↦ rw (e, is_local) (rw f (ground (arith, is_relay_addr_iff n ra)))
                | inl f ↦ elim (Option-cases (n.to_ip ra)) [
                  | inl g ↦
                      rw (e, is_local)
                        (rw f (
                          rw g (
                            λ z. absurd cc,
                            λ p. elim p [
                              | inl q ↦ absurd (apart q)
                              | inr (t, (ip, z, w)) ↦ absurd cc
                            ],
                          )))
                  | inr (ip, g) ↦
                      let own = is_advertised-IsOwn_iff host_addrs ip in
                      let direct = is_direct_iff router ip in
                      elim (Bool-cases (is_advertised n (advertised_ips n host_addrs) ip)) [
                        | inl h ↦
                            rw (e, is_local)
                              (rw f (
                                rw g
                                  (rw h (λ z. inr (refl, (ip, refl, inl (own.0 h))), λ p. refl))))
                        | inr h ↦
                            rw (e, is_local)
                              (rw f (
                                rw g (
                                  rw h (
                                    λ d. inr (refl, (ip, refl, inr (direct.0 d))),
                                    λ p. elim p [
                                      | inl q ↦ absurd (apart q)
                                      | inr (t, (x, z, w)) ↦
                                          let same : ip ≡ x = cc in
                                          elim w [
                                            | inl o ↦ absurd (ground (arith, own.1 (rw same o)))
                                            | inr d ↦ direct.1 (rw same d)
                                          ]
                                    ],
                                  ))))
                      ]
                ]
              ]
        ]

    -- The filter lets a peer pass exactly if one of its connections is to a local address.
    pub private_routing_table_filter_iff :
        (router : Option R) (host_addrs : List ℕ) (conns : List Conn)
        → (private_routing_table_filter n route router host_addrs conns ≡ true)
          ↔ ((c : Conn) × Has c conns × IsLocal router host_addrs c.remote_multiaddr)
    unfolding private_routing_table_filter local_in
    private_routing_table_filter_iff router host_addrs [] = (λ e. absurd cc, λ (c, h, l). absurd h)
    private_routing_table_filter_iff router host_addrs (c ∷ conns) =
        elim (Bool-cases
          (is_local n route router (advertised_ips n host_addrs) c.remote_multiaddr)) [
            | inl e ↦ (
              λ h. (c, inl refl, (is_local_iff router host_addrs c.remote_multiaddr).0 e),
              λ x. rw e refl,
            )
            | inr e ↦ (
              λ h.
                  let (d, m, l) =
                    (private_routing_table_filter_iff router host_addrs conns).0 (rw e at h) in
                  (d, inr m, l),
              λ (d, m, l). rw e (elim m [
                | inl q ↦ absurd (
                    ground
                      (arith, (is_local_iff router host_addrs c.remote_multiaddr).1 (rw (← q) l)))
                | inr m' ↦ (private_routing_table_filter_iff router host_addrs conns).1 (d, m', l)
              ]),
            )
          ]
