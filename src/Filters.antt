-- ===== src/Filters.antt =====
-- The filters on addresses: dht/go-libp2p-kad-dht/dht_filters.go. An address is a number, and an IP
-- its bytes, 4 or 16 of them, as in the package net. `Addresses` has what the code takes from the
-- packages of multiaddresses.
pub mod Public
pub mod Local
pub mod Routers
use kadrtt_test_plan.Base.{
  ℕ, zero, suc, ◌+◌, ◌-◌, ◌/◌, ◌^◌, Bool, true, false, not, ◌&&◌, ◌||◌, Option, none, some, List,
  [], ◌∷◌, ltb, ◌==◌, if◌then◌else◌, length, take, get_elem?,
}
use kadrtt_test_plan.Keyspace.{Bytes, PeerId, bytes_equal}

-- net.IPNet: the network number, and the number of ones of the mask.
pub record IpNet : Type 0 where
  pub number : Bytes
  pub ones : ℕ

-- manet.ToIP, the protocol codes that ma.ForEach meets, the code of a circuit, and the lists of
-- private and unroutable networks of manet.
pub record Addresses : Type 0 where
  pub to_ip : ℕ → Option Bytes
  pub codes : ℕ → List ℕ
  pub p_circuit : ℕ
  pub private4 : List IpNet
  pub unroutable4 : List IpNet
  pub unroutable6 : List IpNet

abbrev pub v4_in_v6_prefix : Bytes
v4_in_v6_prefix = 0 ∷ 0 ∷ 0 ∷ 0 ∷ 0 ∷ 0 ∷ 0 ∷ 0 ∷ 0 ∷ 0 ∷ 255 ∷ 255 ∷ []

unfoldable pub drop_bytes : ℕ → Bytes → Bytes
drop_bytes zero ip = ip
drop_bytes (suc n) [] = []
drop_bytes (suc n) (b ∷ ip) = drop_bytes n ip

-- net.IP.To4; none for nil.
unfoldable pub to4 : Bytes → Option Bytes
to4 ip =
    if length ip == 4
    then some ip
    else if length ip == 16 && bytes_equal (take 12 ip) v4_in_v6_prefix
    then some (drop_bytes 12 ip)
    else none

unfoldable pub is_ip4 : Bytes → Bool
is_ip4 ip = elim (to4 ip) [ none ↦ false | some x ↦ true ]

-- The bytes agree under a mask of so many ones, and are as many.
unfoldable pub prefix_agrees : ℕ → Bytes → Bytes → Bool
prefix_agrees ones [] [] = true
prefix_agrees ones (a ∷ xs) (b ∷ ys) =
    (a / 2 ^ (8 - ones) == b / 2 ^ (8 - ones)) && prefix_agrees (ones - 8) xs ys
prefix_agrees ones _ _ = false

-- net.IPNet.Contains.
unfoldable pub contains : IpNet → Bytes → Bool
contains r ip = elim (to4 ip) [
  | none ↦ prefix_agrees r.ones ip r.number
  | some x ↦ prefix_agrees r.ones x r.number
]

-- net.IP.Equal.
unfoldable pub ip_equal : Bytes → Bytes → Bool
ip_equal x y =
    if length x == length y
    then bytes_equal x y
    else if (length x == 4) && (length y == 16)
    then bytes_equal (take 12 y) v4_in_v6_prefix && bytes_equal x (drop_bytes 12 y)
    else if (length x == 16) && (length y == 4)
    then bytes_equal (take 12 x) v4_in_v6_prefix && bytes_equal (drop_bytes 12 x) y
    else false

-- publicCIDR6, which is 2000::/3.
abbrev pub public6 : IpNet
public6 = record {
  number = 32 ∷ 0 ∷ 0 ∷ 0 ∷ 0 ∷ 0 ∷ 0 ∷ 0 ∷ 0 ∷ 0 ∷ 0 ∷ 0 ∷ 0 ∷ 0 ∷ 0 ∷ 0 ∷ [];
  ones = 3;
}

unfoldable pub in_addr_range : Bytes → List IpNet → Bool
in_addr_range ip [] = false
in_addr_range ip (r ∷ rs) = let rest = in_addr_range ip rs in if contains r ip then true else rest

unfoldable pub byte_is : ℕ → ℕ → Bytes → Bool
byte_is i b ip = elim (get_elem? ip i) [ none ↦ false | some x ↦ x == b ]

unfoldable pub is_eui : Bytes → Bool
is_eui ip = (length ip == 16) && (byte_is 11 255 ip && byte_is 12 254 ip)

unfoldable pub same_v6_net : Bytes → Bytes → Bool
same_v6_net a b = (length a == 16) && ((length b == 16) && bytes_equal (take 8 a) (take 8 b))

-- A connection, and the cache of the routing table of the system.
pub record Conn : Type 0 where
  pub remote_peer : PeerId
  pub remote_multiaddr : ℕ

pub record RouterCache (R : Type 0) : Type 0 where
  pub router : Option R
  pub expires : ℕ

-- 2 minutes, in nanoseconds.
abbrev pub router_cache_time : ℕ
router_cache_time = 120000000000

-- The cache as first read, and as it is under the lock, which another call may have written in
-- between; the times of both, and what netroute.New gives, none for nil. The router that is returned
-- is the one read at first, on every path.
unfoldable pub get_cached_router :
    {R : Type 0} → RouterCache R → RouterCache R → ℕ → ℕ → Option R → RouterCache R × Option R
get_cached_router seen locked now now' made =
    if ltb now seen.expires
    then (locked, seen.router)
    else if ltb now' locked.expires
    then (locked, seen.router)
    else (record { router = made; expires = now' + router_cache_time }, seen.router)

module _ (n : Addresses) where
  unfoldable pub is_public_addr : ℕ → Bool
  is_public_addr a = elim (n.to_ip a) [
    | none ↦ false
    | some ip ↦
        if is_ip4 ip
        then not (in_addr_range ip n.private4) && not (in_addr_range ip n.unroutable4)
        else contains public6 ip
  ]

  unfoldable pub is_private_addr : ℕ → Bool
  is_private_addr a = elim (n.to_ip a) [
    | none ↦ false
    | some ip ↦
        if is_ip4 ip
        then in_addr_range ip n.private4
        else not (contains public6 ip) && not (in_addr_range ip n.unroutable6)
  ]

  -- The calls of ma.ForEach, which end where the callback returns false.
  unfoldable pub relay_in : List ℕ → Bool → Bool
  relay_in [] found = found
  relay_in (c ∷ cs) found =
      let found' = c == n.p_circuit in
      let rest = relay_in cs found' in if not found' then rest else found'

  unfoldable pub is_relay_addr : ℕ → Bool
  is_relay_addr a = relay_in (n.codes a) false

  unfoldable pub public_addr_in : List ℕ → Bool → Bool
  public_addr_in [] has_public_addr = has_public_addr
  public_addr_in (a ∷ addrs) has_public_addr =
      public_addr_in addrs
        (if not (is_relay_addr a) && is_public_addr a then true else has_public_addr)

  unfoldable pub public_query_filter : List ℕ → Bool
  public_query_filter addrs = if length addrs == 0 then false else public_addr_in addrs false

  unfoldable pub private_query_filter : List ℕ → Bool
  private_query_filter addrs = ltb 0 (length addrs)

  unfoldable pub is_known_public : List ℕ → Bool
  is_known_public [] = false
  is_known_public (a ∷ addrs) =
      let rest = is_known_public addrs in
      if not (is_relay_addr a) && is_public_addr a then true else rest

  -- `known` is the peerstore's PeerInfo.
  unfoldable pub public_routing_table_filter : (PeerId → List ℕ) → List Conn → Bool
  public_routing_table_filter known [] = false
  public_routing_table_filter known (c ∷ conns) = is_known_public (known c.remote_peer)

  unfoldable pub advertised_ips : List ℕ → List Bytes
  advertised_ips [] = []
  advertised_ips (a ∷ addrs) =
      let rest = advertised_ips addrs in
      if is_public_addr a && not (is_relay_addr a)
      then elim (n.to_ip a) [ none ↦ rest | some ip ↦ ip ∷ rest ]
      else rest

  unfoldable pub is_own_network : Bytes → Bytes → Bool
  is_own_network i ip =
      if ip_equal i ip
      then true
      else if not (is_ip4 ip)
      then not (is_ip4 i) && (is_eui ip && same_v6_net i ip)
      else false

  unfoldable pub is_advertised : List Bytes → Bytes → Bool
  is_advertised [] ip = false
  is_advertised (i ∷ own) ip =
      let rest = is_advertised own ip in if is_own_network i ip then true else rest

  module _ {R : Type 0} (route : R → Bytes → Option (Option Bytes)) where
    -- `route` is the router's Route: none for an error, else the gateway, none for nil.
    unfoldable pub is_direct : Option R → Bytes → Bool
    is_direct none ip = false
    is_direct (some r) ip = elim (route r ip) [
      | none ↦ false
      | some gw ↦ elim gw [ none ↦ true | some g ↦ false ]
    ]

    -- The body of the loop over the connections.
    unfoldable pub is_local : Option R → List Bytes → ℕ → Bool
    is_local router own ra =
        if is_private_addr ra && not (is_relay_addr ra)
        then true
        else if is_public_addr ra
        then elim (n.to_ip ra) [
          | none ↦ false
          | some ip ↦ if is_advertised own ip then true else is_direct router ip
        ]
        else false

    unfoldable pub local_in : Option R → List Bytes → List Conn → Bool
    local_in router own [] = false
    local_in router own (c ∷ conns) =
        let rest = local_in router own conns in
        if is_local router own c.remote_multiaddr then true else rest

    unfoldable pub private_routing_table_filter : Option R → List ℕ → List Conn → Bool
    private_routing_table_filter router host_addrs conns =
        local_in router (advertised_ips host_addrs) conns
