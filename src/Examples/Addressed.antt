-- ===== src/Examples/Addressed.antt =====
-- Addresses of a small network, on which the theorems of Filters are applied.
use kadrtt_test_plan.Base.{
  ℕ, ◌≡◌, refl, ◌↔◌, true, Option, none, some, List, [], ◌∷◌, Has, ltb, ◌==◌, if◌then◌else◌,
}
use kadrtt_test_plan.Keyspace.{Bytes, PeerId}
use kadrtt_test_plan.Filters.{
  Addresses, Conn, local_in, is_local, is_private_addr, is_public_addr, is_relay_addr, relay_in,
  contains, to4, in_addr_range, prefix_agrees, is_ip4, advertised_ips, is_advertised, is_direct,
  RouterCache, public_query_filter, public_routing_table_filter, private_routing_table_filter,
}
use kadrtt_test_plan.Filters.Public.{HasPublic, public_routing_table_filter-public_query_filter}
use kadrtt_test_plan.Filters.Local.{IsLocal, private_routing_table_filter_iff}

-- Address 1 is in the private network 10.0.0.0/8, 2 is public, 3 is the public one by a relay.
abbrev ip_of : ℕ → Option Bytes
ip_of a =
    if a == 1
    then some (10 ∷ 0 ∷ 0 ∷ 1 ∷ [])
    else if ltb a 4
    then some (8 ∷ 8 ∷ 8 ∷ 8 ∷ [])
    else none

abbrev codes_of : ℕ → List ℕ
codes_of a = if a == 3 then 4 ∷ 290 ∷ [] else 4 ∷ []

abbrev small_addresses : Addresses
small_addresses = record {
  to_ip = ip_of;
  codes = codes_of;
  p_circuit = 290;
  private4 = record { number = 10 ∷ 0 ∷ 0 ∷ 0 ∷ []; ones = 8 } ∷ [];
  unroutable4 = [];
  unroutable6 = [];
}

-- The one router has a gateway for all.
abbrev small_route : ℕ → Bytes → Option (Option Bytes)
small_route r ip = some (some (10 ∷ 0 ∷ 0 ∷ 254 ∷ []))

abbrev conns_to : List ℕ → List Conn
conns_to [] = []
conns_to (a ∷ addrs) = record { remote_peer = 5; remote_multiaddr = a } ∷ conns_to addrs

private_passes :
    private_routing_table_filter small_addresses small_route (some 7) [] (conns_to (2 ∷ 1 ∷ []))
    ≡ true
unfolding private_routing_table_filter local_in is_local is_private_addr is_public_addr
    is_relay_addr relay_in contains to4 in_addr_range prefix_agrees is_ip4 advertised_ips
    is_advertised is_direct
private_passes = refl

private_routing_table_filter_iff_example :
    (private_routing_table_filter small_addresses small_route
        (some 7)
        (2 ∷ [])
        (conns_to (3 ∷ 2 ∷ []))
      ≡ true)
    ↔ ((c : Conn) × Has c (conns_to (3 ∷ 2 ∷ []))
        × IsLocal small_addresses small_route (some 7) (2 ∷ []) c.remote_multiaddr)
private_routing_table_filter_iff_example =
    private_routing_table_filter_iff small_addresses small_route (some 7) (2 ∷ [])
      (conns_to (3 ∷ 2 ∷ []))

abbrev known_addresses : PeerId → List ℕ
known_addresses p = 1 ∷ 3 ∷ 2 ∷ []

public_routing_table_filter-public_query_filter_example :
    (public_routing_table_filter small_addresses known_addresses (conns_to (1 ∷ []))
      ≡ public_query_filter small_addresses (1 ∷ 3 ∷ 2 ∷ []))
    × ((public_query_filter small_addresses (1 ∷ 3 ∷ 2 ∷ []) ≡ true)
        ↔ HasPublic small_addresses (1 ∷ 3 ∷ 2 ∷ []))
public_routing_table_filter-public_query_filter_example =
    public_routing_table_filter-public_query_filter small_addresses known_addresses
      (record { remote_peer = 5; remote_multiaddr = 1 }) []

-- The router is named by the time at which it was made.
abbrev new_router : ℕ → Option ℕ
new_router t = some t

abbrev no_router : RouterCache ℕ
no_router = record { router = none; expires = 0 }
