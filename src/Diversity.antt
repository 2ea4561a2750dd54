-- ===== src/Diversity.antt =====
-- The limits on peers of one IP group: dht/go-libp2p-kbucket/peerdiversity/filter.go, and
-- dht/go-libp2p-kad-dht/rt_diversity_filter.go, which implements its PeerIPGroupFilter. A group key
-- is a number, 0 for the empty string; a multiaddr and a net.IP are numbers too.
pub mod Counts
pub mod Tallies
pub mod Records
pub mod Limits
use kadrtt_test_plan.Base.{
  ℕ, zero, suc, ◌+◌, ◌≡◌, Bool, true, false, ◌&&◌, Option, none, some, List, [], ◌∷◌, ◌++◌, map,
  ltb, ◌==◌, if◌then◌else◌, ◌>>=◌, Map, lookup, put, delete, is_empty, sort_by,
}
use kadrtt_test_plan.Keyspace.{PeerId}

-- A Go int; `negsuc n` is -(n + 1).
pub data ℤ : Type 0 where
  pos : ℕ → ℤ
  negsuc : ℕ → ℤ

unfoldable pub increase : ℤ → ℤ
increase (pos n) = pos (suc n)
increase (negsuc zero) = pos 0
increase (negsuc (suc n)) = negsuc n

unfoldable pub decrease : ℤ → ℤ
decrease (pos zero) = negsuc 0
decrease (pos (suc n)) = pos n
decrease (negsuc n) = negsuc (suc n)

unfoldable pub is_zero : ℤ → Bool
is_zero (pos zero) = true
is_zero _ = false

-- `n < limit`, for a limit that is not negative.
unfoldable pub is_below : ℤ → ℕ → Bool
is_below (pos n) limit = ltb n limit
is_below (negsuc n) limit = true

pub record PeerGroupInfo : Type 0 where
  pub id : PeerId
  pub cpl : ℕ
  pub ip_group_key : ℕ

-- rtPeerIPGroupFilter.
pub record GroupCounts : Type 0 where
  pub max_per_cpl : ℕ
  pub max_for_table : ℕ
  pub cpl_ip_group_count : Map (Map ℤ)
  pub table_ip_group_count : Map ℤ

-- Reading a missing key gives the zero value.
unfoldable pub count_at : ℕ → Map ℤ → ℤ
count_at key m = elim (lookup key m) [ some n ↦ n | none ↦ pos 0 ]

unfoldable pub new_rt_peer_diversity_filter : ℕ → ℕ → GroupCounts
new_rt_peer_diversity_filter max_per_cpl max_for_table = record {
  max_per_cpl = max_per_cpl;
  max_for_table = max_for_table;
  cpl_ip_group_count = [];
  table_ip_group_count = [];
}

unfoldable pub allow : PeerGroupInfo → GroupCounts → Bool
allow g r =
    if is_below (count_at g.ip_group_key r.table_ip_group_count) r.max_for_table
    then elim (lookup g.cpl r.cpl_ip_group_count) [
      | none ↦ true
      | some c ↦ is_below (count_at g.ip_group_key c) r.max_per_cpl
    ]
    else false

-- The inner map, made where it is missing.
unfoldable pub inner_map : {V : Type 0} → ℕ → Map (Map V) → Map V
inner_map cpl m = elim (lookup cpl m) [ some c ↦ c | none ↦ [] ]

unfoldable pub increment : PeerGroupInfo → GroupCounts → GroupCounts
increment g r =
    let key = g.ip_group_key in
    let c = inner_map g.cpl r.cpl_ip_group_count in
    record r {
      table_ip_group_count =
          put key (increase (count_at key r.table_ip_group_count)) r.table_ip_group_count;
      cpl_ip_group_count = put g.cpl (put key (increase (count_at key c)) c) r.cpl_ip_group_count;
    }

-- The count falls by one, and its key is deleted at 0.
unfoldable pub lower : ℕ → Map ℤ → Map ℤ
lower key m =
    let n = decrease (count_at key m) in if is_zero n then delete key (put key n m) else put key n m

-- A write to a missing inner map, which is nil, panics.
unfoldable pub decrement : PeerGroupInfo → GroupCounts → Option GroupCounts
decrement g r = elim (lookup g.cpl r.cpl_ip_group_count) [
  | none ↦ none
  | some c ↦
      let c' = lower g.ip_group_key c in
      some (record r {
        table_ip_group_count = lower g.ip_group_key r.table_ip_group_count;
        cpl_ip_group_count =
            if is_empty c'
            then delete g.cpl r.cpl_ip_group_count
            else put g.cpl c' r.cpl_ip_group_count;
      })
]

-- What the filter takes from elsewhere: the connections' addresses, manet.ToIP, net.IP, the ASN
-- store and the ranger of the legacy networks. Each that may fail is an Option.
pub record Network : Type 0 where
  pub peer_addresses : PeerId → List ℕ
  pub to_ip : ℕ → Option ℕ
  pub is_ipv4 : ℕ → Bool
  pub asn_for_ipv6 : ℕ → Option ℕ
  pub unknown_asn : ℕ
  pub in_legacy_class_a : ℕ → Bool
  pub masked8 : ℕ → ℕ
  pub masked16 : ℕ → ℕ
  pub cpl_fnc : PeerId → ℕ

-- Filter. `wlpeers` has an entry for each whitelisted peer.
pub record Filter : Type 0 where
  pub pgm : GroupCounts
  pub peer_groups : Map (List PeerGroupInfo)
  pub wlpeers : Map Bool
  pub cpl_peer_groups : Map (Map (List ℕ))

unfoldable pub new_filter : GroupCounts → Filter
new_filter pgm = record { pgm = pgm; peer_groups = []; wlpeers = []; cpl_peer_groups = [] }

-- A missing entry is the nil slice.
unfoldable pub groups_at : {V : Type 0} → ℕ → Map (List V) → List V
groups_at p m = elim (lookup p m) [ some gs ↦ gs | none ↦ [] ]

unfoldable pub decrement_all : List PeerGroupInfo → GroupCounts → Option GroupCounts
decrement_all [] r = some r
decrement_all (g ∷ gs) r = decrement g r >>= λ r'. decrement_all gs r'

unfoldable pub add_group : PeerId → ℕ → PeerGroupInfo → Filter → Filter
add_group p cpl g f =
    let c = inner_map cpl f.cpl_peer_groups in
    record f {
      pgm = increment g f.pgm;
      peer_groups = put p (groups_at p f.peer_groups ++ g ∷ []) f.peer_groups;
      cpl_peer_groups = put cpl (put p (groups_at p c ++ g.ip_group_key ∷ []) c) f.cpl_peer_groups;
    }

unfoldable pub add_groups : PeerId → ℕ → List PeerGroupInfo → Filter → Filter
add_groups p cpl [] f = f
add_groups p cpl (g ∷ gs) f = add_groups p cpl gs (add_group p cpl g f)

unfoldable pub whitelist_peers : List PeerId → Filter → Filter
whitelist_peers [] f = f
whitelist_peers (p ∷ ps) f = whitelist_peers ps (record f { wlpeers = put p true f.wlpeers })

module _ (net : Network) where
  unfoldable pub ip_group_key : ℕ → Option ℕ
  ip_group_key ip =
      if net.is_ipv4 ip
      then some (if net.in_legacy_class_a ip then net.masked8 ip else net.masked16 ip)
      else (net.asn_for_ipv6 ip >>= λ s. some (if s == 0 then net.unknown_asn else s))

  unfoldable pub remove : PeerId → Filter → Option Filter
  remove p f = decrement_all (groups_at p f.peer_groups) f.pgm >>= λ pgm.
      let cpl = net.cpl_fnc p in
      let c = delete p (inner_map cpl f.cpl_peer_groups) in
      some (record f {
        pgm = pgm;
        peer_groups = delete p f.peer_groups;
        cpl_peer_groups =
            if is_empty c then delete cpl f.cpl_peer_groups else put cpl c f.cpl_peer_groups;
      })

  -- The group of one address, if it is allowed.
  unfoldable pub group_of : PeerId → GroupCounts → ℕ → Option PeerGroupInfo
  group_of p pgm a = do
    ip ← net.to_ip a
    key ← ip_group_key ip
    let group : PeerGroupInfo = record { id = p; cpl = net.cpl_fnc p; ip_group_key = key }
    if key == 0 then none else if allow group pgm then some group else none

  -- `none` where an address is refused. Nothing is counted before all the addresses are checked.
  unfoldable pub groups_of : PeerId → GroupCounts → List ℕ → Option (List PeerGroupInfo)
  groups_of p pgm [] = some []
  groups_of p pgm (a ∷ addrs) =
      group_of p pgm a >>= λ g. groups_of p pgm addrs >>= λ gs. some (g ∷ gs)

  -- The peer's own maps exist from here on.
  unfoldable pub admit_groups : PeerId → List PeerGroupInfo → Filter → Filter
  admit_groups p gs f =
      let cpl = net.cpl_fnc p in
      add_groups p cpl gs
        (record f { cpl_peer_groups = put cpl (inner_map cpl f.cpl_peer_groups) f.cpl_peer_groups })

  unfoldable pub try_add : PeerId → Filter → Filter × Bool
  try_add p f = elim (lookup p f.wlpeers) [
    | some w ↦ (f, true)
    | none ↦ elim (net.peer_addresses p) [
      | [] ↦ (f, false)
      | a ∷ addrs ↦ elim (groups_of p f.pgm (a ∷ addrs)) [
        | none ↦ (f, false)
        | some gs ↦ (admit_groups p gs f, true)
      ]
    ]
  ]

-- The groups of each prefix length, the lengths ascending.
unfoldable pub get_diversity_stats : Filter → List (ℕ × Map (List ℕ))
get_diversity_stats f = sort_by (λ a b. ltb a.0 b.0) f.cpl_peer_groups
