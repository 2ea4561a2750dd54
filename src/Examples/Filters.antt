-- ===== src/Examples/Filters.antt =====
-- The diversity filter on a small network. Peers 1 and 2 have two addresses each, in different
-- groups, and peer 3 has two in one group.
use kadrtt_test_plan.Base.{
  ℕ, ◌/◌, ◌≡◌, refl, true, false, none, some, List, [], ◌∷◌, ◌==◌, if◌then◌else◌, lookup, put,
  delete, arith,
}
use kadrtt_test_plan.Keyspace.{PeerId}
use kadrtt_test_plan.Diversity.{
  pos, PeerGroupInfo, is_below, count_at, inner_map, allow, group_of, ip_group_key, admit_groups,
  add_groups, add_group, increment, increase, new_rt_peer_diversity_filter, Filter, Network,
  new_filter, groups_of, try_add, remove,
}
use kadrtt_test_plan.Diversity.Counts.{table_count, cpl_count}
use kadrtt_test_plan.Diversity.Tallies.{tally, IsCounted}
use kadrtt_test_plan.Diversity.Records.{try_add-IsCounted, remove_total, remove-try_add}
use kadrtt_test_plan.Diversity.Limits.{IsWithin, try_add-IsWithin, try_add_over}

abbrev addresses : PeerId → List ℕ
addresses p = if p == 3 then 100 ∷ 101 ∷ [] else 100 ∷ 200 ∷ []

abbrev small_net : Network
small_net = record {
  peer_addresses = addresses;
  to_ip = some;
  is_ipv4 = λ ip. true;
  asn_for_ipv6 = λ ip. none;
  unknown_asn = 9;
  in_legacy_class_a = λ ip. false;
  masked8 = λ ip. ip / 100;
  masked16 = λ ip. ip / 10;
  cpl_fnc = λ p. p;
}

-- One address of a group for each prefix length, and `limit` in the table.
abbrev fresh : ℕ → Filter
fresh limit = new_filter (new_rt_peer_diversity_filter 1 limit)

fresh-IsCounted : (limit : ℕ) → IsCounted (fresh limit)
unfolding new_filter new_rt_peer_diversity_filter tally count_at inner_map lookup
fresh-IsCounted limit = record { map = tt; counted = (λ k. refl, λ c k. refl) }

fresh-IsWithin : (limit : ℕ) → IsWithin (fresh limit)
unfolding new_filter new_rt_peer_diversity_filter tally
fresh-IsWithin limit = record { table = λ k. omega arith; cpls = λ c k. omega arith }

abbrev group : PeerId → ℕ → PeerGroupInfo
group p key = record { id = p; cpl = p; ip_group_key = key }

-- Peer 1 is in the filter.
abbrev one_peer : Filter
one_peer = (try_add small_net 1 (fresh 2)).0

one_peer-IsCounted : IsCounted one_peer
one_peer-IsCounted = try_add-IsCounted small_net 1 (fresh 2) (fresh-IsCounted 2)

try_add-IsCounted_example : IsCounted (try_add small_net 2 one_peer).0
try_add-IsCounted_example = try_add-IsCounted small_net 2 one_peer one_peer-IsCounted

remove_total_example :
    (f' : Filter) × (remove small_net 1 one_peer ≡ some f')
    × IsCounted f'
    × (f'.peer_groups ≡ delete 1 one_peer.peer_groups)
remove_total_example = remove_total small_net 1 one_peer one_peer-IsCounted

remove-try_add_example :
    (f' : Filter) × (remove small_net 2 (try_add small_net 2 one_peer).0 ≡ some f')
    × ((k : ℕ) → table_count k f'.pgm ≡ table_count k one_peer.pgm)
    × ((c k : ℕ) → cpl_count c k f'.pgm ≡ cpl_count c k one_peer.pgm)
    × ((q : PeerId) → lookup q f'.peer_groups ≡ lookup q one_peer.peer_groups)
unfolding remove try_add lookup new_filter groups_of group_of ip_group_key allow is_below count_at
    new_rt_peer_diversity_filter admit_groups add_groups add_group put increment increase
remove-try_add_example = remove-try_add small_net 2 one_peer one_peer-IsCounted refl refl refl

one_peer-IsWithin : IsWithin one_peer
unfolding groups_of group_of ip_group_key allow is_below count_at lookup new_filter
    new_rt_peer_diversity_filter
one_peer-IsWithin =
    try_add-IsWithin small_net 1 (fresh 2) (group 1 10 ∷ group 1 20 ∷ []) (fresh-IsCounted 2)
      (fresh-IsWithin 2) (omega arith) refl (ground arith)

try_add-IsWithin_example : IsWithin (try_add small_net 2 one_peer).0
unfolding try_add groups_of group_of ip_group_key allow is_below count_at lookup new_filter
    new_rt_peer_diversity_filter admit_groups add_groups add_group put increment increase
try_add-IsWithin_example =
    try_add-IsWithin small_net 2 one_peer (group 2 10 ∷ group 2 20 ∷ []) one_peer-IsCounted
      one_peer-IsWithin (omega arith) refl (ground arith)

-- Peer 3 has two addresses in group 10, which has room for one.
try_add_over_example :
    ((try_add small_net 3 (fresh 1)).1 ≡ true)
    × (table_count 10 (try_add small_net 3 (fresh 1)).0.pgm ≡ pos 2)
unfolding groups_of group_of ip_group_key allow is_below count_at lookup new_filter
    new_rt_peer_diversity_filter tally
try_add_over_example =
    try_add_over small_net 3 (fresh 1) (group 3 10) (fresh-IsCounted 1) refl refl refl
