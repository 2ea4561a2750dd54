-- ===== src/Examples/Nodes.antt =====
-- The node and its table with IDs of 32 bytes.
use kadrtt_test_plan.Base.{
  ℕ, zero, suc, ◌≡◌, ◌≤◌, ◌<◌, ◌↔◌, ◌⊎◌, refl, ap, true, false, some, List, [], ◌∷◌, length, Has,
  arith,
}
use kadrtt_test_plan.Keyspace.{Bytes, PeerId, Hashing}
use kadrtt_test_plan.Table.{Env, Table, new_routing_table}
use kadrtt_test_plan.Table.Adding.{Request}
use kadrtt_test_plan.Table.Sound.{IsHashing, IsSound}
use kadrtt_test_plan.Table.Reachable.{
  TableOp, try_add_peer_kad_rtt, try_add_peer, remove_one, mark_all, run_ops, run_ops_total,
}
use kadrtt_test_plan.Node.{
  Node, AddPeerRtReq, LoopEvent, add_requested, ping_returned, refresh_finished, freeze_timeout,
  start_node, rt_peer_loop,
}
use kadrtt_test_plan.Node.Invariant.{IsNode, rt_peer_loop_total}
use kadrtt_test_plan.Node.Upkeep.{
  fix_low_peers, Stream, mode_auto, mode_server, mode_client, reachability_private,
  handle_local_reachability_changed, reset_stream, reachability_public, reachability_unknown,
  mode_auto_server,
}
use kadrtt_test_plan.Node.Fixed.{
  connected_of, fix_low_peers-dials, handle_local_reachability_changed-resets,
}
use kadrtt_test_plan.Examples.{small_env, xor_bytes, whole_floats}

abbrev zeros : ℕ → Bytes
zeros zero = []
zeros (suc n) = 0 ∷ zeros n

-- An ID's hash is its number, and zeros.
abbrev wide_hashing : Hashing
wide_hashing = record { xor = xor_bytes; sum256 = λ p. p ∷ zeros 31 }

abbrev wide_env : Env ℕ
wide_env = record small_env { hashing = wide_hashing }

length-xor_bytes : (a b : Bytes) → length a ≡ length b → length (xor_bytes a b) ≡ length a
length-xor_bytes [] b e = refl
length-xor_bytes (x ∷ a) [] e = absurd (omega arith)
length-xor_bytes (x ∷ a) (y ∷ b) e = ap suc (length-xor_bytes a b (omega arith))

wide_hashing-IsHashing : IsHashing wide_hashing
wide_hashing-IsHashing = record { length-sum256 = λ p. refl; length-xor = length-xor_bytes }

abbrev adding : PeerId → Request
adding p = record {
  peer = p;
  query_peer = true;
  is_replaceable = true;
  rtt = 2000000;
  now = 10;
  fuel = 257;
}

-- Three peers are added, one of them twice, one leaves, and the rest are frozen.
abbrev some_ops : List TableOp
some_ops =
    try_add_peer_kad_rtt (adding 130)
    ∷ try_add_peer_kad_rtt (adding 200)
    ∷ try_add_peer (adding 5)
    ∷ try_add_peer_kad_rtt (adding 200)
    ∷ remove_one 130
    ∷ mark_all
    ∷ []

run_ops_total_example :
    (t : Table ℕ) × (run_ops wide_env some_ops
        (new_routing_table whole_floats 2 (zeros 32) 100 7 (some 0) 1)
      ≡ some t)
    × IsSound wide_env t
run_ops_total_example =
    run_ops_total wide_env wide_hashing-IsHashing whole_floats 2 (zeros 32) 100 7 (some 0) 1
      some_ops refl (ground arith)

abbrev asking : PeerId → AddPeerRtReq
asking p = record { p = p; query_peer = true }

-- Two requests, whose pings return in the other order, two refreshes and the timeout.
abbrev some_events : List LoopEvent
some_events =
    add_requested (asking 130) 5 257
    ∷ add_requested (asking 200) 6 257
    ∷ ping_returned 1 9000000 8 257
    ∷ ping_returned 0 2000000 9 257
    ∷ refresh_finished
    ∷ refresh_finished
    ∷ freeze_timeout
    ∷ []

rt_peer_loop_total_example :
    (n : Node ℕ) × (rt_peer_loop wide_env true some_events
        (start_node (new_routing_table whole_floats 2 (zeros 32) 100 7 (some 0) 1))
      ≡ some n)
    × IsNode wide_env wide_hashing-IsHashing n
rt_peer_loop_total_example =
    rt_peer_loop_total wide_env wide_hashing-IsHashing whole_floats 2 (zeros 32) 100 7 (some 0) 1
      true some_events refl (ground arith)

abbrev no_peers : ℕ
no_peers = 0

-- Of four bootstrap peers the first does not answer, and the last is not dialed.
fix_low_peers-dials_example :
    let r =
      fix_low_peers 0 0 2 true (4 ∷ []) ((1, false) ∷ (2, true) ∷ (3, true) ∷ (6, true) ∷ []) in
    (connected_of r.dialed ≤ 2)
    × ((r.dialed ≡ [])
        ⊎ ((0 ≤ 10)
            × (no_peers ≡ 0)
            × ((r.dialed ≡ (1, false) ∷ (2, true) ∷ (3, true) ∷ (6, true) ∷ [])
                ⊎ (connected_of r.dialed ≡ 2))))
    × ((r.is_refreshed ≡ false) ⊎ ((0 ≤ 10) × (0 < 2)))
fix_low_peers-dials_example =
    fix_low_peers-dials 0 0 2 true (4 ∷ []) ((1, false) ∷ (2, true) ∷ (3, true) ∷ (6, true) ∷ [])

abbrev inbound : Stream
inbound = record { stream = 1; protocol = 7; is_inbound = true }

-- The node has become private.
handle_local_reachability_changed-resets_example :
    let a =
      handle_local_reachability_changed mode_auto reachability_private
        (7 ∷ [])
        (inbound ∷ [])
        mode_server in
    ((a.0 ≡ mode_server) ↔ (
      (reachability_private ≡ reachability_public)
      ⊎ ((reachability_private ≡ reachability_unknown) × (mode_auto ≡ mode_auto_server))))
    × (Has (reset_stream inbound) a.1 ↔ (
        (mode_server ≡ mode_server)
        × (a.0 ≡ mode_client)
        × Has inbound (inbound ∷ [])
        × (inbound.is_inbound ≡ true)
        × Has inbound.protocol (7 ∷ [])))
handle_local_reachability_changed-resets_example =
    handle_local_reachability_changed-resets mode_auto reachability_private (7 ∷ []) (inbound ∷ [])
      mode_server inbound
