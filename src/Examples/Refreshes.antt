-- ===== src/Examples/Refreshes.antt =====
-- The refresh of the table of five peers, with queries that always succeed.
use kadrtt_test_plan.Base.{
  ℕ, ◌+◌, ◌≡◌, ◌⊎◌, inr, refl, true, false, none, some, List, [], ◌∷◌, ◌++◌, ◌==◌, if◌then◌else◌,
  length, arith,
}
use kadrtt_test_plan.Table.{Table, get_peer_infos}
use kadrtt_test_plan.Table.Invariant.{IsPlaced}
use kadrtt_test_plan.Table.Tracked.{Word, same_bits, bits, id_of_key, gen_rand_peer_id}
use kadrtt_test_plan.Table.Tracked.Words.{common_bits, gen_rand_peer_id-common_bits}
use kadrtt_test_plan.Refresh.{
  no_error, Manager, RefreshError, State, do_refresh, evict, TriggerRefreshReq, turn,
}
use kadrtt_test_plan.Refresh.Sweep.{Whole, Gapped, do_refresh-generated}
use kadrtt_test_plan.Refresh.Turn.{channels, any_forced, turn_total}
use kadrtt_test_plan.Examples.{small_env, table_with, five_peers}
use kadrtt_test_plan.Examples.Tables.{five_peers-IsPlaced}

abbrev five_peer_table : Table ℕ
five_peer_table = table_with true 2 five_peers

-- The rest of the node is a clock, which a query moves on. Peer 20 does not answer a ping.
abbrev small_manager : Manager ℕ ℕ
small_manager = record {
  dht_peer_id = 0;
  refresh_key_gen = λ cpl w. (w, some (200 + cpl));
  refresh_query = λ key w t. record { world = w + 1; table = t; error = no_error; expired = false };
  connect = λ p w. (w, if p == 20 then false else true);
  now = λ w. w;
  signal_done = λ w. (w, true);
  refresh_interval = 5;
  successful_outbound_query_grace_period = 10;
}

abbrev at_start : State ℕ ℕ
at_start = record { world = 100; table = five_peer_table; calls = [] }

abbrev two_requests : List TriggerRefreshReq
two_requests =
    record { resp_ch = some 7; force_cpl_refresh = false }
    ∷ record { resp_ch = none; force_cpl_refresh = true }
    ∷ []

do_refresh-generated_example :
    (o : State ℕ ℕ × List RefreshError) × (do_refresh small_env small_manager true at_start
      ≡ some o)
    × (Whole small_env small_manager at_start o ⊎ Gapped small_env small_manager at_start o)
do_refresh-generated_example =
    do_refresh-generated small_env small_manager at_start (λ key w t v. v)
      (five_peers-IsPlaced true)

turn_total_example :
    (s1 : State ℕ ℕ) × (s2 : State ℕ ℕ) × (merr : List RefreshError) × (evict small_env
        small_manager
        (get_peer_infos five_peer_table)
        at_start
      ≡ some s1)
    × (do_refresh small_env small_manager true s1 ≡ some (s2, merr))
    × (turn small_env small_manager two_requests at_start ≡ some (s2, (7, merr) ∷ []))
    × IsPlaced small_env s2.table
unfolding channels any_forced
turn_total_example =
    turn_total small_env small_manager two_requests at_start (λ key w t v. v)
      (five_peers-IsPlaced true)

gen_rand_peer_id-common_bits_example :
    (w : Word) × (gen_rand_peer_id length
        (some (same_bits 16 true))
        9
        (record five_peer_table { local = 3 ∷ 255 ∷ 1 ∷ [] })
      ≡ some (inr (id_of_key (length w))))
    × (common_bits w (bits 8 3 ++ bits 8 255) ≡ 9)
unfolding same_bits
gen_rand_peer_id-common_bits_example =
    gen_rand_peer_id-common_bits length (same_bits 16 true) 9 3 255 (1 ∷ [])
      (record five_peer_table { local = 3 ∷ 255 ∷ 1 ∷ [] }) refl refl (omega arith)
