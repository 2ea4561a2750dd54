-- ===== src/Node.antt =====
-- The loop that keeps the routing table: rtPeerLoop and processAdd of dht/go-libp2p-kad-dht/dht.go.
pub mod Invariant
pub mod Upkeep
pub mod Fixed
use kadrtt_test_plan.Base.{
  ℕ, zero, suc, ◌+◌, Bool, true, false, not, ◌&&◌, Option, none, some, List, [], ◌∷◌, ◌==◌,
  if◌then◌else◌, get_elem?, ◌>>=◌,
}
use kadrtt_test_plan.Keyspace.{PeerId}
use kadrtt_test_plan.Table.{
  Env, Table, size, mark_all_peers_irreplaceable, update_last_successful_outbound_query_at,
}
use kadrtt_test_plan.Table.Adding.{Added, Request, add_peer}
use kadrtt_test_plan.Table.KadRtt.{add_peer_kad_rtt}

-- addPeerRTReq.
pub record AddPeerRtReq : Type 0 where
  pub p : PeerId
  pub query_peer : Bool

-- A goroutine of processAdd that has not its ping's answer yet, with its argument `isBootsrapping`.
pub record PendingAdd : Type 0 where
  pub req : AddPeerRtReq
  pub is_bootstrapping : Bool

-- `timer` tells whether the timer of `timerCh` is set and has not fired. `refreshes` counts the calls
-- of RefreshNoWait.
pub record Node (F : Type 0) : Type 0 where
  pub table : Table F
  pub bootstrap_count : ℕ
  pub is_bootstrapping : Bool
  pub timer : Bool
  pub pending : List PendingAdd
  pub refreshes : ℕ

-- The cases of the `select`, with the time and the fuel of a call; and a ping of processAdd returns,
-- for the goroutine at an index.
pub data LoopEvent : Type 0 where
  freeze_timeout : LoopEvent
  add_requested : AddPeerRtReq → ℕ → ℕ → LoopEvent
  ping_returned : ℕ → ℕ → ℕ → ℕ → LoopEvent
  refresh_finished : LoopEvent

unfoldable pub start_node : {F : Type 0} → Table F → Node F
start_node t = record {
  table = t;
  bootstrap_count = 0;
  is_bootstrapping = false;
  timer = false;
  pending = [];
  refreshes = 0;
}

unfoldable pub remove_at : {A : Type 0} → ℕ → List A → List A
remove_at i [] = []
remove_at zero (x ∷ xs) = xs
remove_at (suc i) (x ∷ xs) = x ∷ remove_at i xs

unfoldable pub request_of : AddPeerRtReq → Bool → ℕ → ℕ → ℕ → Request
request_of q is_bootstrapping rtt now fuel = record {
  peer = q.p;
  query_peer = q.query_peer;
  is_replaceable = is_bootstrapping;
  rtt = rtt;
  now = now;
  fuel = fuel;
}

module _ {F : Type 0} (env : Env F) where
  -- The peer is in the table already, and was just queried.
  unfoldable pub bump_query : AddPeerRtReq → ℕ → Bool → Table F → Option (Table F)
  bump_query q now newly_added t =
      if not newly_added && q.query_peer
      then (update_last_successful_outbound_query_at env q.p now t >>= λ (t', found). some t')
      else some t

  -- The error is not looked at.
  unfoldable pub process_add : AddPeerRtReq → Bool → ℕ → ℕ → ℕ → Table F → Option (Table F)
  process_add q is_bootstrapping rtt now fuel t =
      add_peer_kad_rtt env (request_of q is_bootstrapping rtt now fuel) t
      >>= λ (t', newly_added, err). bump_query q now newly_added t'

  unfoldable pub after_add : AddPeerRtReq → ℕ → Added F → Option (Table F)
  after_add q now (t, newly_added, some err) = some t
  after_add q now (t, newly_added, none) = bump_query q now newly_added t

  unfoldable pub try_add_now : AddPeerRtReq → Bool → ℕ → ℕ → Table F → Option (Table F)
  try_add_now q is_bootstrapping now fuel t =
      add_peer env (request_of q is_bootstrapping 0 now fuel) t >>= after_add q now

  -- An empty table starts the bootstrapping.
  unfoldable pub note_size : Node F → Node F
  note_size n =
      if size n.table == 0
      then record n { is_bootstrapping = true; bootstrap_count = 0; timer = false }
      else n

  unfoldable pub add_request : Bool → AddPeerRtReq → ℕ → ℕ → Node F → Option (Node F)
  add_request is_kad_rtt q now fuel n0 =
      let n = note_size n0 in
      if is_kad_rtt
      then some (record n {
        pending = record { req = q; is_bootstrapping = n.is_bootstrapping } ∷ n.pending;
      })
      else (try_add_now q n.is_bootstrapping now fuel n.table >>= λ t.
          some (record n { table = t }))

  -- No goroutine has the index, or it adds its peer and ends.
  unfoldable pub finish_add : ℕ → ℕ → ℕ → ℕ → Node F → Option (Node F)
  finish_add i rtt now fuel n = elim (get_elem? n.pending i) [
    | none ↦ some n
    | some a ↦ process_add a.req a.is_bootstrapping rtt now fuel n.table >>= λ t.
        some (record n { table = t; pending = remove_at i n.pending })
  ]

  unfoldable pub refresh_done : Node F → Node F
  refresh_done n =
      let count = suc n.bootstrap_count in
      record n {
        bootstrap_count = count;
        timer = if count == 2 then true else n.timer;
        is_bootstrapping = false;
        refreshes = if n.is_bootstrapping then suc n.refreshes else n.refreshes;
      }

  -- A timer that is not set does not fire.
  unfoldable pub freeze : Node F → Node F
  freeze n =
      if n.timer
      then record n { table = mark_all_peers_irreplaceable n.table; timer = false }
      else n

  -- One turn of the loop, or of a goroutine; none for a panic.
  unfoldable pub loop_step : Bool → LoopEvent → Node F → Option (Node F)
  loop_step is_kad_rtt freeze_timeout n = some (freeze n)
  loop_step is_kad_rtt (add_requested q now fuel) n = add_request is_kad_rtt q now fuel n
  loop_step is_kad_rtt (ping_returned i rtt now fuel) n = finish_add i rtt now fuel n
  loop_step is_kad_rtt refresh_finished n = some (refresh_done n)

  unfoldable pub rt_peer_loop : Bool → List LoopEvent → Node F → Option (Node F)
  rt_peer_loop is_kad_rtt [] n = some n
  rt_peer_loop is_kad_rtt (e ∷ es) n =
      loop_step is_kad_rtt e n >>= λ n'. rt_peer_loop is_kad_rtt es n'
