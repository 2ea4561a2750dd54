-- ===== src/Node/Upkeep.antt =====
-- The upkeep of the node, in dht.go: fixLowPeers, peerFound, the callbacks of the routing table and
-- the mode; and the events of subscriber_notifee.go.
use kadrtt_test_plan.Base.{
  ℕ, suc, Bool, true, false, not, ◌&&◌, Option, none, some, List, [], ◌∷◌, ◌++◌, map, ltb, ◌==◌,
  if◌then◌else◌, select,
}
use kadrtt_test_plan.Keyspace.{PeerId}
use kadrtt_test_plan.Table.{Notice, peer_added, peer_removed}
use kadrtt_test_plan.Handlers.Peers.{is_listed}

abbrev pub min_rt_refresh_threshold : ℕ
min_rt_refresh_threshold = 10

abbrev pub max_n_bootstrappers : ℕ
max_n_bootstrappers = 2

-- The loop over the bootstrap peers in their random order, each with whether Connect succeeds, after
-- `found` others: the peers that it dials.
unfoldable pub dial_bootstrap : ℕ → List (PeerId × Bool) → List (PeerId × Bool)
dial_bootstrap found [] = []
dial_bootstrap found ((p, ok) ∷ ps) =
    let found' = if ok then suc found else found in
    let rest = dial_bootstrap found' ps in
    (p, ok) ∷ (if found' == max_n_bootstrappers then [] else rest)

-- What fixLowPeers does: the calls of peerFound, the dials, and whether it calls RefreshNoWait.
pub record Fixing : Type 0 where
  pub found : List PeerId
  pub dialed : List (PeerId × Bool)
  pub is_refreshed : Bool

-- The table's size is read at the start, after the calls of peerFound, and after the dials.
unfoldable pub fix_low_peers : ℕ → ℕ → ℕ → Bool → List PeerId → List (PeerId × Bool) → Fixing
fix_low_peers at_start after_found after_dials auto_refresh connected bootstrap_peers =
    if ltb min_rt_refresh_threshold at_start
    then record { found = []; dialed = []; is_refreshed = false }
    else if after_found == 0
    then record {
      found = connected;
      dialed = dial_bootstrap 0 bootstrap_peers;
      is_refreshed = elim bootstrap_peers [
        | [] ↦ false
        | b ∷ bs ↦ auto_refresh && not (after_dials == 0)
      ];
    }
    else record {
      found = connected;
      dialed = [];
      is_refreshed = auto_refresh && not (after_dials == 0);
    }

-- `supported` is the peerstore's first protocol of ours that the peer supports, if any, or none for an
-- error; `filter` the routing table's peer filter, none for nil.
unfoldable pub valid_rt_peer : Option Bool → Option Bool → Option Bool
valid_rt_peer none filter = none
valid_rt_peer (some supported) filter =
    if not supported then some false else elim filter [ none ↦ some true | some b ↦ some b ]

-- What a peer's change of protocols leads to.
pub data PeerChange : Type 0 where
  add_and_fix stopped unchecked : PeerChange

unfoldable pub handle_peer_change_event : Option Bool → Option Bool → PeerChange
handle_peer_change_event supported filter = elim (valid_rt_peer supported filter) [
  | none ↦ unchecked
  | some b ↦ if b then add_and_fix else stopped
]

-- Whether peerFound sends a request to the loop.
unfoldable pub peer_found : Option Bool → Option Bool → Bool
peer_found supported filter = elim (valid_rt_peer supported filter) [ none ↦ false | some b ↦ b ]

-- The calls of the connection manager, all with kbucketTag.
pub data ManagerCall : Type 0 where
  protect tag_peer unprotect untag_peer : PeerId → ManagerCall

-- The callbacks PeerAdded and PeerRemoved, in their order; `cpl` is the common prefix with the node.
unfoldable pub calls_of : (PeerId → ℕ) → Notice → List ManagerCall
calls_of cpl (peer_added p) = (if ltb (cpl p) 2 then protect p else tag_peer p) ∷ []
calls_of cpl (peer_removed p) = unprotect p ∷ untag_peer p ∷ []

-- fixRTIfNeeded: the channel holds one request.
unfoldable pub fix_rt_if_needed : Bool → Bool
fix_rt_if_needed requested = true

pub data Mode : Type 0 where
  mode_server mode_client : Mode

pub data ModeOpt : Type 0 where
  mode_auto mode_client_only mode_server_only mode_auto_server : ModeOpt

unfoldable pub start_mode : ModeOpt → Mode
start_mode mode_auto = mode_client
start_mode mode_client_only = mode_client
start_mode mode_auto_server = mode_server
start_mode mode_server_only = mode_server

unfoldable pub same_mode : Mode → Mode → Bool
same_mode mode_server mode_server = true
same_mode mode_client mode_client = true
same_mode mode_server mode_client = false
same_mode mode_client mode_server = false

-- A stream of a connection, with its number.
pub record Stream : Type 0 where
  pub stream : ℕ
  pub protocol : ℕ
  pub is_inbound : Bool

pub data HostCall : Type 0 where
  set_stream_handler remove_stream_handler : ℕ → HostCall
  reset_stream : Stream → HostCall

unfoldable pub move_to_server_mode : List ℕ → List HostCall
move_to_server_mode protocols = map set_stream_handler protocols

unfoldable pub move_to_client_mode : List ℕ → List Stream → List HostCall
move_to_client_mode protocols streams =
    map remove_stream_handler protocols
    ++ map reset_stream (select (λ s. is_listed s.protocol protocols && s.is_inbound) streams)

-- The mode afterwards, and the calls of the host.
unfoldable pub set_mode : Mode → List ℕ → List Stream → Mode → Mode × List HostCall
set_mode m protocols streams current = if same_mode m current then (current, []) else (
  m,
  elim m [
    | mode_server ↦ move_to_server_mode protocols
    | mode_client ↦ move_to_client_mode protocols streams
  ],
)

pub data Reachability : Type 0 where
  reachability_unknown reachability_public reachability_private : Reachability

unfoldable pub target_mode : ModeOpt → Reachability → Mode
target_mode auto reachability_private = mode_client
target_mode auto reachability_public = mode_server
target_mode mode_auto_server reachability_unknown = mode_server
target_mode mode_auto reachability_unknown = mode_client
target_mode mode_client_only reachability_unknown = mode_client
target_mode mode_server_only reachability_unknown = mode_client

unfoldable pub handle_local_reachability_changed :
    ModeOpt → Reachability → List ℕ → List Stream → Mode → Mode × List HostCall
handle_local_reachability_changed auto r protocols streams current =
    set_mode (target_mode auto r) protocols streams current
