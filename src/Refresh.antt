-- ===== src/Refresh.antt =====
-- The refresh manager: dht/go-libp2p-kad-dht/rtrefresh/rt_refresh_manager.go. A time is a number, and
-- `time.Since` stops at 0 for a time to come, which is within any interval. A panic is `none`.
pub mod Steps
pub mod Sweep
pub mod Turn
use kadrtt_test_plan.Base.{
  ℕ, zero, suc, ◌+◌, ◌-◌, ◌*◌, Bool, true, false, ◌&&◌, ◌||◌, Option, none, some, List, [], ◌∷◌,
  ◌++◌, leb, ltb, ◌==◌, if◌then◌else◌, length, get_elem?, ◌>>=◌,
}
use kadrtt_test_plan.Keyspace.{PeerId}
use kadrtt_test_plan.Bucket.{PeerInfo}
use kadrtt_test_plan.Table.{Env, Table, get_peer_infos, n_peers_for_cpl}
use kadrtt_test_plan.Table.Buckets.{remove_peer}
use kadrtt_test_plan.Table.Tracked.{get_tracked_cpls_for_refresh}

-- The error of `refreshQueryFnc`.
pub data QueryError : Type 0 where
  no_error deadline_exceeded other_error : QueryError

-- What a query leaves: the rest of the node, the table, its error, and whether its context's deadline
-- has passed.
pub record Answer (F W : Type 0) : Type 0 where
  pub world : W
  pub table : Table F
  pub error : QueryError
  pub expired : Bool

-- What the manager is given: its two functions, the host, the clock, and `refreshDoneCh` (whether a
-- write came before the context ended). Each may change the rest of the node, `W`; a query may change the table.
pub record Manager (F W : Type 0) : Type 0 where
  pub dht_peer_id : ℕ
  pub refresh_key_gen : ℕ → W → W × Option ℕ
  pub refresh_query : ℕ → W → Table F → Answer F W
  pub connect : PeerId → W → W × Bool
  pub now : W → ℕ
  pub signal_done : W → W × Bool
  pub refresh_interval : ℕ
  pub successful_outbound_query_grace_period : ℕ

-- The calls that the manager makes: `refreshKeyGenFnc`, `refreshQueryFnc` and the write to the channel.
pub data Call : Type 0 where
  generate query : ℕ → Call
  done : Call

pub data RefreshError : Type 0 where
  self_failed context_done : RefreshError
  no_key failed : ℕ → RefreshError

-- `calls` has the calls made, the newest first.
pub record State (F W : Type 0) : Type 0 where
  pub world : W
  pub table : Table F
  pub calls : List Call

unfoldable pub append_error : List RefreshError → Option RefreshError → List RefreshError
append_error merr none = merr
append_error merr (some e) = merr ++ e ∷ []

-- After a gap at `c`, with `n` prefix lengths tracked.
unfoldable pub last_cpl : ℕ → ℕ → ℕ
last_cpl c n = let a = 2 * (c + 1) in let b = n - 1 in if leb a b then a else b

module _ {F W : Type 0} (env : Env F) (r : Manager F W) where
  -- Whether the query failed: the end of its own time is no failure.
  unfoldable pub run_refresh_dht_query : ℕ → State F W → State F W × Bool
  run_refresh_dht_query key s =
      let a = r.refresh_query key s.world s.table in
      (
        record { world = a.world; table = a.table; calls = query key ∷ s.calls },
        elim a.error [
          | no_error ↦ false
          | deadline_exceeded ↦ if a.expired then false else true
          | other_error ↦ true
        ],
      )

  unfoldable pub query_for_self : State F W → State F W × List RefreshError
  query_for_self s =
      let q = run_refresh_dht_query r.dht_peer_id s in (q.0, if q.1 then self_failed ∷ [] else [])

  unfoldable pub refresh_cpl : ℕ → State F W → State F W × Option RefreshError
  refresh_cpl cpl s =
      let g = r.refresh_key_gen cpl s.world in
      let s' : State F W = record s { world = g.0; calls = generate cpl ∷ s.calls } in
      elim g.1 [
        | none ↦ (s', some (no_key cpl))
        | some key ↦
            let q = run_refresh_dht_query key s' in (q.0, if q.1 then some (failed cpl) else none)
      ]

  unfoldable pub refresh_cpl_if_eligible : ℕ → ℕ → State F W → State F W × Option RefreshError
  refresh_cpl_if_eligible cpl last_refreshed_at s =
      if leb (r.now s.world - last_refreshed_at) r.refresh_interval
      then (s, none)
      else refresh_cpl cpl s

  -- `rfnc`; an index out of range is a panic.
  unfoldable pub refresh_one :
      Bool → List ℕ → ℕ → State F W → Option (State F W × Option RefreshError)
  refresh_one force refresh_cpls cpl s =
      if force
      then some (refresh_cpl cpl s)
      else (get_elem? refresh_cpls cpl >>= λ last. some (refresh_cpl_if_eligible cpl last s))

  -- `n` prefix lengths from `i` on, after a gap.
  unfoldable pub refresh_past_gap :
      Bool → List ℕ → ℕ → ℕ → State F W → List RefreshError → Option (State F W × List RefreshError)
  refresh_past_gap force refresh_cpls zero i s merr = some (s, merr)
  refresh_past_gap force refresh_cpls (suc n) i s merr = refresh_one force refresh_cpls i s >>= λ o.
      refresh_past_gap force refresh_cpls n (i + 1) o.0 (append_error merr o.1)

  -- The loop, with `n` prefix lengths from `c` on to come, and the code after it. Only where it runs
  -- to its end does it write to `refreshDoneCh`.
  unfoldable pub refresh_from :
      Bool → List ℕ → ℕ → ℕ → State F W → List RefreshError → Option (State F W × List RefreshError)
  refresh_from force refresh_cpls zero c s merr =
      let d = r.signal_done s.world in
      if d.1
      then some (record s { world = d.0; calls = done ∷ s.calls }, merr)
      else some (record s { world = d.0 }, context_done ∷ [])
  refresh_from force refresh_cpls (suc n) c s merr = elim (refresh_one force refresh_cpls c s) [
    | none ↦ none
    | some o ↦ elim o.1 [
      | some e ↦ refresh_from force refresh_cpls n (c + 1) o.0 (merr ++ e ∷ [])
      | none ↦ elim (n_peers_for_cpl env c o.0.table) [
        | none ↦ none
        | some peers ↦ elim (peers == 0) [
          | true ↦
              refresh_past_gap force refresh_cpls (last_cpl c (length refresh_cpls) + 1 - (c + 1))
                (c + 1) o.0 merr
          | false ↦ refresh_from force refresh_cpls n (c + 1) o.0 merr
        ]
      ]
    ]
  ]

  unfoldable pub do_refresh : Bool → State F W → Option (State F W × List RefreshError)
  do_refresh force_refresh s =
      let (s', merr) = query_for_self s in
      let refresh_cpls = get_tracked_cpls_for_refresh env s'.table in
      refresh_from force_refresh refresh_cpls (length refresh_cpls) 0 s' merr

  -- The peers not heard of for the grace period are pinged at once; their goroutines evict them in
  -- some order, of which the model takes that of the table.
  unfoldable pub evict : List PeerInfo → State F W → Option (State F W)
  evict [] s = some s
  evict (p ∷ ps) s =
      let late = r.now s.world - p.last_successful_outbound_query_at in
      elim (ltb r.successful_outbound_query_grace_period late) [
        | false ↦ evict ps s
        | true ↦
            let c = r.connect p.id s.world in
            elim c.1 [
              | true ↦ evict ps (record s { world = c.0 })
              | false ↦ elim (remove_peer env p.id s.table) [
                | none ↦ none
                | some o ↦ evict ps (record s { world = c.0; table = o.0 })
              ]
            ]
      ]

-- A request; `resp_ch` is `none` for nil.
pub record TriggerRefreshReq : Type 0 where
  pub resp_ch : Option ℕ
  pub force_cpl_refresh : Bool

unfoldable pub add_request : List ℕ × Bool → TriggerRefreshReq → List ℕ × Bool
add_request (waiting, forced) q = (
  elim q.resp_ch [ some ch ↦ waiting ++ ch ∷ [] | none ↦ waiting ],
  forced || q.force_cpl_refresh,
)

unfoldable pub add_requests : List ℕ × Bool → List TriggerRefreshReq → List ℕ × Bool
add_requests b [] = b
add_requests b (q ∷ qs) = add_requests (add_request b q) qs

unfoldable pub answer_all : {E : Type 0} → List ℕ → E → List (ℕ × E)
answer_all [] err = []
answer_all (ch ∷ chs) err = (ch, err) ∷ answer_all chs err

module _ {F W : Type 0} (env : Env F) (r : Manager F W) where
  -- One round of `loop`, on the requests read from the channel: none where the ticker set it off. The
  -- result has the answers sent.
  unfoldable pub turn :
      List TriggerRefreshReq → State F W → Option (State F W × List (ℕ × List RefreshError))
  turn requests s =
      let (waiting, forced) = add_requests ([], false) requests in
      evict env r (get_peer_infos s.table) s >>= λ s1.
      do_refresh env r forced s1 >>= λ o. some (o.0, answer_all waiting o.1)

  -- What `loop` does before it waits, under automatic refresh.
  unfoldable pub first_refresh : Bool → State F W → Option (State F W)
  first_refresh enable_auto_refresh s =
      if enable_auto_refresh then (do_refresh env r true s >>= λ o. some o.0) else some s
