-- ===== src/Node/Invariant.antt =====
-- What holds in every state that rtPeerLoop comes to.
use kadrtt_test_plan.Base.{
  ℕ, ◌≤◌, ◌≡◌, refl, ◌⊎◌, inl, inr, Bool, false, not, ◌&&◌, Option, none, some, List, [], ◌∷◌, ◌==◌,
  get_elem?, length, All, arith, Bool-cases, Option-cases,
}
use kadrtt_test_plan.Table.{Env, Table, size}
use kadrtt_test_plan.Table.Adding.{Added}
use kadrtt_test_plan.Keyspace.{Bytes}
use kadrtt_test_plan.Floats.{Floats}
use kadrtt_test_plan.Table.{new_routing_table}
use kadrtt_test_plan.Table.Sound.{IsHashing, IsSound, add_peer-IsSound, add_peer_kad_rtt-IsSound}
use kadrtt_test_plan.Table.Reachable.{
  mark_all-IsSound, update_last_successful_outbound_query_at-IsSound, new_routing_table-IsSound,
}
use kadrtt_test_plan.Node.{
  AddPeerRtReq, PendingAdd, Node, LoopEvent, freeze_timeout, add_requested, ping_returned,
  refresh_finished, remove_at, start_node, request_of, bump_query, process_add, after_add,
  try_add_now, note_size, add_request, finish_add, refresh_done, freeze, loop_step, rt_peer_loop,
}

module _ {F : Type 0} (env : Env F) (law : IsHashing env.hashing) where
  -- The table is sound; while the node is bootstrapping, no refresh was counted and the timer is not
  -- set; and the timer is set only after two refreshes.
  pub record IsNode (n : Node F) : Type 0 where
    pub table_IsSound : IsSound env n.table
    pub starting : (n.is_bootstrapping ≡ false) ⊎ ((n.bootstrap_count ≡ 0) × (n.timer ≡ false))
    pub freezing : (n.timer ≡ false) ⊎ (2 ≤ n.bootstrap_count)

  bump_query-IsSound :
      (q : AddPeerRtReq) (now : ℕ) (newly_added : Bool) (t : Table F)
      → IsSound env t
      → (t' : Table F) × (bump_query env q now newly_added t ≡ some t') × IsSound env t'
  unfolding bump_query
  bump_query-IsSound q now newly_added t v = elim (Bool-cases (not newly_added && q.query_peer)) [
    | inr e ↦ (t, rw (e, bump_query) refl, v)
    | inl e ↦
        let (r, f, w) = update_last_successful_outbound_query_at-IsSound env q.p now t v in
        (r.0, rw (e, bump_query) (rw f refl), w)
  ]

  after_add-IsSound :
      (q : AddPeerRtReq) (now : ℕ) (a : Added F)
      → IsSound env a.0
      → (t' : Table F) × (after_add env q now a ≡ some t') × IsSound env t'
  unfolding after_add
  after_add-IsSound q now (t, newly_added, some err) v = (t, refl, v)
  after_add-IsSound q now (t, newly_added, none) v = bump_query-IsSound q now newly_added t v

  process_add-IsSound :
      (q : AddPeerRtReq) (b : Bool) (rtt now fuel : ℕ) (t : Table F)
      → 257 ≤ fuel
      → IsSound env t
      → (t' : Table F) × (process_add env q b rtt now fuel t ≡ some t') × IsSound env t'
  unfolding process_add request_of
  process_add-IsSound q b rtt now fuel t h v =
      let (a, e, w) = add_peer_kad_rtt-IsSound env law (request_of q b rtt now fuel) t v h in
      let (t', f, u) = bump_query-IsSound q now a.1 a.0 w in (t', rw (e, process_add) f, u)

  try_add_now-IsSound :
      (q : AddPeerRtReq) (b : Bool) (now fuel : ℕ) (t : Table F)
      → 257 ≤ fuel
      → IsSound env t
      → (t' : Table F) × (try_add_now env q b now fuel t ≡ some t') × IsSound env t'
  unfolding try_add_now request_of
  try_add_now-IsSound q b now fuel t h v =
      let (a, e, w) = add_peer-IsSound env law (request_of q b 0 now fuel) t v h in
      let (t', f, u) = after_add-IsSound q now a w in (t', rw (e, try_add_now) f, u)

  note_size-IsNode : (n : Node F) → IsNode n → IsNode (note_size env n)
  unfolding note_size
  note_size-IsNode n v = elim (Bool-cases (size n.table == 0)) [
    | inl e ↦
        rw (e, note_size)
          (record {
            table_IsSound = v.table_IsSound;
            starting = inr (refl, refl);
            freezing = inl refl;
          })
    | inr e ↦ rw (e, note_size) v
  ]

  -- A step that changes the table only, or what is pending.
  with_table :
      (n : Node F) (t : Table F) (waiting : List PendingAdd)
      → IsSound env t
      → IsNode n
      → IsNode (record n { table = t; pending = waiting })
  with_table n t waiting w v = record {
    table_IsSound = w;
    starting = v.starting;
    freezing = v.freezing;
  }

  add_request-IsNode :
      (is_kad_rtt : Bool) (q : AddPeerRtReq) (now fuel : ℕ) (n : Node F)
      → 257 ≤ fuel
      → IsNode n
      → (n' : Node F) × (add_request env is_kad_rtt q now fuel n ≡ some n') × IsNode n'
  unfolding add_request
  add_request-IsNode is_kad_rtt q now fuel n0 h v0 =
      let n = note_size env n0 in
      let v = note_size-IsNode n0 v0 in
      elim (Bool-cases is_kad_rtt) [
        | inl e ↦
            let waiting = record { req = q; is_bootstrapping = n.is_bootstrapping } ∷ n.pending in
            (
              record n { pending = waiting },
              rw (e, add_request) refl,
              with_table n n.table waiting v.table_IsSound v,
            )
        | inr e ↦
            let (t, f, w) =
              try_add_now-IsSound q n.is_bootstrapping now fuel n.table h v.table_IsSound in
            (record n { table = t }, rw (e, add_request) (rw f refl), with_table n t n.pending w v)
      ]

  finish_add-IsNode :
      (i rtt now fuel : ℕ) (n : Node F)
      → 257 ≤ fuel
      → IsNode n
      → (n' : Node F) × (finish_add env i rtt now fuel n ≡ some n') × IsNode n'
  unfolding finish_add
  finish_add-IsNode i rtt now fuel n h v = elim (Option-cases (get_elem? n.pending i)) [
    | inl e ↦ (n, rw (e, finish_add) refl, v)
    | inr (a, e) ↦
        let (t, f, w) =
          process_add-IsSound a.req a.is_bootstrapping rtt now fuel n.table h v.table_IsSound in
        (
          record n { table = t; pending = remove_at i n.pending },
          rw (e, finish_add) (rw f refl),
          with_table n t (remove_at i n.pending) w v,
        )
  ]

  refresh_done-IsNode : (n : Node F) → IsNode n → IsNode (refresh_done env n)
  unfolding refresh_done
  refresh_done-IsNode n v = record {
    table_IsSound = v.table_IsSound;
    starting = inl refl;
    freezing = ground (arith, v.freezing);
  }

  freeze-IsNode : (n : Node F) → IsNode n → IsNode (freeze env n)
  unfolding freeze
  freeze-IsNode n v = elim (Bool-cases n.timer) [
    | inr e ↦ let same : freeze env n ≡ n = ground arith in rw same v
    | inl e ↦
        rw (e, freeze)
          (record {
            table_IsSound = mark_all-IsSound env n.table v.table_IsSound;
            starting = ground (arith, v.starting);
            freezing = inl refl;
          })
  ]

  -- The fuel that an addition gives nextBucket is enough.
  abbrev pub HasFuel : LoopEvent → Type 0
  HasFuel freeze_timeout = Unit
  HasFuel (add_requested q now fuel) = 257 ≤ fuel
  HasFuel (ping_returned i rtt now fuel) = 257 ≤ fuel
  HasFuel refresh_finished = Unit

  loop_step-IsNode :
      (is_kad_rtt : Bool) (e : LoopEvent) (n : Node F)
      → HasFuel e
      → IsNode n
      → (n' : Node F) × (loop_step env is_kad_rtt e n ≡ some n') × IsNode n'
  unfolding loop_step
  loop_step-IsNode is_kad_rtt freeze_timeout n h v = (freeze env n, refl, freeze-IsNode n v)
  loop_step-IsNode is_kad_rtt (add_requested q now fuel) n h v =
      add_request-IsNode is_kad_rtt q now fuel n h v
  loop_step-IsNode is_kad_rtt (ping_returned i rtt now fuel) n h v =
      finish_add-IsNode i rtt now fuel n h v
  loop_step-IsNode is_kad_rtt refresh_finished n h v =
      (refresh_done env n, refl, refresh_done-IsNode n v)

  loop-IsNode :
      (is_kad_rtt : Bool) (es : List LoopEvent) (n : Node F)
      → All HasFuel es
      → IsNode n
      → (n' : Node F) × (rt_peer_loop env is_kad_rtt es n ≡ some n') × IsNode n'
  unfolding rt_peer_loop
  loop-IsNode is_kad_rtt [] n h v = (n, refl, v)
  loop-IsNode is_kad_rtt (e ∷ es) n h v =
      let (n1, f, w) = loop_step-IsNode is_kad_rtt e n h.0 v in
      let (n2, g, u) = loop-IsNode is_kad_rtt es n1 h.1 w in (n2, rw (f, rt_peer_loop) g, u)

  -- A hash has 32 bytes, as the local node's ID has, the XOR of two of them has 32 too, and each
  -- addition has fuel 257. Then rtPeerLoop, and the goroutines of processAdd that it starts, never
  -- panic on any sequence of requests, pings, refreshes and timeouts, with KadRTT and without it. In
  -- every state the table is sound; while the node is bootstrapping no refresh is counted and the
  -- timer that freezes the table is not set; and it is set only after two refreshes.
  pub rt_peer_loop_total :
      (fl : Floats) (bucket_size : ℕ) (local : Bytes) (latency grace : ℕ) (df : Option F) (now : ℕ)
      (is_kad_rtt : Bool) (es : List LoopEvent)
      → length local ≡ 32
      → All HasFuel es
      → (n : Node F) × (rt_peer_loop env is_kad_rtt es
            (start_node (new_routing_table fl bucket_size local latency grace df now))
          ≡ some n)
        × IsNode n
  unfolding start_node
  rt_peer_loop_total fl bucket_size local latency grace df now is_kad_rtt es l h =
      loop-IsNode is_kad_rtt es
        (start_node (new_routing_table fl bucket_size local latency grace df now)) h
        (record {
          table_IsSound =
              new_routing_table-IsSound env law fl bucket_size local latency grace df now l;
          starting = inl refl;
          freezing = inl refl;
        })
