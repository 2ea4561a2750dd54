-- ===== src/Node/Fixed.antt =====
-- What fixLowPeers dials, and what a change of reachability does to the streams.
use kadrtt_test_plan.Base.{
  ℕ, suc, ◌+◌, ◌≤◌, ◌<◌, ◌≡◌, refl, ap, ◌↔◌, ◌⊎◌, inl, inr, Bool, true, false, not, ◌&&◌, List, [],
  ◌∷◌, map, ltb, ◌==◌, if◌then◌else◌, select, Has, Has-append_iff, Has-select_iff, Has-map, arith,
  Bool-cases,
}
use kadrtt_test_plan.Keyspace.{PeerId}
use kadrtt_test_plan.Handlers.Peers.{is_listed}
use kadrtt_test_plan.Routing.Best.{is_listed_iff}
use kadrtt_test_plan.Node.Upkeep.{
  dial_bootstrap, fix_low_peers, min_rt_refresh_threshold, Mode, mode_server, mode_client, ModeOpt,
  Stream, set_stream_handler, remove_stream_handler, reset_stream, move_to_server_mode,
  move_to_client_mode, set_mode, same_mode, Reachability, target_mode,
  handle_local_reachability_changed, reachability_public, reachability_private,
  reachability_unknown, mode_auto, mode_auto_server, mode_client_only, mode_server_only,
}

-- How many of the peers were connected to.
abbrev pub connected_of : List (PeerId × Bool) → ℕ
connected_of [] = 0
connected_of ((p, ok) ∷ ps) = (if ok then 1 else 0) + connected_of ps

dial_bootstrap-two :
    (found : ℕ) (ps : List (PeerId × Bool))
    → found < 2
    → (found + connected_of (dial_bootstrap found ps) ≤ 2)
      × (dial_bootstrap found ps ≡ ps ⊎ found + connected_of (dial_bootstrap found ps) ≡ 2)
unfolding dial_bootstrap
dial_bootstrap-two found [] h = (omega arith, inl refl)
dial_bootstrap-two found ((p, false) ∷ ps) h =
    let go_on : (found == 2) ≡ false = ground arith in
    let (few, rest) = dial_bootstrap-two found ps h in
    rw go_on (
      omega (arith, few),
      elim rest [ inl e ↦ inl (ap (◌∷◌ (p, false)) e) | inr e ↦ inr (omega (arith, e)) ],
    )
dial_bootstrap-two found ((p, true) ∷ ps) h = elim (Bool-cases (suc found == 2)) [
  | inl e ↦ rw e (ground arith, inr (ground arith))
  | inr e ↦
      let (few, rest) = dial_bootstrap-two (suc found) ps (ground arith) in
      rw e (
        omega (arith, few),
        elim rest [ inl q ↦ inl (ap (◌∷◌ (p, true)) q) | inr q ↦ inr (omega (arith, q)) ],
      )
]

-- fixLowPeers dials bootstrap peers only where the table has at most 10 peers at the start and none
-- after the connected peers were passed to peerFound; then it connects to at most two of them, and to
-- two or it dials them all. It refreshes only where the table has a peer in the end.
pub fix_low_peers-dials :
    (at_start after_found after_dials : ℕ) (auto_refresh : Bool) (connected : List PeerId)
    (bootstrap_peers : List (PeerId × Bool))
    → let r =
        fix_low_peers at_start after_found after_dials auto_refresh connected bootstrap_peers in
      (connected_of r.dialed ≤ 2)
      × ((r.dialed ≡ [])
          ⊎ ((at_start ≤ 10)
              × (after_found ≡ 0)
              × ((r.dialed ≡ bootstrap_peers) ⊎ (connected_of r.dialed ≡ 2))))
      × ((r.is_refreshed ≡ false) ⊎ ((at_start ≤ 10) × (0 < after_dials)))
unfolding fix_low_peers
fix_low_peers-dials at_start after_found after_dials auto_refresh connected bootstrap_peers =
    elim (Bool-cases (ltb min_rt_refresh_threshold at_start)) [
      | inl e ↦ rw (e, fix_low_peers) (omega arith, inl refl, inl refl)
      | inr e ↦ elim (Bool-cases (after_found == 0)) [
        | inr f ↦ rw (e, fix_low_peers) (rw f (omega arith, inl refl, ground arith))
        | inl f ↦
            let (few, rest) = dial_bootstrap-two 0 bootstrap_peers (omega arith) in
            rw (e, fix_low_peers)
              (rw f (
                omega (arith, few),
                inr (
                  ground arith,
                  ground arith,
                  elim rest [ inl q ↦ inl q | inr q ↦ inr (omega (arith, q)) ],
                ),
                refreshed bootstrap_peers (ground arith),
              ))
      ]
    ]
  where
    refreshed :
        (ps : List (PeerId × Bool))
        → at_start ≤ 10
        → ((elim ps as (λ _. Bool) [ [] ↦ false | b ∷ bs ↦ auto_refresh && not (after_dials == 0) ])
            ≡ false)
          ⊎ ((at_start ≤ 10) × (0 < after_dials))
    refreshed [] h = inl refl
    refreshed (b ∷ bs) h = ground arith

Has-map_reset :
    (s : Stream) (ss : List Stream) → Has (reset_stream s) (map reset_stream ss) → Has s ss
Has-map_reset s [] h = absurd h
Has-map_reset s (x ∷ ss) (inl e) = inl (ground arith)
Has-map_reset s (x ∷ ss) (inr h) = inr (Has-map_reset s ss h)

no_reset_in_remove :
    (s : Stream) (ps : List ℕ) → ¬ (Has (reset_stream s) (map remove_stream_handler ps))
no_reset_in_remove s [] h = h
no_reset_in_remove s (p ∷ ps) (inl e) = cc
no_reset_in_remove s (p ∷ ps) (inr h) = no_reset_in_remove s ps h

no_reset_in_set : (s : Stream) (ps : List ℕ) → ¬ (Has (reset_stream s) (map set_stream_handler ps))
no_reset_in_set s [] h = h
no_reset_in_set s (p ∷ ps) (inl e) = cc
no_reset_in_set s (p ∷ ps) (inr h) = no_reset_in_set s ps h

client_resets :
    (s : Stream) (protocols : List ℕ) (streams : List Stream)
    → Has (reset_stream s) (move_to_client_mode protocols streams)
      ↔ (Has s streams × (s.is_inbound ≡ true) × Has s.protocol protocols)
unfolding move_to_client_mode
client_resets s protocols streams =
    let keep = λ (x : Stream). is_listed x.protocol protocols && x.is_inbound in
    let kept = select keep streams in
    let (to, back) = Has-select_iff keep s streams in
    (
      λ h.
          elim ((Has-append_iff (reset_stream s) (map remove_stream_handler protocols)
              (map reset_stream kept)).0
            h) [
              | inl m ↦ absurd (no_reset_in_remove s protocols m)
              | inr m ↦
                  let (a, b) = to (Has-map_reset s kept m) in
                  (a, ground arith, (is_listed_iff s.protocol protocols).0 (ground arith))
            ],
      λ h.
          let (a, b, c) = h in
          let c' = (is_listed_iff s.protocol protocols).1 c in
          (Has-append_iff (reset_stream s) (map remove_stream_handler protocols)
              (map reset_stream kept)).1
            (inr (Has-map reset_stream s kept (back (a, ground arith)))),
    )

server_resets :
    (s : Stream) (protocols : List ℕ) → ¬ (Has (reset_stream s) (move_to_server_mode protocols))
unfolding move_to_server_mode
server_resets s protocols = no_reset_in_set s protocols

target_mode-server_iff :
    (auto : ModeOpt) (r : Reachability)
    → (target_mode auto r ≡ mode_server)
      ↔ ((r ≡ reachability_public) ⊎ ((r ≡ reachability_unknown) × (auto ≡ mode_auto_server)))
unfolding target_mode
target_mode-server_iff auto reachability_private =
    (λ e. cc, λ h. elim h [ inl q ↦ cc | inr (q, _) ↦ cc ])
target_mode-server_iff auto reachability_public = (λ e. inl refl, λ h. refl)
target_mode-server_iff mode_auto_server reachability_unknown = (λ e. inr (refl, refl), λ h. refl)
target_mode-server_iff mode_auto reachability_unknown =
    (λ e. cc, λ h. elim h [ inl q ↦ cc | inr (_, q) ↦ cc ])
target_mode-server_iff mode_client_only reachability_unknown =
    (λ e. cc, λ h. elim h [ inl q ↦ cc | inr (_, q) ↦ cc ])
target_mode-server_iff mode_server_only reachability_unknown =
    (λ e. cc, λ h. elim h [ inl q ↦ cc | inr (_, q) ↦ cc ])

-- After a change of reachability the node is in server mode exactly if it is now public, or the
-- reachability is not known and the node was set to be a server then; else it is in client mode. A
-- stream is reset exactly if the node was in server mode and is now in client mode, and the stream is
-- inbound, with one of the node's own protocols.
pub handle_local_reachability_changed-resets :
    (auto : ModeOpt) (r : Reachability) (protocols : List ℕ) (streams : List Stream)
    (current : Mode) (s : Stream)
    → let a = handle_local_reachability_changed auto r protocols streams current in
      ((a.0 ≡ mode_server)
        ↔ ((r ≡ reachability_public) ⊎ ((r ≡ reachability_unknown) × (auto ≡ mode_auto_server))))
      × (Has (reset_stream s) a.1 ↔ (
          (current ≡ mode_server)
          × (a.0 ≡ mode_client)
          × Has s streams
          × (s.is_inbound ≡ true)
          × Has s.protocol protocols))
unfolding handle_local_reachability_changed set_mode same_mode
handle_local_reachability_changed-resets auto r protocols streams current s =
    let (same, resets) = cases (target_mode auto r) current in
    (rw same (target_mode-server_iff auto r), rw same resets)
  where
    cases :
        (m n : Mode)
        → ((set_mode m protocols streams n).0 ≡ m)
          × (Has (reset_stream s) (set_mode m protocols streams n).1 ↔ (
              (n ≡ mode_server)
              × (m ≡ mode_client)
              × Has s streams
              × (s.is_inbound ≡ true)
              × Has s.protocol protocols))
    cases mode_server mode_server = (refl, (λ h. absurd h, λ h. cc))
    cases mode_client mode_client = (refl, (λ h. absurd h, λ h. cc))
    cases mode_server mode_client = (refl, (λ h. absurd (server_resets s protocols h), λ h. cc))
    cases mode_client mode_server =
        let (to, back) = client_resets s protocols streams in
        (
          refl,
          (
            λ h. let (k, l, m) = to h in (refl, refl, k, l, m),
            λ h. let (_, _, k, l, m) = h in back (k, l, m),
          ),
        )
