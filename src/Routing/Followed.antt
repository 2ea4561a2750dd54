-- ===== src/Routing/Followed.antt =====
-- What the follow-up leaves of a lookup's result, and when FindPeer finds a peer.
use kadrtt_test_plan.Base.{
  ℕ, zero, suc, ◌≡◌, refl, ◌≢◌, ◌↔◌, ◌⊎◌, inl, inr, Bool, true, false, ◌||◌, some, List, [], ◌∷◌,
  ◌==◌, length, All, Differ, arith, Bool-cases,
}
use kadrtt_test_plan.Keyspace.{PeerId}
use kadrtt_test_plan.Peerset.{PeerState, peer_heard, peer_waiting, peer_queried, peer_unreachable}
use kadrtt_test_plan.Query.Result.{LookupResult}
use kadrtt_test_plan.Routing.Lookups.{
  FollowUp, answered, context_done, Connectedness, is_reachable, find_local, was_dialed,
  dialed_during_query, FindPeerReply, peer_info_of, peer_not_found, find_peer,
}

-- Of `n` follow-up queries each is answered, and none but the last with an answer that stops.
abbrev pub AllAnswered : ℕ → List FollowUp → Type 0
AllAnswered zero events = Unit
AllAnswered (suc n) [] = ⊥
AllAnswered (suc n) (context_done ∷ events) = ⊥
AllAnswered (suc zero) (answered stop ∷ events) = Unit
AllAnswered (suc (suc n)) (answered true ∷ events) = ⊥
AllAnswered (suc (suc n)) (answered false ∷ events) = AllAnswered (suc n) events

-- The peer is in the list, with a state in which the lookup has tried to dial it.
abbrev pub Dialed : PeerId → List PeerId → List PeerState → Type 0
Dialed id [] states = ⊥
Dialed id (p ∷ ps) [] = ⊥
Dialed id (p ∷ ps) (s ∷ states) = ((p ≡ id) × (s ≢ peer_heard)) ⊎ Dialed id ps states

Dialed-absent :
    (id : PeerId) (ps : List PeerId) (states : List PeerState)
    → All (λ p. p ≢ id) ps
    → ¬ (Dialed id ps states)
Dialed-absent id [] states a d = d
Dialed-absent id (p ∷ ps) [] a d = d
Dialed-absent id (p ∷ ps) (s ∷ states) a (inl (e, h)) = a.0 e
Dialed-absent id (p ∷ ps) (s ∷ states) a (inr d) = Dialed-absent id ps states a.1 d

was_dialed_iff : (s : PeerState) → (was_dialed s ≡ true) ↔ (s ≢ peer_heard)
unfolding was_dialed
was_dialed_iff peer_heard = ground arith
was_dialed_iff peer_waiting = (λ e q. cc, λ n. refl)
was_dialed_iff peer_queried = (λ e q. cc, λ n. refl)
was_dialed_iff peer_unreachable = (λ e q. cc, λ n. refl)

dialed_during_query_total :
    (id : PeerId) (ps : List PeerId) (states : List PeerState)
    → length ps ≡ length states
    → Differ ps
    → (r : Bool) × (dialed_during_query id ps states ≡ some r) × ((r ≡ true) ↔ Dialed id ps states)
unfolding dialed_during_query
dialed_during_query_total id [] states h d = (false, refl, ground arith)
dialed_during_query_total id (p ∷ ps) [] h d = absurd (omega arith)
dialed_during_query_total id (p ∷ ps) (s ∷ states) h d = elim (Bool-cases (p == id)) [
  | inl e ↦
      let same : p ≡ id = ground arith in
      let gone = Dialed-absent id ps states (rw (← same) d.0) in
      (was_dialed s, rw (e, dialed_during_query) refl, ground (arith, was_dialed_iff s))
  | inr e ↦
      let (r, f, k) = dialed_during_query_total id ps states (omega arith) d.1 in
      (r, rw (e, dialed_during_query) f, ground (arith, k))
]

-- The ID is valid, and the lookup came to different peers with a state each. Then FindPeer returns,
-- and it returns the peer's info exactly if the peer was connected, or recently, before the lookup or
-- after it, or is one of the lookup's peers, with a state in which it was dialed.
pub find_peer_found_iff :
    (id : PeerId) (before after : Connectedness) (res : LookupResult)
    → length res.peers ≡ length res.state
    → Differ res.peers
    → (reply : FindPeerReply) × (find_peer true id before (some res) after ≡ some reply)
      × ((reply ≡ peer_info_of id) ↔ (
          (is_reachable before ≡ true)
          ⊎ ((is_reachable after ≡ true) ⊎ Dialed id res.peers res.state)))
unfolding find_peer find_local
find_peer_found_iff id before after res h d =
    let (r, f, k) = dialed_during_query_total id res.peers res.state h d in
    elim (Bool-cases (is_reachable before)) [
      | inl e ↦ (peer_info_of id, rw (e, find_peer) refl, ground arith)
      | inr e ↦ elim (Bool-cases (r || is_reachable after)) [
        | inl g ↦ (peer_info_of id, rw (e, find_peer) (rw f (rw g refl)), ground (arith, k))
        | inr g ↦ (peer_not_found, rw (e, find_peer) (rw f (rw g refl)), ground (arith, k))
      ]
    ]
