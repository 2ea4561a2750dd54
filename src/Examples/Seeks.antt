-- ===== src/Examples/Seeks.antt =====
-- The search for providers with a set as a list and its limit, and the lookups around it.
use kadrtt_test_plan.Base.{
  ℕ, zero, ◌≡◌, ◌≢◌, ◌≤◌, ◌<◌, ◌↔◌, ◌⊎◌, ◌&&◌, ◌||◌, refl, inl, inr, Bool, true, false, not, Option,
  none, some, List, [], ◌∷◌, map, ltb, ◌==◌, if◌then◌else◌, length, All, Has, Differ, arith,
  Bool-cases,
}
use kadrtt_test_plan.Keyspace.{PeerId}
use kadrtt_test_plan.Handlers.Peers.{AddrInfo, is_listed}
use kadrtt_test_plan.Peerset.{peer_heard, peer_queried}
use kadrtt_test_plan.Query.Result.{LookupResult}
use kadrtt_test_plan.Routing.Best.{is_listed_iff}
use kadrtt_test_plan.Routing.Seeking.{PeerSet, peer_info, find_providers_async}
use kadrtt_test_plan.Routing.Sought.{IsPeerSet, ids, HasIn, find_providers_async_sound}
use kadrtt_test_plan.Routing.SoughtAll.{find_providers_async_complete}
use kadrtt_test_plan.Routing.Providing.{ContextError}
use kadrtt_test_plan.Routing.Lookups.{
  FindPeerReply, peer_info_of, find_peer, not_connected, is_reachable,
}
use kadrtt_test_plan.Routing.Followed.{Dialed, find_peer_found_iff}

-- The members, and the limit.
abbrev ListSet : Type 0
ListSet = List PeerId × ℕ

abbrev has_room : ListSet → Bool
has_room s = s.1 == 0 || ltb (length s.0) s.1

unfoldable add_to : PeerId → ListSet → ListSet × Bool
add_to p s = if not (is_listed p s.0) && has_room s then ((p ∷ s.0, s.1), true) else (s, false)

abbrev list_set : PeerSet ListSet
list_set = record {
  new_set = ([], 0);
  new_limited_set = λ n. ([], n);
  try_add = add_to;
  size = λ s. length s.0;
}

not_listed : (p : PeerId) (ps : List PeerId) → is_listed p ps ≡ false → All (λ q. q ≢ p) ps
unfolding is_listed
not_listed p [] e = tt
not_listed p (q ∷ qs) e = elim (Bool-cases (p == q)) [
  | inl f ↦ absurd (ground arith)
  | inr f ↦ (ground arith, not_listed p qs (ground arith))
]

add_to_cases :
    (p : PeerId) (s : ListSet)
    → (((add_to p s).1 ≡ true)
        × All (λ q. q ≢ p) s.0
        × ((add_to p s).0.0 ≡ p ∷ s.0)
        × ((s.1 ≡ 0) ⊎ (length s.0 < s.1)))
      ⊎ (((add_to p s).1 ≡ false)
          × ((add_to p s).0.0 ≡ s.0)
          × (Has p s.0 ⊎ ((s.1 ≢ 0) × (s.1 ≤ length s.0))))
unfolding add_to
add_to_cases p s = elim (Bool-cases (is_listed p s.0)) [
  | inl e ↦ inr (rw (e, add_to) refl, rw (e, add_to) refl, inl ((is_listed_iff p s.0).0 e))
  | inr e ↦ elim (Bool-cases (has_room s)) [
    | inl f ↦
        inl
          (rw (e, add_to) (rw f refl), not_listed p s.0 e, rw (e, add_to) (rw f refl), ground arith)
    | inr f ↦ inr (rw (e, add_to) (rw f refl), rw (e, add_to) (rw f refl), inr (ground arith))
  ]
]

add_to-limit : (p : PeerId) (s : ListSet) → (add_to p s).0.1 ≡ s.1
unfolding add_to
add_to-limit p s = ground arith

list_set-IsPeerSet : IsPeerSet list_set
list_set-IsPeerSet = record {
  members = λ s. s.0;
  limit = λ s. s.1;
  size-members = λ s. refl;
  members-new_set = (refl, refl);
  members-new_limited_set = λ n h. (refl, refl);
  limit-try_add = add_to-limit;
  try_add_cases = add_to_cases;
}

abbrev provider : PeerId → AddrInfo
provider p = record { id = p; addrs = p ∷ [] }

abbrev answers : List (Option (List AddrInfo))
answers = some (provider 4 ∷ provider 5 ∷ []) ∷ none ∷ some (provider 5 ∷ provider 6 ∷ []) ∷ []

abbrev one_address : PeerId → List ℕ
one_address p = p ∷ []

-- Three are asked for; peer 4 is on record, and found again.
find_providers_async_sound_example :
    let out =
      find_providers_async list_set
        (λ p. true)
        (λ p. false)
        one_address
        0
        3
        true
        true
        (4 ∷ [])
        answers in
    Differ (ids out)
    × ((3 ≡ zero) ⊎ (length out ≤ 3))
    × All (λ i. Has i (map (peer_info one_address) (4 ∷ [])) ⊎ HasIn i answers) out
find_providers_async_sound_example =
    find_providers_async_sound list_set list_set-IsPeerSet (λ p. true) (λ p. false) one_address 0 3
      true true (4 ∷ []) answers

find_providers_async_complete_example : Has 6 (
    ids (
      find_providers_async list_set
        (λ p. true)
        (λ p. false)
        one_address
        0
        0
        true
        true
        (4 ∷ [])
        answers))
find_providers_async_complete_example =
    find_providers_async_complete list_set list_set-IsPeerSet (λ p. true) (λ p. false) (λ p. refl)
      one_address 0 (4 ∷ []) answers (provider 6) (inr (inr (inl (inr (inl refl)))))

abbrev no_error : Option ContextError
no_error = none

abbrev own_addrs : List ℕ
own_addrs = 7 ∷ []

abbrev three_found : LookupResult
three_found = record {
  peers = 3 ∷ 4 ∷ 5 ∷ [];
  state = peer_queried ∷ peer_heard ∷ peer_heard ∷ [];
  completed = true;
}

find_peer_found_iff_example :
    (reply : FindPeerReply) × (find_peer true 4 not_connected (some three_found) not_connected
      ≡ some reply)
    × ((reply ≡ peer_info_of 4) ↔ (
        (is_reachable not_connected ≡ true)
        ⊎ ((is_reachable not_connected ≡ true) ⊎ Dialed 4 three_found.peers three_found.state)))
find_peer_found_iff_example =
    find_peer_found_iff 4 not_connected not_connected three_found refl (ground arith)
