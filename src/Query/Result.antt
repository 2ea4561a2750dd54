-- ===== src/Query/Result.antt =====
-- What a lookup leaves: constructLookupResult and recordValuablePeers of query.go.
pub mod States
use kadrtt_test_plan.Base.{
  true, ℕ, ◌*◌, ◌≤◌, ◌<◌, ◌≡◌, refl, Bool, false, ◌||◌, inl, inr, Option, none, some, List, [], ◌∷◌,
  ltb, ◌==◌, if◌then◌else◌, ◌>>=◌, take, select, Has, Has-select_iff, arith, Option-cases,
}
use kadrtt_test_plan.Keyspace.{PeerId, Bytes, Hashing}
use kadrtt_test_plan.Peerset.{PeerState, QueryPeerset, get_state, get_closest_n_in_states}
use kadrtt_test_plan.Query.{
  Config, Query, unqueried, is_lookup_termination, is_lookup_termination_kad_rtt,
  is_starvation_termination,
}
use kadrtt_test_plan.Table.Nearest.{sort_closest_peers}

pub record LookupResult : Type 0 where
  pub peers : List PeerId
  pub state : List PeerState
  pub completed : Bool

unfoldable pub states_of : List PeerId → QueryPeerset → Option (List PeerState)
states_of [] qp = some []
states_of (p ∷ ps) qp = get_state p qp >>= λ s. states_of ps qp >>= λ ss. some (s ∷ ss)

-- The result, from the query as the tests of termination leave it.
unfoldable pub result_of : Hashing → Config → Bytes → Query → Bool → Option LookupResult
result_of h c target q completed =
    let (qp, found) = get_closest_n_in_states c.bucket_size unqueried q.query_peers in
    let sorted = take c.bucket_size (sort_closest_peers h found target) in
    states_of sorted qp >>= λ ss.
    some (record { peers = sorted; state = ss; completed = completed })

-- The query and its answer to the test of termination, and after that of starvation, which is made
-- only where the lookup has not terminated.
unfoldable pub tested : Config → Query → Query × Bool
tested c q = if c.is_kad_rtt then is_lookup_termination_kad_rtt c q else is_lookup_termination c q

unfoldable pub tested_too : Query × Bool → Query × Bool
tested_too (q, terminated) = if terminated then (q, true) else is_starvation_termination q

unfoldable pub construct_lookup_result : Hashing → Config → Bytes → Query → Option LookupResult
construct_lookup_result h c target q =
    let (left, completed) = tested_too (tested c q) in result_of h c target left completed

-- `peerTimes[p]`.
unfoldable pub time_of : PeerId → List (PeerId × ℕ) → Option ℕ
time_of p [] = none
time_of p ((r, d) ∷ times) = if r == p then some d else time_of p times

-- The loop that finds `mvpDuration`.
unfoldable pub mvp_duration : ℕ → List PeerId → List (PeerId × ℕ) → ℕ
mvp_duration m [] times = m
mvp_duration m (p ∷ ps) times = elim (time_of p times) [
  | some d ↦ mvp_duration (if ltb d m then d else m) ps times
  | none ↦ mvp_duration m ps times
]

abbrev pub max_duration : ℕ
max_duration = 9223372036854775807

-- `mvpDuration*2` on int64: from 2^62 on it is negative, and no duration is below it.
unfoldable pub doubled : ℕ → ℕ
doubled m = if ltb m 4611686018427387904 then m * 2 else 0

unfoldable pub is_valuable : ℕ → List (PeerId × ℕ) → PeerId → Bool
is_valuable mvp times p = elim (time_of p times) [ some d ↦ ltb d (doubled mvp) | none ↦ false ]

-- The seeds that `recordPeerIsValuable` is called for.
unfoldable pub valuable_peers : List PeerId → List (PeerId × ℕ) → List PeerId
valuable_peers seed_peers times =
    select (is_valuable (mvp_duration max_duration seed_peers times) times) seed_peers

mvp_duration-above :
    (d m : ℕ) (ps : List PeerId) (times : List (PeerId × ℕ))
    → d ≤ m
    → ((p : PeerId) (e : ℕ) → Has p ps → time_of p times ≡ some e → d ≤ e)
    → d ≤ mvp_duration m ps times
unfolding mvp_duration
mvp_duration-above d m [] times h k = h
mvp_duration-above d m (p ∷ ps) times h k = elim (Option-cases (time_of p times)) [
  | inl n ↦ rw (n, mvp_duration) (mvp_duration-above d m ps times h (λ r e i. k r e (inr i)))
  | inr (e, n) ↦
      let low : d ≤ e = k p e (inl refl) n in
      let low' : d ≤ (if ltb e m then e else m) = ground arith in
      rw (n, mvp_duration)
        (mvp_duration-above d (if ltb e m then e else m) ps times low' (λ r e' i. k r e' (inr i)))
]

mvp_duration-start :
    (m : ℕ) (ps : List PeerId) (times : List (PeerId × ℕ)) → mvp_duration m ps times ≤ m
unfolding mvp_duration
mvp_duration-start m [] times = omega arith
mvp_duration-start m (p ∷ ps) times = elim (Option-cases (time_of p times)) [
  | inl n ↦ rw (n, mvp_duration) (mvp_duration-start m ps times)
  | inr (e, n) ↦
      let low : (if ltb e m then e else m) ≤ m = ground arith in
      let r = mvp_duration-start (if ltb e m then e else m) ps times in
      rw (n, mvp_duration) (omega arith)
]

mvp_duration-below :
    (m : ℕ) (p : PeerId) (d : ℕ) (ps : List PeerId) (times : List (PeerId × ℕ))
    → Has p ps
    → time_of p times ≡ some d
    → mvp_duration m ps times ≤ d
unfolding mvp_duration
mvp_duration-below m p d [] times i e = absurd i
mvp_duration-below m p d (x ∷ ps) times (inl q) e =
    let low : (if ltb d m then d else m) ≤ d = ground arith in
    let r = mvp_duration-start (if ltb d m then d else m) ps times in
    rw (← q) (rw (e, mvp_duration) (omega arith))
mvp_duration-below m p d (x ∷ ps) times (inr i) e = elim (Option-cases (time_of x times)) [
  | inl n ↦ rw (n, mvp_duration) (mvp_duration-below m p d ps times i e)
  | inr (f, n) ↦
      rw (n, mvp_duration) (mvp_duration-below (if ltb f m then f else m) p d ps times i e)
]

-- The seed that answered fastest is recorded as valuable: where its time is not 0 and below 2^62,
-- and no seed that answered has a smaller one.
pub valuable_peers-fastest :
    (p : PeerId) (d : ℕ) (seed_peers : List PeerId) (times : List (PeerId × ℕ))
    → Has p seed_peers
    → time_of p times ≡ some d
    → 0 < d
    → d < 4611686018427387904
    → ((r : PeerId) (e : ℕ) → Has r seed_peers → time_of r times ≡ some e → d ≤ e)
    → Has p (valuable_peers seed_peers times)
unfolding valuable_peers is_valuable doubled
valuable_peers-fastest p d seed_peers times i t positive small k =
    let mvp = mvp_duration max_duration seed_peers times in
    let low = mvp_duration-above d max_duration seed_peers times (omega arith) k in
    let high = mvp_duration-below max_duration p d seed_peers times i t in
    (Has-select_iff (is_valuable mvp times) p seed_peers).1 (i, ground arith)
