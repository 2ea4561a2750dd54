-- ===== src/Routing/Values.antt =====
-- The search for a value, in routing.go: processValues, searchValueQuorum, SearchValue and GetValue.
-- A channel is the list of what comes from it; `none` is nil.
use kadrtt_test_plan.Base.{
  ℕ, suc, Bool, true, false, not, ◌&&◌, Option, none, some, List, [], ◌∷◌, ltb, ◌==◌, if◌then◌else◌,
  select,
}
use kadrtt_test_plan.Keyspace.{Bytes, PeerId, bytes_equal}
use kadrtt_test_plan.Handlers.Peers.{is_listed}

pub record RecvdVal : Type 0 where
  pub val : Option Bytes
  pub from : PeerId

-- The results of processValues; the map of peers is the list of its keys.
pub record Best : Type 0 where
  pub best : Option Bytes
  pub peers_with_best : List PeerId
  pub aborted : Bool

abbrev pub no_best : Best
no_best = record { best = none; peers_with_best = []; aborted = false }

-- A nil slice is read as an empty one.
abbrev pub bytes_of : Option Bytes → Bytes
bytes_of none = []
bytes_of (some v) = v

unfoldable pub insert_peer : PeerId → List PeerId → List PeerId
insert_peer p ps = if is_listed p ps then ps else p ∷ ps

-- `select` is the validator's Select for the key; `new_val` is called with what it works on, and its
-- answer sets `aborted`.
module _ {S : Type 0} (choose : List Bytes → Option ℕ)
    (new_val : RecvdVal → Bool → S → S × Bool) where
  unfoldable pub tell : RecvdVal → Bool → Best → S → Best × S
  tell v better b s = (record b { aborted = (new_val v better s).1 }, (new_val v better s).0)

  unfoldable pub take_best : RecvdVal → Best → S → Best × S
  take_best v b s = tell v true (record b { best = v.val; peers_with_best = v.from ∷ [] }) s

  -- A value that differs from the best one so far.
  unfoldable pub compare_value : Bytes → RecvdVal → Best → S → Best × S
  compare_value best v b s = elim (choose (best ∷ bytes_of v.val ∷ [])) [
    | none ↦ (b, s)
    | some sel ↦ if sel == 1 then take_best v b s else tell v false b s
  ]

  -- The body of the loop, for one value.
  unfoldable pub process_value : RecvdVal → Best → S → Best × S
  process_value v b s = elim b.best [
    | none ↦ take_best v b s
    | some best ↦
        if bytes_equal best (bytes_of v.val)
        then tell v false (record b { peers_with_best = insert_peer v.from b.peers_with_best }) s
        else compare_value best v b s
  ]

  -- The values that come before the channel is closed, or the context done.
  unfoldable pub process_values : List RecvdVal → Best → S → Best × S
  process_values [] b s = (b, s)
  process_values (v ∷ vs) b s =
      let (b', s') = process_value v b s in
      let rest = process_values vs b' s' in if b.aborted then (b, s) else rest

-- `out` has what was streamed, the last first; `stopped` tells whether `stopCh` is closed.
pub record Progress : Type 0 where
  pub num_responses : ℕ
  pub out : List (Option Bytes)
  pub stopped : Bool

abbrev pub no_progress : Progress
no_progress = record { num_responses = 0; out = []; stopped = false }

-- The test of the quorum, after a response.
unfoldable pub check_quorum : ℕ → Progress → Progress × Bool
check_quorum nvals s =
    if ltb 0 nvals && ltb nvals s.num_responses
    then (record s { stopped = true }, true)
    else (s, false)

-- The callback of searchValueQuorum. `is_delivered` tells of each response whether a value sent then
-- is taken before the context is done.
unfoldable pub on_response : (ℕ → Bool) → ℕ → RecvdVal → Bool → Progress → Progress × Bool
on_response is_delivered nvals v better s0 =
    let s = record s0 { num_responses = suc s0.num_responses } in
    if better
    then if is_delivered s.num_responses
      then check_quorum nvals (record s { out = v.val ∷ s.out })
      else (s, false)
    else check_quorum nvals s

unfoldable pub search_value_quorum :
    (List Bytes → Option ℕ) → (ℕ → Bool) → ℕ → List RecvdVal → Best × Progress
search_value_quorum choose is_delivered nvals vs =
    process_values choose (on_response is_delivered nvals) vs no_best no_progress

-- The peers that SearchValue sends the best value to, where the lookup came to the peers `found`.
unfoldable pub update_peers : Best → List PeerId → List PeerId
update_peers b found = elim b.best [
  | none ↦ []
  | some v ↦ if b.aborted then [] else select (λ p. not (is_listed p b.peers_with_best)) found
]

pub data GetError : Type 0 where
  not_found cancelled not_supported : GetError

-- What a range over the streamed values leaves in `best`.
abbrev pub last_streamed : List (Option Bytes) → Option Bytes
last_streamed [] = none
last_streamed (v ∷ vs) = v

-- `is_done` tells whether the context is done at the end. (A value may come with an error.)
unfoldable pub get_value : Bool → Bool → List (Option Bytes) → Option Bytes × Option GetError
get_value enable_values is_done out =
    let best = last_streamed out in
    if not enable_values
    then (none, some not_supported)
    else if is_done
    then (best, some cancelled)
    else elim best [ none ↦ (none, some not_found) | some v ↦ (some v, none) ]
