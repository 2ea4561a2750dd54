-- ===== src/Routing/Providing.antt =====
-- Provide and makeProvRecord of routing.go. A time is its nanoseconds.
use kadrtt_test_plan.Base.{
  ℕ, ◌-◌, ◌/◌, ◌≤◌, ◌≡◌, refl, ◌≢◌, ◌⊎◌, inl, inr, Bool, true, false, not, Option, none, some, List,
  [], ◌∷◌, ltb, if◌then◌else◌, arith, Bool-cases,
}
use kadrtt_test_plan.Keyspace.{PeerId}

abbrev second : ℕ
second = 1000000000

-- The deadline of the lookup, if there is one; the outer `none` where the deadline has passed.
unfoldable pub closer_deadline : ℕ → Option ℕ → Option (Option ℕ)
closer_deadline now none = some none
closer_deadline now (some deadline) =
    let timeout = deadline - now in
    if ltb deadline now
    then none
    else if ltb timeout 10000000000
    then some (some (deadline - timeout / 10))
    else some (some (deadline - second))

-- The errors of a context.
pub data ContextError : Type 0 where
  deadline_exceeded context_canceled : ContextError

pub data ProvideError : Type 0 where
  providers_disabled invalid_cid no_known_addresses lookup_failed : ProvideError
  context_error : ContextError → ProvideError

-- What GetClosestPeers returns.
pub data ClosestPeers : Type 0 where
  closest_found : List PeerId → ClosestPeers
  closest_so_far : ContextError → List PeerId → ClosestPeers
  closest_failed : ClosestPeers

-- Whether the provider manager has taken the message of AddProvider, the peers that get the record,
-- and the error.
pub record Provided : Type 0 where
  pub added : Bool
  pub sent_to : List PeerId
  pub error : Option ProvideError

abbrev ended : Bool → Option ProvideError → Provided
ended is_taken e = record { added = is_taken; sent_to = []; error = e }

abbrev of_context : Option ContextError → Option ProvideError
of_context none = none
of_context (some e) = some (context_error e)

-- `is_taken` tells whether the manager takes the message before the context is done; else AddProvider
-- drops it, and tells nobody.
module _ (is_taken : Bool) where
  -- The record is made of the node's addresses, if it has any, and sent; `at_end` is the error that
  -- is returned.
  unfoldable pub send_record : List ℕ → List PeerId → Option ProvideError → Provided
  send_record [] peers at_end = ended is_taken (some no_known_addresses)
  send_record (a ∷ addrs) peers at_end = record {
    added = is_taken;
    sent_to = peers;
    error = at_end;
  }

  -- `in_lookup` is the context's error after the lookup, and `at_end` that after the sends.
  unfoldable pub send_to_closest :
      List ℕ → Option ContextError → Option ContextError → ClosestPeers → Provided
  send_to_closest addrs in_lookup at_end (closest_found peers) =
      send_record addrs peers (of_context at_end)
  send_to_closest addrs none at_end (closest_so_far deadline_exceeded peers) =
      send_record addrs peers (some (context_error deadline_exceeded))
  send_to_closest addrs (some e) at_end (closest_so_far deadline_exceeded peers) =
      ended is_taken (some (context_error e))
  send_to_closest addrs in_lookup at_end (closest_so_far context_canceled peers) =
      ended is_taken (some (context_error context_canceled))
  send_to_closest addrs in_lookup at_end closest_failed = ended is_taken (some lookup_failed)

  -- `closest` is what GetClosestPeers returns by the deadline of the lookup.
  unfoldable pub provide :
      Bool
      → Bool
      → Bool
      → ℕ
      → Option ℕ
      → (Option ℕ → ClosestPeers)
      → List ℕ
      → Option ContextError
      → Option ContextError
      → Provided
  provide enable_providers is_defined brdcst now deadline closest addrs in_lookup at_end =
      if not enable_providers
      then record { added = false; sent_to = []; error = some providers_disabled }
      else if not is_defined
      then record { added = false; sent_to = []; error = some invalid_cid }
      else if not brdcst
      then ended is_taken none
      else elim (closer_deadline now deadline) [
        | none ↦ ended is_taken (some (context_error deadline_exceeded))
        | some closer ↦ send_to_closest addrs in_lookup at_end (closest closer)
      ]

-- Where the deadline has not passed, the lookup ends earlier by a tenth of the time that is left, but
-- by no more than a second, and not before now.
pub closer_deadline-some :
    (now deadline : ℕ)
    → now ≤ deadline
    → (closer : ℕ) × (reserve : ℕ) × (closer_deadline now (some deadline) ≡ some (some closer))
      × (closer ≡ deadline - reserve)
      × (reserve
          ≡ (if ltb ((deadline - now) / 10) 1000000000 then (deadline - now) / 10 else 1000000000))
      × (now ≤ closer)
      × (closer ≤ deadline)
unfolding closer_deadline
closer_deadline-some now deadline h =
    let on_time : ltb deadline now ≡ false = ground arith in
    elim (Bool-cases (ltb (deadline - now) 10000000000)) [
      | inl e ↦ (
        deadline - (deadline - now) / 10,
        (deadline - now) / 10,
        rw (on_time, closer_deadline) (rw e refl),
        refl,
        ground arith,
        omega arith,
        omega arith,
      )
      | inr e ↦ (
        deadline - second,
        second,
        rw (on_time, closer_deadline) (rw e refl),
        refl,
        ground arith,
        ground arith,
        omega arith,
      )
    ]

-- The deadline of the lookup: none where there is none; else it has not passed, and a tenth of the time
-- that is left is kept back, or a second where that is less.
abbrev pub IsEarlier : ℕ → Option ℕ → Option ℕ → Type 0
IsEarlier now none closer = closer ≡ none
IsEarlier now (some deadline) closer =
    (e : ℕ) × (closer ≡ some e)
    × (now ≤ e)
    × (e ≤ deadline)
    × (deadline - e
        ≡ (if ltb ((deadline - now) / 10) 1000000000 then (deadline - now) / 10 else 1000000000))

module _ (is_taken enable_providers is_defined brdcst : Bool) (now : ℕ) (deadline : Option ℕ)
    (closest : Option ℕ → ClosestPeers) (addrs : List ℕ)
    (in_lookup at_end : Option ContextError) where
  abbrev pub outcome : Provided
  outcome =
      provide is_taken enable_providers is_defined brdcst now deadline closest addrs in_lookup
        at_end

  -- The message to the provider manager, and the sends where it was to broadcast.
  abbrev pub IsAnnounced : Provided → Type 0
  IsAnnounced r =
      ((brdcst ≡ false) × (r.added ≡ is_taken) × (r.sent_to ≡ []))
      ⊎ ((r.added ≡ true)
          × ((closer : Option ℕ) × IsEarlier now deadline closer
              × (closest closer ≡ closest_found r.sent_to)
              × (at_end ≡ none)
              × (addrs ≢ [])))
