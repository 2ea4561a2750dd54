-- ===== src/Examples/Routings.antt =====
-- The search for a value, where a longer value is better, and PutValue on the store of Messages.
use kadrtt_test_plan.Base.{
  ℕ, ◌≡◌, ◌↔◌, ◌⊎◌, refl, inl, inr, true, false, Option, none, some, List, [], ◌∷◌, ltb,
  if◌then◌else◌, length, Has,
}
use kadrtt_test_plan.Keyspace.{Bytes, PeerId, bytes_equal}
use kadrtt_test_plan.Handlers.{Record, record_found, get_record_from_datastore, convert_to_ds_key}
use kadrtt_test_plan.Routing.Values.{
  RecvdVal, Best, Progress, search_value_quorum, update_peers, get_value,
}
use kadrtt_test_plan.Routing.Best.{IsSelector, Sends}
use kadrtt_test_plan.Routing.Responding.{IsSearched, counted, is_enough}
use kadrtt_test_plan.Routing.Quorum.{search_value_quorum-IsSearched}
use kadrtt_test_plan.Routing.Correcting.{get_value-update_peers}
use kadrtt_test_plan.Routing.Storing.{
  ValueAnswer, value_of_reply, get_value_or_peers, get_local, non_nil, get_values, put_value,
  values_of_replies,
}
use kadrtt_test_plan.Routing.Putting.{IsPut, put_value-IsPut}
use kadrtt_test_plan.Routing.Sources.{Answers, get_values-Answers}
use kadrtt_test_plan.Examples.Messages.{small_backend, small_backend-IsBackend, seven, three_stored}

abbrev longer : List Bytes → Option ℕ
longer (a ∷ b ∷ vs) = some (if ltb (length a) (length b) then 1 else 0)
longer _ = none

longer-IsSelector : IsSelector length longer
longer-IsSelector = record { prefers = λ a b. refl }

abbrev value_from : PeerId → Bytes → RecvdVal
value_from p v = record { val = some v; from = p }

abbrev first_value : RecvdVal
first_value = value_from 4 (1 ∷ [])

-- Two more values of peers 5 and 6, the better one twice; the last is past the quorum of two.
abbrev more_values : List RecvdVal
more_values =
    value_from 5 (1 ∷ 2 ∷ []) ∷ value_from 6 (1 ∷ 2 ∷ []) ∷ value_from 7 (1 ∷ 2 ∷ 3 ∷ []) ∷ []

search_value_quorum-IsSearched_example :
    IsSearched length 2
      (first_value ∷ more_values)
      (search_value_quorum longer (λ n. true) 2 (first_value ∷ more_values))
search_value_quorum-IsSearched_example =
    search_value_quorum-IsSearched length longer longer-IsSelector (λ n. true) (λ n. refl) 2
      first_value more_values (refl, (refl, (refl, (refl, tt))))

-- With a quorum that is not reached, peer 4 is corrected.
searched :
    IsSearched length 4
      (first_value ∷ more_values)
      (search_value_quorum longer (λ n. true) 4 (first_value ∷ more_values))
searched =
    search_value_quorum-IsSearched length longer longer-IsSelector (λ n. true) (λ n. refl) 4
      first_value more_values (refl, (refl, (refl, (refl, tt))))

abbrev found_best : Best
found_best = (search_value_quorum longer (λ n. true) 4 (first_value ∷ more_values)).0

abbrev progress_made : Progress
progress_made = (search_value_quorum longer (λ n. true) 4 (first_value ∷ more_values)).1

get_value-update_peers_example :
    (get_value true false progress_made.out ≡ (some searched.value, none))
    × (Has first_value.from (update_peers found_best (4 ∷ 7 ∷ [])) ↔ (
        (is_enough 4 (length (first_value ∷ more_values)) ≡ false)
        × Has first_value.from (4 ∷ 7 ∷ [])
        × ¬ (Sends 4 searched.value (counted 4 0 (first_value ∷ more_values)))))
get_value-update_peers_example =
    get_value-update_peers length 4 (first_value ∷ more_values) found_best progress_made searched
      (4 ∷ 7 ∷ []) 4

abbrev put_record : Bytes → Bytes → Record
put_record k v = record { key = k; value = v; time_received = [] }

put_value-IsPut_example :
    IsPut small_backend small_backend-IsBackend put_record
      (λ k v. (refl, refl))
      (some (4 ∷ 5 ∷ []))
      seven
      (5 ∷ [])
      40
      three_stored
      (put_value small_backend put_record (some (4 ∷ 5 ∷ [])) true seven (5 ∷ []) 40 three_stored)
put_value-IsPut_example =
    put_value-IsPut small_backend small_backend-IsBackend put_record (λ k v. (refl, refl))
      (some (4 ∷ 5 ∷ [])) seven (5 ∷ []) 40 true three_stored

-- Peer 4 answers with a record, peer 5 with an error.
abbrev replies : List (PeerId × Option ValueAnswer)
replies =
    (4, some (record { rec = some (put_record seven (9 ∷ [])); closer = [] })) ∷ (5, none) ∷ []

get_values-Answers_example :
    ((rec : Record) × (get_local small_backend seven three_stored ≡ record_found rec)
      × (value_from 4 (9 ∷ []) ≡ record { val = non_nil rec.value; from = 0 }))
    ⊎ Answers small_backend (value_from 4 (9 ∷ [])) replies
unfolding get_values get_local get_record_from_datastore convert_to_ds_key bytes_equal
    values_of_replies value_of_reply get_value_or_peers
get_values-Answers_example =
    get_values-Answers small_backend 0 seven three_stored replies (value_from 4 (9 ∷ []))
      (inr (inl refl))
