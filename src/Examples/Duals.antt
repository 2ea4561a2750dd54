-- ===== src/Examples/Duals.antt =====
-- Two DHTs that answer in turn, one provider twice.
use kadrtt_test_plan.Base.{ℕ, ◌≤◌, ◌≡◌, ◌⊎◌, none, some, List, [], ◌∷◌, length, All, Differ}
use kadrtt_test_plan.Dual.{Arrival, from_wan, from_lan, start_merge, merge}
use kadrtt_test_plan.Dual.Merging.{Offered, merge_sound}

abbrev two : ℕ
two = 2

abbrev arrivals : List Arrival
arrivals =
    from_wan (some 4)
    ∷ from_lan (some 5)
    ∷ from_wan (some 5)
    ∷ from_lan none
    ∷ from_wan (some 6)
    ∷ []

merge_sound_example :
    Differ (merge arrivals (start_merge two)).sent
    × All (Offered arrivals) (merge arrivals (start_merge two)).sent
    × ((two ≡ 0) ⊎ (length (merge arrivals (start_merge two)).sent ≤ two))
merge_sound_example = merge_sound two arrivals
