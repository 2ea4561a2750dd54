-- ===== src/Diversity/Limits.antt =====
-- The limits that Allow tests: TryAdd keeps them for a peer whose addresses lie in different groups,
-- and passes them for one with two addresses in one group.
use kadrtt_test_plan.Base.{
  ℕ, suc, ◌+◌, ◌≤◌, ◌<◌, ◌≡◌, ◌≢◌, refl, ap, ◌∙◌, sym, Bool, true, false, none, some, List, [], ◌∷◌,
  map, lookup, put, inl, inr, arith, Bool-cases, Option-cases, >>=-eq-some, All, Differ,
}
use kadrtt_test_plan.Keyspace.{PeerId}
use kadrtt_test_plan.Diversity.{
  pos, is_below, PeerGroupInfo, count_at, inner_map, allow, increment, Filter, Network, add_group,
  add_groups, admit_groups, ip_group_key, group_of, groups_of, try_add,
}
use kadrtt_test_plan.Diversity.Counts.{table_count, in_table, in_cpl}
use kadrtt_test_plan.Diversity.Tallies.{tally_of, tally, IsCounted, tally-add}
use kadrtt_test_plan.Diversity.Records.{try_add_cases, admit_groups-IsCounted}

-- No IP group has more peers' addresses than the limits, in the table and for one prefix length.
pub record IsWithin (f : Filter) : Type 0 where
  pub table : (k : ℕ) → tally (in_table k) f.peer_groups ≤ f.pgm.max_for_table
  pub cpls : (c k : ℕ) → tally (in_cpl c k) f.peer_groups ≤ f.pgm.max_per_cpl

-- Each group was allowed on the counts as they were.
abbrev AllAllowed : Filter → List PeerGroupInfo → Type 0
AllAllowed f gs = All (λ (g : PeerGroupInfo). allow g f.pgm ≡ true) gs

allow-lt :
    (g : PeerGroupInfo) (f : Filter)
    → IsCounted f
    → 0 < f.pgm.max_per_cpl
    → allow g f.pgm ≡ true
    → (tally (in_table g.ip_group_key) f.peer_groups < f.pgm.max_for_table)
      × (tally (in_cpl g.cpl g.ip_group_key) f.peer_groups < f.pgm.max_per_cpl)
unfolding allow is_below inner_map count_at lookup
allow-lt g f v room a = elim (Option-cases (lookup g.cpl f.pgm.cpl_ip_group_count)) [
  | inl e ↦ ground (arith, v.counted.0 g.ip_group_key, v.counted.1 g.cpl g.ip_group_key)
  | inr (c, e) ↦ ground (arith, v.counted.0 g.ip_group_key, v.counted.1 g.cpl g.ip_group_key)
]

in_place_table :
    (k : ℕ) (g : PeerGroupInfo) (f : Filter)
    → in_table k g ≡ true
    → tally (in_table g.ip_group_key) f.peer_groups < f.pgm.max_for_table
    → tally (in_table k) f.peer_groups < f.pgm.max_for_table
in_place_table k g f i h = let same : g.ip_group_key ≡ k = ground arith in rw (← same) h

in_place_cpl :
    (c k : ℕ) (g : PeerGroupInfo) (f : Filter)
    → in_cpl c k g ≡ true
    → tally (in_cpl g.cpl g.ip_group_key) f.peer_groups < f.pgm.max_per_cpl
    → tally (in_cpl c k) f.peer_groups < f.pgm.max_per_cpl
in_place_cpl c k g f i h =
    let same : g.ip_group_key ≡ k = ground arith in
    let there : g.cpl ≡ c = ground arith in rw (← same) (rw (← there) h)

tally_of-absent :
    (t : PeerGroupInfo → Bool) (gs : List PeerGroupInfo)
    → All (λ g. t g ≡ false) gs
    → tally_of t gs ≡ 0
unfolding tally_of
tally_of-absent t [] a = refl
tally_of-absent t (g ∷ gs) a = ground (arith, tally_of-absent t gs a.1)

others-absent :
    (t : PeerGroupInfo → Bool) (k : ℕ)
    → ((g : PeerGroupInfo) → t g ≡ true → g.ip_group_key ≡ k)
    → (hs : List PeerGroupInfo)
    → All (λ k'. k' ≢ k) (map (λ (h : PeerGroupInfo). h.ip_group_key) hs)
    → All (λ h. t h ≡ false) hs
others-absent t k only [] a = tt
others-absent t k only (h ∷ hs) a = (
  elim (Bool-cases (t h)) [ inl e ↦ absurd (a.0 (only h e)) | inr e ↦ e ],
  others-absent t k only hs a.1,
)

-- Of groups with different keys at most one is counted under a key.
tally_of_one :
    (t : PeerGroupInfo → Bool) (k : ℕ) (gs : List PeerGroupInfo)
    → ((g : PeerGroupInfo) → t g ≡ true → g.ip_group_key ≡ k)
    → Differ (map (λ (g : PeerGroupInfo). g.ip_group_key) gs)
    → tally_of t gs ≤ 1
unfolding tally_of
tally_of_one t k [] only d = omega arith
tally_of_one t k (g ∷ gs) only d = elim (Bool-cases (t g)) [
  | inr e ↦ ground (arith, tally_of_one t k gs only d.1)
  | inl e ↦
      let none_else =
        tally_of-absent t gs
          (others-absent t g.ip_group_key (λ h i. only h i ∙ sym (only g e)) gs d.0) in
      ground (arith, none_else)
]

-- A count that has room for one where a group is counted at all, has room for groups that differ.
room_for_all :
    (t : PeerGroupInfo → Bool) (k n limit : ℕ) (f : Filter) (gs : List PeerGroupInfo)
    → ((g : PeerGroupInfo) → t g ≡ true → g.ip_group_key ≡ k)
    → ((g : PeerGroupInfo) → t g ≡ true → allow g f.pgm ≡ true → n < limit)
    → n ≤ limit
    → Differ (map (λ (g : PeerGroupInfo). g.ip_group_key) gs)
    → AllAllowed f gs
    → n + tally_of t gs ≤ limit
unfolding tally_of
room_for_all t k n limit f [] only room b d a = omega arith
room_for_all t k n limit f (g ∷ gs) only room b d a = elim (Bool-cases (t g)) [
  | inr e ↦ ground (arith, room_for_all t k n limit f gs only room b d.1 a.1)
  | inl e ↦ omega (arith, room g e a.0, tally_of_one t k (g ∷ gs) only d)
]

tally_added :
    (t : PeerGroupInfo → Bool) (p : PeerId) (cpl : ℕ) (gs : List PeerGroupInfo) (f : Filter)
    → tally t (add_groups p cpl gs f).peer_groups ≡ tally t f.peer_groups + tally_of t gs
unfolding add_groups add_group tally_of
tally_added t p cpl [] f = omega arith
tally_added t p cpl (g ∷ gs) f =
    omega (arith, tally_added t p cpl gs (add_group p cpl g f), tally-add t p g f.peer_groups)

limits_kept :
    (p : PeerId) (cpl : ℕ) (gs : List PeerGroupInfo) (f : Filter)
    → ((add_groups p cpl gs f).pgm.max_for_table ≡ f.pgm.max_for_table)
      × ((add_groups p cpl gs f).pgm.max_per_cpl ≡ f.pgm.max_per_cpl)
unfolding add_groups add_group increment
limits_kept p cpl [] f = (refl, refl)
limits_kept p cpl (g ∷ gs) f = limits_kept p cpl gs (add_group p cpl g f)

module _ (net : Network) where
  group_of-allowed :
      (p : PeerId) (f : Filter) (a : ℕ) (g : PeerGroupInfo)
      → group_of net p f.pgm a ≡ some g
      → allow g f.pgm ≡ true
  unfolding group_of
  group_of-allowed p f a g e =
      let (ip, i, e1) = >>=-eq-some (net.to_ip a) _ e in
      let (key, k, e2) = >>=-eq-some (ip_group_key net ip) _ e1 in
      let made : PeerGroupInfo = record { id = p; cpl = net.cpl_fnc p; ip_group_key = key } in
      elim (Bool-cases (allow made f.pgm)) [ inl y ↦ ground arith | inr y ↦ absurd (ground arith) ]

  groups_of-AllAllowed :
      (p : PeerId) (f : Filter) (l : List ℕ) (gs : List PeerGroupInfo)
      → groups_of net p f.pgm l ≡ some gs
      → AllAllowed f gs
  unfolding groups_of
  groups_of-AllAllowed p f [] gs e = let made : [] ≡ gs = ground arith in rw (← made) tt
  groups_of-AllAllowed p f (a ∷ l) gs e =
      let (g, ok, e1) = >>=-eq-some (group_of net p f.pgm a) _ e in
      let (hs, more, e2) = >>=-eq-some (groups_of net p f.pgm l) _ e1 in
      let made : g ∷ hs ≡ gs = ground arith in
      rw (← made) (group_of-allowed p f a g ok, groups_of-AllAllowed p f l hs more)

  -- TryAdd keeps the limits, where the limit of each prefix length is above 0, the counts are those of
  -- the groups on record, and the addresses of the peer lie in groups that differ.
  pub try_add-IsWithin :
      (p : PeerId) (f : Filter) (gs : List PeerGroupInfo)
      → IsCounted f
      → IsWithin f
      → 0 < f.pgm.max_per_cpl
      → groups_of net p f.pgm (net.peer_addresses p) ≡ some gs
      → Differ (map (λ (g : PeerGroupInfo). g.ip_group_key) gs)
      → IsWithin (try_add net p f).0
  unfolding admit_groups
  try_add-IsWithin p f gs v w room e d = elim (try_add_cases net p f) [
    | inl (same, _) ↦ rw same w
    | inr (hs, made, e', _) ↦
        let f0 : Filter = record f {
          cpl_peer_groups =
              put (net.cpl_fnc p) (inner_map (net.cpl_fnc p) f.cpl_peer_groups) f.cpl_peer_groups;
        } in
        let these : hs ≡ gs = ground arith in
        let allowed = groups_of-AllAllowed p f (net.peer_addresses p) gs e in
        let kept = limits_kept p (net.cpl_fnc p) gs f0 in
        rw made (
          rw these (record {
            table = λ k. omega (
              arith,
              kept.0,
              tally_added (in_table k) p (net.cpl_fnc p) gs f0,
              room_for_all (in_table k) k (tally (in_table k) f.peer_groups) f.pgm.max_for_table f
                  gs (λ g i. ground arith)
                  (λ g i a. in_place_table k g f i (allow-lt g f v room a).0) (w.table k) d allowed,
            );
            cpls = λ c k. omega (
              arith,
              kept.1,
              tally_added (in_cpl c k) p (net.cpl_fnc p) gs f0,
              room_for_all (in_cpl c k) k (tally (in_cpl c k) f.peer_groups) f.pgm.max_per_cpl f gs
                  (λ g i. ground arith) (λ g i a. in_place_cpl c k g f i (allow-lt g f v room a).1)
                  (w.cpls c k) d allowed,
            );
          }))
  ]

  try_add-admits :
      (p : PeerId) (f : Filter) (gs : List PeerGroupInfo)
      → lookup p f.wlpeers ≡ none
      → net.peer_addresses p ≢ []
      → groups_of net p f.pgm (net.peer_addresses p) ≡ some gs
      → try_add net p f ≡ (admit_groups net p gs f, true)
  unfolding try_add
  try_add-admits p f gs n some_addresses e = of_list (net.peer_addresses p) refl
    where
      of_list :
          (l : List ℕ)
          → net.peer_addresses p ≡ l
          → try_add net p f ≡ (admit_groups net p gs f, true)
      of_list [] q = absurd (some_addresses q)
      of_list (a ∷ l) q =
          let made : groups_of net p f.pgm (a ∷ l) ≡ some gs =
            ap (groups_of net p f.pgm) (sym q) ∙ e in
          ground arith

  -- TryAdd passes the limit of the table where a peer has two addresses in one allowed group and the
  -- group has room for one: Allow is asked for each of them before either is counted.
  pub try_add_over :
      (p : PeerId) (f : Filter) (g : PeerGroupInfo)
      → IsCounted f
      → groups_of net p f.pgm (net.peer_addresses p) ≡ some (g ∷ g ∷ [])
      → lookup p f.wlpeers ≡ none
      → tally (in_table g.ip_group_key) f.peer_groups + 1 ≡ f.pgm.max_for_table
      → ((try_add net p f).1 ≡ true)
        × (table_count g.ip_group_key (try_add net p f).0.pgm ≡ pos (suc f.pgm.max_for_table))
  unfolding admit_groups groups_of tally_of
  try_add_over p f g v e n full =
      let addressed : net.peer_addresses p ≢ [] =
        λ q. none_added (ap (groups_of net p f.pgm) (sym q) ∙ e) in
      let done = try_add-admits p f (g ∷ g ∷ []) n addressed e in
      let v1 = admit_groups-IsCounted net p (g ∷ g ∷ []) f v in
      rw done (
        refl,
        v1.counted.0 g.ip_group_key
            ∙ ap pos (
                tally_added (in_table g.ip_group_key) p (net.cpl_fnc p) (g ∷ g ∷ []) _
                ∙ ground arith),
      )
    where
      none_added : some [] ≡ some (g ∷ g ∷ []) → ⊥
      none_added q = cc
