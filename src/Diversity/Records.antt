-- ===== src/Diversity/Records.antt =====
-- The counts are those of the groups on record: the filter keeps this, and Remove undoes TryAdd.
use kadrtt_test_plan.Base.{
  ℕ, ◌≡◌, ◌≢◌, ◌⊎◌, refl, ap, ◌∙◌, sym, Bool, true, none, some, List, [], ◌∷◌, ◌==◌, if◌then◌else◌,
  lookup, put, delete, is_empty, lookup-delete, delete-IsMap, inl, inr, arith, Bool-cases,
  Option-cases,
}
use kadrtt_test_plan.Keyspace.{PeerId}
use kadrtt_test_plan.Diversity.{
  pos, PeerGroupInfo, inner_map, Filter, Network, groups_at, add_groups, admit_groups, groups_of,
  try_add, remove,
}
use kadrtt_test_plan.Diversity.Counts.{table_count, cpl_count, in_table, in_cpl}
use kadrtt_test_plan.Diversity.Tallies.{
  tally_of, tally, IsCounted, Counted-congr, tally-delete, add_groups-IsCounted,
  decrement_all-Counted, lookup-add_groups, tally-add_groups,
}

module _ (net : Network) where
  pub admit_groups-IsCounted :
      (p : PeerId) (gs : List PeerGroupInfo) (f : Filter)
      → IsCounted f
      → IsCounted (admit_groups net p gs f)
  unfolding admit_groups
  admit_groups-IsCounted p gs f v =
      add_groups-IsCounted p (net.cpl_fnc p) gs _ (record { map = v.map; counted = v.counted })

  -- TryAdd either leaves the filter alone or records the groups of a peer.
  pub try_add_cases :
      (p : PeerId) (f : Filter)
      → (((try_add net p f).0 ≡ f) × (((try_add net p f).1 ≡ true) → lookup p f.wlpeers ≢ none))
        ⊎ ((gs : List PeerGroupInfo) × ((try_add net p f).0 ≡ admit_groups net p gs f)
            × (groups_of net p f.pgm (net.peer_addresses p) ≡ some gs)
            × (net.peer_addresses p ≢ []))
  unfolding try_add
  try_add_cases p f = elim (Option-cases (lookup p f.wlpeers)) [
    | inr (w, e) ↦ inl (ground arith, ground arith)
    | inl e ↦ tried (net.peer_addresses p) refl e
  ]
    where
      tried :
          (l : List ℕ)
          → net.peer_addresses p ≡ l
          → lookup p f.wlpeers ≡ none
          → (((try_add net p f).0 ≡ f) × (((try_add net p f).1 ≡ true) → lookup p f.wlpeers ≢ none))
            ⊎ ((gs : List PeerGroupInfo) × ((try_add net p f).0 ≡ admit_groups net p gs f)
                × (groups_of net p f.pgm (net.peer_addresses p) ≡ some gs)
                × (net.peer_addresses p ≢ []))
      tried [] q e = inl (ground arith, λ h. absurd (ground arith))
      tried (a ∷ l) q e = elim (Option-cases (groups_of net p f.pgm (a ∷ l))) [
        | inl n ↦ inl (ground arith, λ h. absurd (ground arith))
        | inr (gs, n) ↦ inr (gs, ground arith, rw q n, ground arith)
      ]

  -- TryAdd keeps the counts equal to the groups on record.
  pub try_add-IsCounted : (p : PeerId) (f : Filter) → IsCounted f → IsCounted (try_add net p f).0
  try_add-IsCounted p f v = elim (try_add_cases p f) [
    | inl (e, _) ↦ rw e v
    | inr (gs, e, _, _) ↦ rw e (admit_groups-IsCounted p gs f v)
  ]

  -- Where the counts are those of the groups on record, Remove does not panic, and they are so
  -- again, with the peer's record gone and every other as it was.
  pub remove_total :
      (p : PeerId) (f : Filter)
      → IsCounted f
      → (f' : Filter) × (remove net p f ≡ some f')
        × IsCounted f'
        × (f'.peer_groups ≡ delete p f.peer_groups)
  unfolding remove
  remove_total p f v =
      let rest = delete p f.peer_groups in
      let gs = groups_at p f.peer_groups in
      let (r, e, h) =
        decrement_all-Counted gs (λ k. tally (in_table k) rest) (λ c k. tally (in_cpl c k) rest)
          f.pgm
          (Counted-congr _ _ _ _ f.pgm (λ k. sym (tally-delete (in_table k) p f.peer_groups v.map))
            (λ c k. sym (tally-delete (in_cpl c k) p f.peer_groups v.map)) v.counted) in
      let c = delete p (inner_map (net.cpl_fnc p) f.cpl_peer_groups) in
      (
        record f {
          pgm = r;
          peer_groups = rest;
          cpl_peer_groups =
              if is_empty c
              then delete (net.cpl_fnc p) f.cpl_peer_groups
              else put (net.cpl_fnc p) c f.cpl_peer_groups;
        },
        rw e refl,
        record { map = delete-IsMap p f.peer_groups v.map; counted = h },
        refl,
      )

  -- The tally after a peer without a record has come and gone.
  tally-there_and_back :
      (t : PeerGroupInfo → Bool) (p : PeerId) (gs : List PeerGroupInfo) (f : Filter)
      → IsCounted f
      → lookup p f.peer_groups ≡ none
      → tally t (delete p (admit_groups net p gs f).peer_groups) ≡ tally t f.peer_groups
  unfolding admit_groups groups_at tally_of
  tally-there_and_back t p gs f v n =
      let f0 : Filter = record f {
        cpl_peer_groups =
            put (net.cpl_fnc p) (inner_map (net.cpl_fnc p) f.cpl_peer_groups) f.cpl_peer_groups;
      } in
      let f1 = add_groups p (net.cpl_fnc p) gs f0 in
      let v1 =
        add_groups-IsCounted p (net.cpl_fnc p) gs f0
          (record { map = v.map; counted = v.counted }) in
      let none_yet : tally_of t (groups_at p f.peer_groups) ≡ 0 = ground arith in
      omega (
        arith,
        tally-delete t p f1.peer_groups v1.map,
        tally-add_groups t p (net.cpl_fnc p) gs f0,
        none_yet,
      )

  -- Remove undoes TryAdd: after a peer without a record that is not whitelisted was let in and taken
  -- off again, every count and every other peer's record is what it was.
  pub remove-try_add :
      (p : PeerId) (f : Filter)
      → IsCounted f
      → lookup p f.peer_groups ≡ none
      → lookup p f.wlpeers ≡ none
      → (try_add net p f).1 ≡ true
      → (f' : Filter) × (remove net p (try_add net p f).0 ≡ some f')
        × ((k : ℕ) → table_count k f'.pgm ≡ table_count k f.pgm)
        × ((c k : ℕ) → cpl_count c k f'.pgm ≡ cpl_count c k f.pgm)
        × ((q : PeerId) → lookup q f'.peer_groups ≡ lookup q f.peer_groups)
  unfolding admit_groups
  remove-try_add p f v fresh n done = elim (try_add_cases p f) [
    | inl (e, w) ↦ absurd (w done n)
    | inr (gs, e, _, _) ↦
        let v1 = admit_groups-IsCounted p gs f v in
        let (f', r, v', s) = remove_total p (admit_groups net p gs f) v1 in
        (
          f',
          rw e r,
          λ k.
              v'.counted.0 k
              ∙ ap pos
                  (ap (tally (in_table k)) s ∙ tally-there_and_back (in_table k) p gs f v fresh)
              ∙ sym (v.counted.0 k),
          λ c k.
              v'.counted.1 c k
              ∙ ap pos
                  (ap (tally (in_cpl c k)) s ∙ tally-there_and_back (in_cpl c k) p gs f v fresh)
              ∙ sym (v.counted.1 c k),
          λ q. ap (lookup q) s ∙ elim (Bool-cases (p == q)) [
            | inl i ↦ ground (arith, lookup-delete q p (admit_groups net p gs f).peer_groups)
            | inr i ↦
                lookup-delete q p (admit_groups net p gs f).peer_groups
                ∙ rw i (lookup-add_groups q p (net.cpl_fnc p) gs _ (ground arith))
          ],
        )
  ]
