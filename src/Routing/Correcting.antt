-- ===== src/Routing/Correcting.antt =====
-- What follows the search: GetValue's answer, and the peers that SearchValue corrects.
use kadrtt_test_plan.Base.{
  ℕ, ◌≡◌, refl, ◌↔◌, inl, inr, true, false, not, none, some, List, Has, Has-select_iff, length,
  arith, Bool-cases,
}
use kadrtt_test_plan.Keyspace.{Bytes, PeerId}
use kadrtt_test_plan.Handlers.Peers.{is_listed}
use kadrtt_test_plan.Routing.Values.{RecvdVal, Best, Progress, update_peers, get_value}
use kadrtt_test_plan.Routing.Best.{Sends, is_listed_iff}
use kadrtt_test_plan.Routing.Responding.{IsSearched, counted, is_enough}

module _ (rank : Bytes → ℕ) (nvals : ℕ) (vs : List RecvdVal) (b : Best) (s : Progress)
    (d : IsSearched rank nvals vs (b, s)) where
  not_listed_iff :
      (p : PeerId)
      → (not (is_listed p b.peers_with_best) ≡ true) ↔ ¬ (Sends p d.value (counted nvals 0 vs))
  not_listed_iff p = ground (arith, is_listed_iff p b.peers_with_best, d.senders p)

  -- After such a search, with the context not done, GetValue returns the best value; SearchValue
  -- corrects no peer where the query was stopped by the quorum, and else exactly those peers of the
  -- lookup's result that did not send the best value.
  pub get_value-update_peers :
      (found : List PeerId) (p : PeerId)
      → (get_value true false s.out ≡ (some d.value, none))
        × (Has p (update_peers b found) ↔ (
            (is_enough nvals (length vs) ≡ false)
            × Has p found
            × ¬ (Sends p d.value (counted nvals 0 vs))))
  unfolding get_value update_peers
  get_value-update_peers found p = (
    rw (d.streamed, get_value) refl,
    elim (Bool-cases b.aborted) [
      | inl e ↦ rw (d.best, update_peers) (rw e (ground (arith, d.aborts, d.stops)))
      | inr e ↦
          rw (d.best, update_peers)
            (rw e (
              ground (
                arith,
                d.aborts,
                d.stops,
                not_listed_iff p,
                Has-select_iff (λ q. not (is_listed q b.peers_with_best)) p found,
              )))
    ],
  )
