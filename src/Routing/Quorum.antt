-- ===== src/Routing/Quorum.antt =====
-- searchValueQuorum: the best of the responses up to the quorum, and what is streamed meanwhile.
use kadrtt_test_plan.Base.{
  ℕ, suc, ◌+◌, ◌-◌, ◌≡◌, refl, sym, ap, ◌∙◌, inl, inr, Bool, true, false, Option, some, List, [],
  ◌∷◌, ◌==◌, length, take_of_length-le, All, All-take, arith, Bool-cases,
}
use kadrtt_test_plan.Keyspace.{Bytes, PeerId}
use kadrtt_test_plan.Routing.Values.{
  RecvdVal, Best, bytes_of, no_best, tell, take_best, process_value, process_values, Progress,
  no_progress, last_streamed, on_response, search_value_quorum,
}
use kadrtt_test_plan.Routing.Best.{IsSelector, HasVal, held, result, process_values-Chosen}
use kadrtt_test_plan.Routing.Responding.{
  is_enough, counted, Rising, IsSearched, Responded, respond, progress, said_better,
}

module _ (rank : Bytes → ℕ) (choose : List Bytes → Option ℕ) (l : IsSelector rank choose)
    (is_delivered : ℕ → Bool) (sent : (n : ℕ) → is_delivered n ≡ true) (nvals : ℕ) where
  abbrev said : RecvdVal → Bool → Progress → Progress × Bool
  said = on_response is_delivered nvals

  abbrev run : List RecvdVal → Best → Progress → Best × Progress
  run vs b s = process_values choose said vs b s

  -- What the loop comes to, after `n` responses of which `x` was the best.
  record Goes (n : ℕ) (x : Bytes) (ps : List PeerId) (vs : List RecvdVal) (r : Best × Progress)
      : Type 0 where
    best : r.0.best ≡ (result rank choose l (counted nvals n vs) (held x ps)).best
    peers :
        r.0.peers_with_best
        ≡ (result rank choose l (counted nvals n vs) (held x ps)).peers_with_best
    streamed : last_streamed r.1.out ≡ r.0.best
    rising : Rising rank r.1.out
    stops : r.1.stopped ≡ is_enough nvals (n + length vs)
    aborts : r.0.aborted ≡ r.1.stopped

  run_aborted :
      (vs : List RecvdVal) (b : Best) (s : Progress) → b.aborted ≡ true → run vs b s ≡ (b, s)
  unfolding process_values
  run_aborted [] b s e = refl
  run_aborted (v ∷ vs) b s e = rw (e, process_values) refl

  run_step :
      (v : RecvdVal) (vs : List RecvdVal) (b : Best) (s : Progress) (r : Best × Progress)
      → b.aborted ≡ false
      → process_value choose said v b s ≡ r
      → run (v ∷ vs) b s ≡ run vs r.0 r.1
  unfolding process_values
  run_step v vs b s r f e = rw (← e) (rw (f, process_values) refl)

  counted_last :
      (v : RecvdVal) (vs : List RecvdVal) (n : ℕ)
      → is_enough nvals n ≡ false
      → is_enough nvals (suc n) ≡ true
      → counted nvals n (v ∷ vs) ≡ v ∷ []
  counted_last v vs n h k =
      let e : suc nvals - n ≡ 1 = ground arith in
      let z : (nvals == 0) ≡ false = ground arith in rw z (rw e refl)

  counted_next :
      (v : RecvdVal) (vs : List RecvdVal) (n : ℕ)
      → is_enough nvals (suc n) ≡ false
      → counted nvals n (v ∷ vs) ≡ v ∷ counted nvals (suc n) vs
  counted_next v vs n h = elim (Bool-cases (nvals == 0)) [
    | inl z ↦ rw z refl
    | inr z ↦ let e : suc nvals - n ≡ suc (suc nvals - suc n) = ground arith in rw z (rw e refl)
  ]

  -- The response that exceeds the quorum is the last one.
  Goes-last :
      (v : RecvdVal) (vs : List RecvdVal) (n : ℕ) (x : Bytes) (ps : List PeerId)
      (out : List (Option Bytes))
      → is_enough nvals n ≡ false
      → is_enough nvals (suc n) ≡ true
      → (d : Responded rank choose l is_delivered sent nvals v n x ps out)
      → Goes n x ps (v ∷ vs) (
          run vs
            (record (held d.value d.peers) { aborted = is_enough nvals (suc n) })
            (record (progress (suc n) d.streams) { stopped = is_enough nvals (suc n) }))
  unfolding process_values
  Goes-last v vs n x ps out h hit d =
      let only =
        ap (λ l'. result rank choose l l' (held x ps)) (counted_last v vs n h hit) ∙ d.same [] in
      rw
        (run_aborted vs (record (held d.value d.peers) { aborted = is_enough nvals (suc n) }) _ hit)
        (record {
          best = sym (ap (λ (z : Best). z.best) only);
          peers = sym (ap (λ (z : Best). z.peers_with_best) only);
          streamed = d.streamed;
          rising = d.rising;
          stops = ground arith;
          aborts = refl;
        })

  Goes-next :
      (v : RecvdVal) (vs : List RecvdVal) (n : ℕ) (x : Bytes) (ps : List PeerId)
      (out : List (Option Bytes))
      → is_enough nvals (suc n) ≡ false
      → (d : Responded rank choose l is_delivered sent nvals v n x ps out) → (r : Best × Progress)
      → Goes (suc n) d.value d.peers vs r
      → Goes n x ps (v ∷ vs) r
  Goes-next v vs n x ps out miss d r g =
      let more =
        ap (λ l'. result rank choose l l' (held x ps)) (counted_next v vs n miss)
        ∙ d.same (counted nvals (suc n) vs) in
      record {
        best = g.best ∙ sym (ap (λ (z : Best). z.best) more);
        peers = g.peers ∙ sym (ap (λ (z : Best). z.peers_with_best) more);
        streamed = g.streamed;
        rising = g.rising;
        stops = g.stops ∙ ap (is_enough nvals) (omega arith);
        aborts = g.aborts;
      }

  run-Goes :
      (vs : List RecvdVal) (n : ℕ) (x : Bytes) (ps : List PeerId) (out : List (Option Bytes))
      → All HasVal vs
      → is_enough nvals n ≡ false
      → last_streamed out ≡ some x
      → Rising rank out
      → Goes n x ps vs (run vs (held x ps) (progress n out))
  unfolding process_values
  run-Goes [] n x ps out a h s k =
      let none_left : counted nvals n [] ≡ [] = elim (Bool-cases (nvals == 0)) [
        | inl z ↦ rw z refl
        | inr z ↦ rw z (take_of_length-le (suc nvals - n) [] (omega arith))
      ] in
      record {
        best = rw none_left refl;
        peers = rw none_left refl;
        streamed = s;
        rising = k;
        stops = ground arith;
        aborts = refl;
      }
  run-Goes (v ∷ vs) n x ps out a h s k =
      let d = respond rank choose l is_delivered sent nvals v n x ps out a.0 s k in
      let e = run_step v vs (held x ps) (progress n out) _ refl d.step in
      elim (Bool-cases (is_enough nvals (suc n))) [
        | inl hit ↦ rw e (Goes-last v vs n x ps out h hit d)
        | inr miss ↦
            rw (e, miss)
              (Goes-next v vs n x ps out miss d _
                (run-Goes vs (suc n) d.value d.peers d.streams a.1 miss d.streamed d.rising))
      ]

  first_step :
      (v : RecvdVal) (vs : List RecvdVal)
      → HasVal v
      → search_value_quorum choose is_delivered nvals (v ∷ vs)
        ≡ run vs (held (bytes_of v.val) (v.from ∷ [])) (progress 1 (v.val ∷ []))
  unfolding search_value_quorum process_value take_best tell
  first_step v vs w =
      let early : is_enough nvals 1 ≡ false = ground arith in
      let e : process_value choose said v no_best no_progress
          ≡ (held (bytes_of v.val) (v.from ∷ []), progress 1 (v.val ∷ [])) =
        rw (process_value, said_better rank choose l is_delivered sent nvals v 0 [])
          (rw early (rw w refl)) in
      run_step v vs no_best no_progress _ refl e

  All-counted : (n : ℕ) (vs : List RecvdVal) → All HasVal vs → All HasVal (counted nvals n vs)
  All-counted n vs a = elim (Bool-cases (nvals == 0)) [
    | inl z ↦ rw z a
    | inr z ↦ rw z (All-take HasVal (suc nvals - n) vs a)
  ]

  -- The values come without nil, each send is taken, and Select prefers a value of a higher rank.
  -- Then searchValueQuorum counts one response more than the quorum, or all of them without a quorum:
  -- its best value has the highest rank among these, and was streamed last; its peers are exactly
  -- those among these that sent that value; each value streamed has a higher rank than the one
  -- before; and the query is stopped, and the loop aborted, exactly where the responses outnumber
  -- the quorum.
  pub search_value_quorum-IsSearched :
      (v : RecvdVal) (vs : List RecvdVal)
      → All HasVal (v ∷ vs)
      → IsSearched rank nvals (v ∷ vs) (search_value_quorum choose is_delivered nvals (v ∷ vs))
  search_value_quorum-IsSearched v vs a =
      let early : is_enough nvals 0 ≡ false = ground arith in
      let early' : is_enough nvals 1 ≡ false = ground arith in
      let x = bytes_of v.val in
      let g = run-Goes vs 1 x (v.from ∷ []) (v.val ∷ []) a.1 early' a.0 tt in
      let c =
        process_values-Chosen rank choose l (counted nvals 1 vs) x (v.from ∷ [])
          (All-counted 1 vs a.1) in
      rw (first_step v vs a.0) (record {
        value = c.value;
        best = g.best ∙ c.best;
        greatest = rw (counted_next v vs 0 early') (ground (arith, c.kept), c.greatest);
        senders = λ p. rw (counted_next v vs 0 early') (rw g.peers (ground (arith, c.senders p)));
        streamed = g.streamed ∙ g.best ∙ c.best;
        rising = g.rising;
        stops = g.stops ∙ ap (is_enough nvals) (omega arith);
        aborts = g.aborts;
      })
