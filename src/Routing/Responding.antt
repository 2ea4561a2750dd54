-- ===== src/Routing/Responding.antt =====
-- What one response makes of the search: the callback of searchValueQuorum.
use kadrtt_test_plan.Base.{
  ℕ, suc, ◌-◌, ◌≤◌, ◌<◌, ◌≡◌, ap, ◌∙◌, ◌↔◌, inl, inr, Bool, true, false, ◌&&◌, Option, some, List,
  [], ◌∷◌, ltb, ◌==◌, if◌then◌else◌, length, take, All, Has, arith, Bool-cases,
}
use kadrtt_test_plan.Keyspace.{Bytes, PeerId, bytes_equal}
use kadrtt_test_plan.Routing.Values.{
  RecvdVal, Best, bytes_of, insert_peer, tell, process_value, Progress, last_streamed, check_quorum,
  on_response,
}
use kadrtt_test_plan.Routing.Best.{
  IsSelector, Sends, HasVal, held, result, step_same, step_worse, step_better, quiet_same,
  quiet_worse, quiet_better,
}

-- The responses are more than the quorum asks for.
abbrev pub is_enough : ℕ → ℕ → Bool
is_enough nvals n = ltb 0 nvals && ltb nvals n

-- The responses that count, after `n` others: one more than the quorum, or all.
abbrev pub counted : ℕ → ℕ → List RecvdVal → List RecvdVal
counted nvals n vs = if nvals == 0 then vs else take (suc nvals - n) vs

abbrev pub progress : ℕ → List (Option Bytes) → Progress
progress n out = record { num_responses = n; out = out; stopped = false }

module _ (rank : Bytes → ℕ) where
  -- Each value streamed is better than the one before.
  abbrev pub Rising : List (Option Bytes) → Type 0
  Rising [] = Unit
  Rising (v ∷ []) = Unit
  Rising (v ∷ w ∷ out) = (rank (bytes_of w) < rank (bytes_of v)) × Rising (w ∷ out)

  -- What the search comes to on the responses `vs`.
  pub record IsSearched (nvals : ℕ) (vs : List RecvdVal) (r : Best × Progress) : Type 0 where
    pub value : Bytes
    pub best : r.0.best ≡ some value
    pub greatest : All (λ v. rank (bytes_of v.val) ≤ rank value) (counted nvals 0 vs)
    pub senders : (p : PeerId) → Has p r.0.peers_with_best ↔ Sends p value (counted nvals 0 vs)
    pub streamed : last_streamed r.1.out ≡ some value
    pub rising : Rising r.1.out
    pub stops : r.1.stopped ≡ is_enough nvals (length vs)
    pub aborts : r.0.aborted ≡ r.1.stopped

module _ (rank : Bytes → ℕ) (choose : List Bytes → Option ℕ) (l : IsSelector rank choose)
    (is_delivered : ℕ → Bool) (sent : (n : ℕ) → is_delivered n ≡ true) (nvals : ℕ) where
  abbrev said : RecvdVal → Bool → Progress → Progress × Bool
  said = on_response is_delivered nvals

  -- The callback, where it does not stream and where it does.
  pub said_worse :
      (v : RecvdVal) (n : ℕ) (out : List (Option Bytes))
      → said v false (progress n out) ≡ (
        record (progress (suc n) out) { stopped = is_enough nvals (suc n) },
        is_enough nvals (suc n),
      )
  unfolding on_response check_quorum
  said_worse v n out = ground arith

  pub said_better :
      (v : RecvdVal) (n : ℕ) (out : List (Option Bytes))
      → said v true (progress n out) ≡ (
        record (progress (suc n) (v.val ∷ out)) { stopped = is_enough nvals (suc n) },
        is_enough nvals (suc n),
      )
  unfolding on_response check_quorum
  said_better v n out = rw (sent (suc n), on_response) (ground arith)

  -- What one response leaves, where the value `x` was the best and was streamed last.
  pub record Responded (v : RecvdVal) (n : ℕ) (x : Bytes) (ps : List PeerId)
      (out : List (Option Bytes)) : Type 0 where
    pub value : Bytes
    pub peers : List PeerId
    pub streams : List (Option Bytes)
    pub step : process_value choose said v (held x ps) (progress n out) ≡ (
      record (held value peers) { aborted = is_enough nvals (suc n) },
      record (progress (suc n) streams) { stopped = is_enough nvals (suc n) },
    )
    pub same :
        (vs : List RecvdVal)
        → result rank choose l (v ∷ vs) (held x ps) ≡ result rank choose l vs (held value peers)
    pub streamed : last_streamed streams ≡ some value
    pub rising : Rising rank streams

  told :
      (v : RecvdVal) (better : Bool) (n : ℕ) (x : Bytes) (ps : List PeerId)
      (out out' : List (Option Bytes))
      → said v better (progress n out) ≡ (
        record (progress (suc n) out') { stopped = is_enough nvals (suc n) },
        is_enough nvals (suc n),
      )
      → tell choose said v better (held x ps) (progress n out) ≡ (
        record (held x ps) { aborted = is_enough nvals (suc n) },
        record (progress (suc n) out') { stopped = is_enough nvals (suc n) },
      )
  unfolding tell
  told v better n x ps out out' e = ap (λ z. (record (held x ps) { aborted = z.1 }, z.0)) e

  Rising-cons :
      (w : Bytes) (v : Option Bytes) (x : Bytes) (out : List (Option Bytes))
      → v ≡ some w
      → last_streamed out ≡ some x
      → rank x < rank w
      → Rising rank out
      → Rising rank (v ∷ out)
  Rising-cons w v x [] q e h a = tt
  Rising-cons w v x (u ∷ out) q e h a = (rw q (rw (ap bytes_of e) h), a)

  pub respond :
      (v : RecvdVal) (n : ℕ) (x : Bytes) (ps : List PeerId) (out : List (Option Bytes))
      → HasVal v
      → last_streamed out ≡ some x
      → Rising rank out
      → Responded v n x ps out
  respond v n x ps out w s a = elim (Bool-cases (bytes_equal x (bytes_of v.val))) [
    | inl q ↦ record {
      value = x;
      peers = insert_peer v.from ps;
      streams = out;
      step =
          step_same rank choose l said v x ps (progress n out) q
          ∙ told v false n x (insert_peer v.from ps) out out (said_worse v n out);
      same = λ vs. quiet_same rank choose l v vs x ps q;
      streamed = s;
      rising = a;
    }
    | inr q ↦ elim (Bool-cases (ltb (rank x) (rank (bytes_of v.val)))) [
      | inl h ↦ record {
        value = bytes_of v.val;
        peers = v.from ∷ [];
        streams = v.val ∷ out;
        step =
            step_better rank choose l said v x ps (progress n out) w q (ground arith)
            ∙ told v true n (bytes_of v.val) (v.from ∷ []) out (v.val ∷ out) (said_better v n out);
        same = λ vs. quiet_better rank choose l v vs x ps w q (ground arith);
        streamed = w;
        rising = Rising-cons (bytes_of v.val) v.val x out w s (ground arith) a;
      }
      | inr h ↦ record {
        value = x;
        peers = ps;
        streams = out;
        step =
            step_worse rank choose l said v x ps (progress n out) q (ground arith)
            ∙ told v false n x ps out out (said_worse v n out);
        same = λ vs. quiet_worse rank choose l v vs x ps q (ground arith);
        streamed = s;
        rising = a;
      }
    ]
  ]
