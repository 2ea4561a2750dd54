-- ===== src/Routing/Best.antt =====
-- processValues chooses the best value, and knows who sent it.
use kadrtt_test_plan.Base.{
  ℕ, ◌≤◌, ◌<◌, ◌≡◌, refl, ap, ◌≢◌, ◌↔◌, ◌⊎◌, inl, inr, Bool, true, false, Option, some, List, [],
  ◌∷◌, ltb, if◌then◌else◌, All, Has, arith, Bool-cases,
}
use kadrtt_test_plan.Keyspace.{Bytes, PeerId, bytes_equal}
use kadrtt_test_plan.Keyspace.Order.{bytes_equal-eq, bytes_equal_refl}
use kadrtt_test_plan.Handlers.Peers.{is_listed}
use kadrtt_test_plan.Routing.Values.{
  RecvdVal, Best, bytes_of, insert_peer, tell, take_best, compare_value, process_value,
  process_values,
}

-- What is known of Select on two values: it never fails, and prefers one of a higher rank, such as
-- a later sequence number, or else the first.
pub record IsSelector (rank : Bytes → ℕ) (choose : List Bytes → Option ℕ) : Type 0 where
  pub prefers : (a b : Bytes) → choose (a ∷ b ∷ []) ≡ some (if ltb (rank a) (rank b) then 1 else 0)

-- Peer `p` sent the value `x`.
abbrev pub Sends : PeerId → Bytes → List RecvdVal → Type 0
Sends p x [] = ⊥
Sends p x (v ∷ vs) = ((v.from ≡ p) × (bytes_of v.val ≡ x)) ⊎ Sends p x vs

-- The callback that only lets the loop go on.
abbrev pub quiet : RecvdVal → Bool → Unit {0} → Unit {0} × Bool
quiet v better s = (s, false)

pub is_listed_iff : (p : PeerId) (ps : List PeerId) → (is_listed p ps ≡ true) ↔ Has p ps
unfolding is_listed
is_listed_iff p [] = ground arith
is_listed_iff p (q ∷ qs) = ground (arith, is_listed_iff p qs)

Has-insert_peer :
    (p q : PeerId) (ps : List PeerId) → Has p (insert_peer q ps) ↔ ((q ≡ p) ⊎ Has p ps)
unfolding insert_peer
Has-insert_peer p q ps = ground (arith, is_listed_iff q ps)

-- The value is not nil.
abbrev pub HasVal : RecvdVal → Type 0
HasVal v = v.val ≡ some (bytes_of v.val)

-- The results so far, where the value `x` is the best and the peers `ps` sent it.
abbrev pub held : Bytes → List PeerId → Best
held x ps = record { best = some x; peers_with_best = ps; aborted = false }

module _ (rank : Bytes → ℕ) (choose : List Bytes → Option ℕ) (l : IsSelector rank choose) where
  -- What the values `vs` make of the best value `x`, sent by `peers`.
  pub record Chosen (x : Bytes) (peers : List PeerId) (vs : List RecvdVal) (r : Best) : Type 0 where
    pub value : Bytes
    pub best : r.best ≡ some value
    pub going_on : r.aborted ≡ false
    pub greatest : All (λ v. rank (bytes_of v.val) ≤ rank value) vs
    pub senders :
        (p : PeerId) → Has p r.peers_with_best ↔ ((Has p peers × (x ≡ value)) ⊎ Sends p value vs)
    pub kept : (value ≡ x) ⊎ (rank x < rank value)

  -- One value, under any callback: the best value is kept and has one more sender, is kept, or
  -- gives way.
  pub step_same :
      {S : Type 0} (f : RecvdVal → Bool → S → S × Bool) (v : RecvdVal) (x : Bytes)
      (ps : List PeerId) (s : S)
      → bytes_equal x (bytes_of v.val) ≡ true
      → process_value choose f v (held x ps) s
        ≡ tell choose f v false (held x (insert_peer v.from ps)) s
  unfolding process_value tell
  step_same f v x ps s q = rw (process_value, q) refl

  pub step_worse :
      {S : Type 0} (f : RecvdVal → Bool → S → S × Bool) (v : RecvdVal) (x : Bytes)
      (ps : List PeerId) (s : S)
      → bytes_equal x (bytes_of v.val) ≡ false
      → rank (bytes_of v.val) ≤ rank x
      → process_value choose f v (held x ps) s ≡ tell choose f v false (held x ps) s
  unfolding process_value compare_value
  step_worse f v x ps s q h =
      let g : ltb (rank x) (rank (bytes_of v.val)) ≡ false = ground arith in
      rw (process_value, q) (rw (l.prefers x (bytes_of v.val), compare_value) (rw g refl))

  pub step_better :
      {S : Type 0} (f : RecvdVal → Bool → S → S × Bool) (v : RecvdVal) (x : Bytes)
      (ps : List PeerId) (s : S)
      → HasVal v
      → bytes_equal x (bytes_of v.val) ≡ false
      → rank x < rank (bytes_of v.val)
      → process_value choose f v (held x ps) s
        ≡ tell choose f v true (held (bytes_of v.val) (v.from ∷ [])) s
  unfolding process_value compare_value take_best tell
  step_better f v x ps s some_val q h =
      let g : ltb (rank x) (rank (bytes_of v.val)) ≡ true = ground arith in
      rw (process_value, q)
        (rw (l.prefers x (bytes_of v.val), compare_value)
          (rw g (
            ap
              (λ z. (
                record { best = z; peers_with_best = v.from ∷ []; aborted = (f v true s).1 },
                (f v true s).0,
              ))
              some_val)))

  -- The results of the loop on the values `vs`, from there on.
  abbrev pub result : List RecvdVal → Best → Best
  result vs b = (process_values choose quiet vs b tt).0

  next :
      (v : RecvdVal) (vs : List RecvdVal) (b b' : Best)
      → b.aborted ≡ false
      → (process_value choose quiet v b tt).0 ≡ b'
      → result (v ∷ vs) b ≡ result vs b'
  unfolding process_values
  next v vs b b' f e = rw (← e) (rw (f, process_values) refl)

  -- The three cases, under the callback that only lets the loop go on.
  pub quiet_same :
      (v : RecvdVal) (vs : List RecvdVal) (x : Bytes) (ps : List PeerId)
      → bytes_equal x (bytes_of v.val) ≡ true
      → result (v ∷ vs) (held x ps) ≡ result vs (held x (insert_peer v.from ps))
  unfolding tell
  quiet_same v vs x ps q =
      next v vs (held x ps) _ refl (ap (λ z. z.0) (step_same quiet v x ps tt q))

  pub quiet_worse :
      (v : RecvdVal) (vs : List RecvdVal) (x : Bytes) (ps : List PeerId)
      → bytes_equal x (bytes_of v.val) ≡ false
      → rank (bytes_of v.val) ≤ rank x
      → result (v ∷ vs) (held x ps) ≡ result vs (held x ps)
  unfolding tell
  quiet_worse v vs x ps q h =
      next v vs (held x ps) _ refl (ap (λ z. z.0) (step_worse quiet v x ps tt q h))

  pub quiet_better :
      (v : RecvdVal) (vs : List RecvdVal) (x : Bytes) (ps : List PeerId)
      → HasVal v
      → bytes_equal x (bytes_of v.val) ≡ false
      → rank x < rank (bytes_of v.val)
      → result (v ∷ vs) (held x ps) ≡ result vs (held (bytes_of v.val) (v.from ∷ []))
  unfolding tell
  quiet_better v vs x ps w q h =
      next v vs (held x ps) _ refl (ap (λ z. z.0) (step_better quiet v x ps tt w q h))

  Chosen-same :
      (v : RecvdVal) (vs : List RecvdVal) (x : Bytes) (ps : List PeerId) (r : Best)
      → x ≡ bytes_of v.val
      → Chosen x (insert_peer v.from ps) vs r
      → Chosen x ps (v ∷ vs) r
  Chosen-same v vs x ps r q c = record {
    value = c.value;
    best = c.best;
    going_on = c.going_on;
    greatest = (ground (arith, c.kept), c.greatest);
    senders = λ p. ground (arith, c.senders p, Has-insert_peer p v.from ps);
    kept = c.kept;
  }

  Chosen-worse :
      (v : RecvdVal) (vs : List RecvdVal) (x : Bytes) (ps : List PeerId) (r : Best)
      → x ≢ bytes_of v.val
      → rank (bytes_of v.val) ≤ rank x
      → Chosen x ps vs r
      → Chosen x ps (v ∷ vs) r
  Chosen-worse v vs x ps r ne h c =
      let lower : rank (bytes_of v.val) ≤ rank c.value = ground (arith, c.kept) in
      let other : bytes_of v.val ≢ c.value = ground (arith, c.kept) in
      record {
        value = c.value;
        best = c.best;
        going_on = c.going_on;
        greatest = (lower, c.greatest);
        senders = λ p. ground (arith, c.senders p);
        kept = c.kept;
      }

  Chosen-better :
      (v : RecvdVal) (vs : List RecvdVal) (x : Bytes) (ps : List PeerId) (r : Best)
      → rank x < rank (bytes_of v.val)
      → Chosen (bytes_of v.val) (v.from ∷ []) vs r
      → Chosen x ps (v ∷ vs) r
  Chosen-better v vs x ps r h c =
      let higher : rank x < rank c.value = ground (arith, c.kept) in
      let other : x ≢ c.value = ground arith in
      record {
        value = c.value;
        best = c.best;
        going_on = c.going_on;
        greatest = (ground (arith, c.kept), c.greatest);
        senders = λ p. ground (arith, c.senders p);
        kept = inr higher;
      }

  pub process_values-Chosen :
      (vs : List RecvdVal) (x : Bytes) (ps : List PeerId)
      → All HasVal vs
      → Chosen x ps vs (result vs (held x ps))
  unfolding process_values
  process_values-Chosen [] x ps a = record {
    value = x;
    best = refl;
    going_on = refl;
    greatest = tt;
    senders = λ p. ground arith;
    kept = inl refl;
  }
  process_values-Chosen (v ∷ vs) x ps a = elim (Bool-cases (bytes_equal x (bytes_of v.val))) [
    | inl q ↦ rw (quiet_same v vs x ps q) (
        Chosen-same v vs x ps _ (bytes_equal-eq x (bytes_of v.val) q)
          (process_values-Chosen vs x (insert_peer v.from ps) a.1))
    | inr q ↦ elim (Bool-cases (ltb (rank x) (rank (bytes_of v.val)))) [
      | inl h ↦ rw (quiet_better v vs x ps a.0 q (ground arith)) (
          Chosen-better v vs x ps _ (ground arith)
            (process_values-Chosen vs (bytes_of v.val) (v.from ∷ []) a.1))
      | inr h ↦ rw (quiet_worse v vs x ps q (ground arith)) (
          Chosen-worse v vs x ps _ (ground (arith, bytes_equal_refl x)) (ground arith)
            (process_values-Chosen vs x ps a.1))
    ]
  ]
