-- ===== src/Routing/Sources.antt =====
-- Where the values of a search come from: the channel of getValues.
use kadrtt_test_plan.Base.{
  ◌≡◌, refl, sym, ap, ◌∙◌, ◌⊎◌, inl, inr, true, Option, none, some, List, [], ◌∷◌, Has,
  Has-append_iff, arith, Bool-cases, Option-cases,
}
use kadrtt_test_plan.Keyspace.{Bytes, PeerId}
use kadrtt_test_plan.Handlers.{Record, Backend, Reading, record_found, nothing, failed_reading}
use kadrtt_test_plan.Handlers.Peers.{AddrInfo}
use kadrtt_test_plan.Routing.Values.{RecvdVal}
use kadrtt_test_plan.Routing.Storing.{
  ValueAnswer, ValueOrPeers, got_value, invalid_record, only_peers, nothing_found, request_failed,
  non_nil, value_of_reply, get_local, get_value_or_peers, values_of_replies, get_values,
}

module _ {S : Type 0} (b : Backend S) where
  -- The value is that of a record in an answer of its peer, valid for the key in that record, and
  -- not nil.
  abbrev pub Answers : RecvdVal → List (PeerId × Option ValueAnswer) → Type 0
  Answers v replies =
      (rec : Record) × (answer : ValueAnswer) × Has (v.from, some answer) replies
      × (answer.rec ≡ some rec)
      × (b.validate rec.key rec.value ≡ true)
      × (v.val ≡ some rec.value)
      × (non_nil rec.value ≡ some rec.value)

  got_value_valid :
      (a : ValueAnswer) (rec : Record) (closer : List AddrInfo)
      → get_value_or_peers b (some a) ≡ got_value rec closer
      → (a.rec ≡ some rec) × (b.validate rec.key rec.value ≡ true)
  unfolding get_value_or_peers
  got_value_valid a rec closer e = elim (Option-cases a.rec) [
    | inl n ↦
        elim (no_value a.closer (rw (n, get_value_or_peers) at e))
          as (λ _. (a.rec ≡ some rec) × (b.validate rec.key rec.value ≡ true)) [ ]
    | inr (r, n) ↦ elim (Bool-cases (b.validate r.key r.value)) [
      | inr f ↦ absurd (ground arith)
      | inl ok ↦ let same : r ≡ rec = ground arith in (n ∙ ap some same, rw (← same) ok)
    ]
  ]
    where
      no_value :
          (infos : List AddrInfo)
          → (elim infos as (λ _. ValueOrPeers) [
            | [] ↦ nothing_found
            | i ∷ is ↦ only_peers (i ∷ is)
          ])
            ≡ got_value rec closer
          → ⊥
      no_value [] q = cc
      no_value (i ∷ infos) q = cc

  pub non_nil-some : (v w : Bytes) → non_nil v ≡ some w → v ≡ w
  non_nil-some [] w e = cc
  non_nil-some (x ∷ v) w e = cc

  Has-reply :
      (v : RecvdVal) (p : PeerId) (answer : Option ValueAnswer)
      → Has v (value_of_reply p (get_value_or_peers b answer))
      → Answers v ((p, answer) ∷ [])
  unfolding value_of_reply get_value_or_peers
  Has-reply v p none h = absurd h
  Has-reply v p (some a) h = cases (get_value_or_peers b (some a)) refl h
    where
      cases :
          (x : ValueOrPeers)
          → get_value_or_peers b (some a) ≡ x
          → Has v (value_of_reply p x)
          → Answers v ((p, some a) ∷ [])
      cases (invalid_record closer) e m = absurd m
      cases (only_peers closer) e m = absurd m
      cases nothing_found e m = absurd m
      cases request_failed e m = absurd m
      cases (got_value rec closer) e m = elim (Option-cases (non_nil rec.value)) [
        | inl n ↦ absurd (rw (n, value_of_reply) at m)
        | inr (w, n) ↦
            let (has_rec, ok) = got_value_valid a rec closer e in
            let same = non_nil-some rec.value w n in
            elim (rw (n, value_of_reply) at m) [
              | inl q ↦ (
                rec,
                a,
                inl (rw q refl),
                has_rec,
                ok,
                rw q (ap some (sym same)),
                n ∙ ap some (sym same),
              )
              | inr q ↦ absurd q
            ]
      ]

  Answers-later :
      (v : RecvdVal) (r : PeerId × Option ValueAnswer)
      (replies : List (PeerId × Option ValueAnswer))
      → Answers v replies
      → Answers v (r ∷ replies)
  Answers-later v r replies (rec, a, m, e, f, g, k) = (rec, a, inr m, e, f, g, k)

  Answers-first :
      (v : RecvdVal) (r : PeerId × Option ValueAnswer)
      (replies : List (PeerId × Option ValueAnswer))
      → Answers v (r ∷ [])
      → Answers v (r ∷ replies)
  Answers-first v r replies (rec, a, inl m, e, f, g, k) = (rec, a, inl m, e, f, g, k)
  Answers-first v r replies (rec, a, inr m, e, f, g, k) = absurd m

  values_of_replies-Answers :
      (v : RecvdVal) (replies : List (PeerId × Option ValueAnswer))
      → Has v (values_of_replies b replies)
      → Answers v replies
  unfolding values_of_replies
  values_of_replies-Answers v [] h = absurd h
  values_of_replies-Answers v ((p, answer) ∷ replies) h =
      elim ((Has-append_iff v (value_of_reply p (get_value_or_peers b answer))
          (values_of_replies b replies)).0
        h) [
          | inl m ↦ Answers-first v (p, answer) replies (Has-reply v p answer m)
          | inr m ↦ Answers-later v (p, answer) replies (values_of_replies-Answers v replies m)
        ]

  -- Every value that getValues sends is the node's own, read from its datastore for the key, or one
  -- that is not nil and came in a record of a peer's answer, which is valid for the record's own key.
  pub get_values-Answers :
      (self : PeerId) (key : Bytes) (s : S) (replies : List (PeerId × Option ValueAnswer))
      (v : RecvdVal)
      → Has v (get_values b self key s replies)
      → ((rec : Record) × (get_local b key s ≡ record_found rec)
          × (v ≡ record { val = non_nil rec.value; from = self }))
        ⊎ Answers v replies
  unfolding get_values
  get_values-Answers self key s replies v h = cases (get_local b key s) refl h
    where
      cases :
          (x : Reading)
          → get_local b key s ≡ x
          → Has v (elim x as (λ _. List RecvdVal) [
            | record_found rec ↦
                record { val = non_nil rec.value; from = self } ∷ values_of_replies b replies
            | nothing ↦ values_of_replies b replies
            | failed_reading ↦ values_of_replies b replies
          ])
          → ((rec : Record) × (get_local b key s ≡ record_found rec)
              × (v ≡ record { val = non_nil rec.value; from = self }))
            ⊎ Answers v replies
      cases (record_found rec) e (inl q) = inl (rec, e, q)
      cases (record_found rec) e (inr m) = inr (values_of_replies-Answers v replies m)
      cases nothing e m = inr (values_of_replies-Answers v replies m)
      cases failed_reading e m = inr (values_of_replies-Answers v replies m)
