-- ===== src/Routing/Putting.antt =====
-- A value that PutValue publishes is what the node reads for its key.
use kadrtt_test_plan.Base.{
  ℕ, ◌≡◌, refl, ap, ◌∙◌, ◌⊎◌, inl, inr, Bool, true, Option, none, some, List, [], ◌∷◌, ◌==◌,
  if◌then◌else◌, arith, Bool-cases, Option-cases,
}
use kadrtt_test_plan.Keyspace.{Bytes, PeerId, bytes_equal}
use kadrtt_test_plan.Keyspace.Order.{bytes_equal-eq, bytes_equal_refl}
use kadrtt_test_plan.Handlers.{
  Record, Backend, Reading, record_found, nothing, failed_reading, convert_to_ds_key,
  get_record_from_datastore,
}
use kadrtt_test_plan.Handlers.Storing.{IsBackend}
use kadrtt_test_plan.Routing.Storing.{
  values_disabled, invalid_value, datastore_failed, no_choice, newer_value, not_stored,
  no_closest_peers, PutOutcome, offered, failed, get_local, put_local, publish, publish_if_better,
  put_value,
}

module _ {S : Type 0} (b : Backend S) (l : IsBackend b) (make_put_record : Bytes → Bytes → Record)
    (made : (k v : Bytes) → ((make_put_record k v).key ≡ k) × ((make_put_record k v).value ≡ v))
    (closest : Option (List PeerId)) (key value : Bytes) (now : ℕ) where
  -- The value on record, if there is one, is the new one or not better.
  abbrev pub Allows : Reading → Type 0
  Allows (record_found old) = (old.value ≡ value) ⊎ (b.select key (value ∷ old.value ∷ []) ≡ some 0)
  Allows nothing = Unit
  Allows failed_reading = ⊥

  -- The record `r` is read for the key from the store `s'`, and it may take the place of what is read
  -- from `s`.
  abbrev pub IsStored : S → S → Record → Type 0
  IsStored s s' r =
      (b.validate key value ≡ true)
      × Allows (get_local b key s)
      × (r.value ≡ value)
      × (r.time_received ≡ b.format_time now)
      × (get_local b key s' ≡ record_found r)

  -- What each outcome says of the store.
  abbrev pub IsPut : S → S × PutOutcome → Type 0
  IsPut s (s', offered r ps) = (closest ≡ some ps) × IsStored s s' r
  IsPut s (s', failed no_closest_peers) = (closest ≡ none) × ((r : Record) × IsStored s s' r)
  IsPut s (s', failed not_stored) = Unit
  IsPut s (s', failed values_disabled) = s' ≡ s
  IsPut s (s', failed invalid_value) = s' ≡ s
  IsPut s (s', failed datastore_failed) = s' ≡ s
  IsPut s (s', failed no_choice) = s' ≡ s
  IsPut s (s', failed newer_value) = s' ≡ s

  abbrev new_record : Record
  new_record = record (make_put_record key value) { time_received = b.format_time now }

  read_back :
      (s : S)
      → b.validate key value ≡ true
      → (put_local b key new_record s).1 ≡ true
      → get_local b key (put_local b key new_record s).0 ≡ record_found new_record
  unfolding put_local get_local get_record_from_datastore
  read_back s ok e = elim (Option-cases (b.marshal new_record)) [
    | inl n ↦ absurd (ground arith)
    | inr (v, n) ↦
        let k = convert_to_ds_key b key in
        let wrote : (b.put k v s).1 ≡ true = rw (n, put_local) at e in
        let decoded = l.unmarshal-marshal new_record v n in
        let valid : b.validate new_record.key new_record.value ≡ true =
          rw ((made key value).0, (made key value).1) ok in
        let same : bytes_equal new_record.key key ≡ true =
          rw (made key value).0 (bytes_equal_refl key) in
        let got : get_record_from_datastore b k (b.put k v s).0 ≡ record_found new_record =
          rw (l.get-put k v s wrote, get_record_from_datastore) (rw decoded (rw valid refl)) in
        rw (n, put_local) (rw (got, get_local) (rw same refl))
  ]

  publish-IsPut :
      (s : S)
      → b.validate key value ≡ true
      → Allows (get_local b key s)
      → IsPut s (publish b make_put_record closest key value now s)
  unfolding publish
  publish-IsPut s ok allows = elim (Bool-cases (put_local b key new_record s).1) [
    | inr e ↦ rw (e, publish) tt
    | inl e ↦
        let stored : IsStored s (put_local b key new_record s).0 new_record =
          (ok, allows, (made key value).1, refl, read_back s ok e) in
        elim (Option-cases closest) [
          | inl n ↦ rw (e, publish) (rw n (refl, (new_record, stored)))
          | inr (ps, n) ↦ rw (e, publish) (rw n (refl, stored))
        ]
  ]

  better-IsPut :
      (s : S) (old : Record)
      → b.validate key value ≡ true
      → get_local b key s ≡ record_found old
      → IsPut s (publish_if_better b make_put_record closest key value old now s)
  unfolding publish_if_better
  better-IsPut s old ok e = elim (Option-cases (b.select key (value ∷ old.value ∷ []))) [
    | inl n ↦ rw (n, publish_if_better) refl
    | inr (i, n) ↦ elim (Bool-cases (i == 0)) [
      | inr z ↦ rw (n, publish_if_better) (rw z refl)
      | inl z ↦
          let first : i ≡ 0 = ground arith in
          rw (n, publish_if_better) (rw z (publish-IsPut s ok (rw e (inr (n ∙ ap some first)))))
    ]
  ]

  -- The datastore gives back what was put, records and times are decoded as encoded, and
  -- MakePutRecord makes a record of the key and the value. Where PutValue offers a record to peers,
  -- these are the closest peers, and where it fails for want of them all the same: the value is
  -- valid; what was on record for the key has that value already, or Select prefers the new one; and
  -- the node now reads the new record for the key, with the value and the time. Where a write fails
  -- nothing is said, and on every other error the store is as it was.
  pub put_value-IsPut :
      (enable_values : Bool) (s : S)
      → IsPut s (put_value b make_put_record closest enable_values key value now s)
  unfolding put_value
  put_value-IsPut enable_values s = elim (Bool-cases enable_values) [
    | inr e ↦ rw (e, put_value) refl
    | inl e ↦ elim (Bool-cases (b.validate key value)) [
      | inr f ↦ rw (e, put_value) (rw f refl)
      | inl f ↦ rw (e, put_value) (rw f (cases (get_local b key s) refl f))
    ]
  ]
    where
      cases :
          (r : Reading)
          → get_local b key s ≡ r
          → b.validate key value ≡ true
          → IsPut s (elim r [
            | failed_reading ↦ (s, failed datastore_failed)
            | nothing ↦ publish b make_put_record closest key value now s
            | record_found old ↦
                if bytes_equal old.value value
                then publish b make_put_record closest key value now s
                else publish_if_better b make_put_record closest key value old now s
          ])
      cases failed_reading e ok = refl
      cases nothing e ok = publish-IsPut s ok (rw e tt)
      cases (record_found old) e ok = elim (Bool-cases (bytes_equal old.value value)) [
        | inl q ↦ rw q (publish-IsPut s ok (rw e (inl (bytes_equal-eq old.value value q))))
        | inr q ↦ rw q (better-IsPut s old ok e)
      ]
