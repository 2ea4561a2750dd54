-- ===== src/Handlers/Storing.antt =====
-- A value that was put is what is read next, and a worse one is refused.
use kadrtt_test_plan.Base.{
  ℕ, ◌-◌, ◌≤◌, ◌≡◌, inl, inr, refl, sym, ap, ◌∙◌, true, false, some, [], ◌∷◌, ◌==◌, Bool-cases,
  Option-cases, arith,
}
use kadrtt_test_plan.Keyspace.{Bytes, bytes_equal}
use kadrtt_test_plan.Keyspace.Order.{bytes_equal-eq}
use kadrtt_test_plan.Handlers.{
  Record, found, Backend, accepted, Reading, record_found, nothing, failed_reading, clean_record,
  is_empty_key, convert_to_ds_key, record_is_bad, check_local_datastore, get_record_from_datastore,
  store, store_if_better, replace_record, handle_put_value,
}

-- What is known of the backend: what was put is got, and what was encoded is decoded.
pub record IsBackend {S : Type 0} (b : Backend S) : Type 0 where
  pub get-put : (k v : Bytes) (s : S) → (b.put k v s).1 ≡ true → b.get k (b.put k v s).0 ≡ found v
  pub unmarshal-marshal : (r : Record) (v : Bytes) → b.marshal r ≡ some v → b.unmarshal v ≡ some r
  pub parse_time-format_time : (t : ℕ) → b.parse_time (b.format_time t) ≡ some t

module _ {S : Type 0} (b : Backend S) where
  -- The validator prefers the new value to a valid one on record.
  abbrev pub NotWorse : Record → Reading → Type 0
  NotWorse rec (record_found old) = b.select rec.key (rec.value ∷ old.value ∷ []) ≡ some 0
  NotWorse rec nothing = Unit
  NotWorse rec failed_reading = ⊥

  store_accepted :
      (rec r : Record) (now : ℕ) (s : S)
      → (store b rec now s).1 ≡ accepted r
      → (r ≡ record rec { time_received = b.format_time now })
        × ((v : Bytes) × (b.marshal r ≡ some v)
            × ((b.put (convert_to_ds_key b rec.key) v s).1 ≡ true)
            × ((store b rec now s).0 ≡ (b.put (convert_to_ds_key b rec.key) v s).0))
  unfolding store
  store_accepted rec r now s e =
      let rec' : Record = record rec { time_received = b.format_time now } in
      elim (Option-cases (b.marshal rec')) [
        | inl n ↦ absurd (ground arith)
        | inr (v, m) ↦ elim (Bool-cases (b.put (convert_to_ds_key b rec.key) v s).1) [
          | inr f ↦ absurd (ground arith)
          | inl ok ↦
              let same : r ≡ rec' = ground arith in (same, (v, rw same m, ok, rw (store, m) refl))
        ]
      ]

  -- The write happens only where the new value is not worse than the one on record.
  replace_accepted :
      (rec r : Record) (now : ℕ) (s : S)
      → (replace_record b rec now s).1 ≡ accepted r
      → (replace_record b rec now s ≡ store b rec now s)
        × NotWorse rec (get_record_from_datastore b (convert_to_ds_key b rec.key) s)
  unfolding replace_record store_if_better
  replace_accepted rec r now s e =
      cases (get_record_from_datastore b (convert_to_ds_key b rec.key) s) refl
    where
      cases :
          (x : Reading)
          → get_record_from_datastore b (convert_to_ds_key b rec.key) s ≡ x
          → (replace_record b rec now s ≡ store b rec now s) × NotWorse rec x
      cases nothing x = (rw (replace_record, x) refl, tt)
      cases failed_reading x = absurd (ground arith)
      cases (record_found old) x =
          elim (Option-cases (b.select rec.key (rec.value ∷ old.value ∷ []))) [
            | inl n ↦ absurd (ground arith)
            | inr (i, n) ↦ elim (Bool-cases (i == 0)) [
              | inr f ↦ absurd (ground arith)
              | inl z ↦ (ground arith, n ∙ ap some (ground arith))
            ]
          ]

  put_accepted :
      (key : Bytes) (rec r : Record) (now : ℕ) (s : S)
      → (handle_put_value b key (some rec) now s).1 ≡ accepted r
      → (key ≡ rec.key)
        × (b.validate rec.key rec.value ≡ true)
        × (handle_put_value b key (some rec) now s ≡ replace_record b (clean_record rec) now s)
  unfolding handle_put_value
  put_accepted key rec r now s e = elim (Bool-cases (is_empty_key key)) [
    | inl n ↦ absurd (ground arith)
    | inr n ↦ elim (Bool-cases (bytes_equal key rec.key)) [
      | inr f ↦ absurd (ground arith)
      | inl same ↦ elim (Bool-cases (b.validate rec.key rec.value)) [
        | inr f ↦ absurd (ground arith)
        | inl ok ↦ (bytes_equal-eq key rec.key same, ok, ground arith)
      ]
    ]
  ]

  read_stored :
      (k v : Bytes) (r : Record) (now later : ℕ) (s : S)
      → IsBackend b
      → r.time_received ≡ b.format_time now
      → b.marshal r ≡ some v
      → b.get (convert_to_ds_key b k) s ≡ found v
      → later - now ≤ b.max_record_age
      → (check_local_datastore b k later s).1 ≡ record_found r
  unfolding check_local_datastore record_is_bad
  read_stored k v r now later s l t m g h =
      let decoded = l.unmarshal-marshal r v m in
      let time = ap b.parse_time t ∙ l.parse_time-format_time now in
      let good : record_is_bad b later r ≡ false = ground arith in
      rw (check_local_datastore, g) (rw decoded (rw good refl))

  -- A value that handlePutValue accepts is valid and has the key of the message; it is not worse than
  -- a valid record of that key on record; and the record stored, with the time of receipt, is what
  -- checkLocalDatastore reads from there on, up to the greatest age.
  pub check_local_datastore-handle_put_value :
      (key : Bytes) (rec r : Record) (now later : ℕ) (s : S)
      → IsBackend b
      → (handle_put_value b key (some rec) now s).1 ≡ accepted r
      → later - now ≤ b.max_record_age
      → (key ≡ rec.key)
        × (b.validate rec.key rec.value ≡ true)
        × NotWorse rec (get_record_from_datastore b (convert_to_ds_key b key) s)
        × (r ≡ record rec { time_received = b.format_time now })
        × ((check_local_datastore b key later (handle_put_value b key (some rec) now s).0).1
            ≡ record_found r)
  unfolding clean_record
  check_local_datastore-handle_put_value key rec r now later s l e h =
      let (same, ok, e1) = put_accepted key rec r now s e in
      let (e2, better) = replace_accepted (clean_record rec) r now s (ap (λ x. x.1) (sym e1) ∙ e) in
      let (made, (v, m, put, e3)) =
        store_accepted (clean_record rec) r now s (ap (λ x. x.1) (sym (e1 ∙ e2)) ∙ e) in
      (
        same,
        ok,
        rw same better,
        made,
        read_stored key v r now later (handle_put_value b key (some rec) now s).0 l
            (ap (λ (x : Record). x.time_received) made) m
            (ap (λ k. b.get (convert_to_ds_key b k) (handle_put_value b key (some rec) now s).0)
                same
              ∙ ap (b.get (convert_to_ds_key b rec.key)) (ap (λ x. x.0) (e1 ∙ e2) ∙ e3)
              ∙ l.get-put (convert_to_ds_key b rec.key) v s put)
            h,
      )
