-- ===== src/Handlers.antt =====
-- The handlers of messages: dht/go-libp2p-kad-dht/handlers.go, and the choice of closer peers in dht.go.
-- Those that read and write records are here; a string is its bytes, and a time its nanoseconds.
pub mod Storing
pub mod Peers
pub mod Finding
pub mod Announcing
use kadrtt_test_plan.Base.{
  ℕ, zero, suc, ◌+◌, ◌-◌, ◌≡◌, Bool, true, false, ◌||◌, Option, none, some, List, [], ◌∷◌, ◌++◌,
  ltb, ◌==◌, if◌then◌else◌,
}
use kadrtt_test_plan.Keyspace.{Bytes, bytes_equal}

-- recpb.Record.
pub record Record : Type 0 where
  pub key : Bytes
  pub value : Bytes
  pub time_received : Bytes

-- What the datastore's Get gives.
pub data GetResult : Type 0 where
  found : Bytes → GetResult
  not_found get_failed : GetResult

-- The datastore, whose `put` tells whether it succeeded and whose errors of `delete` are logged; the
-- encodings of a record, a time and a key; and the validator.
pub record Backend (S : Type 0) : Type 0 where
  pub get : Bytes → S → GetResult
  pub put : Bytes → Bytes → S → S × Bool
  pub delete : Bytes → S → S
  pub marshal : Record → Option Bytes
  pub unmarshal : Bytes → Option Record
  pub format_time : ℕ → Bytes
  pub parse_time : Bytes → Option ℕ
  pub new_key : Bytes → Bytes
  pub encode : Bytes → Bytes
  pub validate : Bytes → Bytes → Bool
  pub select : Bytes → List Bytes → Option ℕ
  pub max_record_age : ℕ

pub data PutError : Type 0 where
  no_key nil_record other_key invalid no_selection old_record not_read not_encoded not_written :
      PutError

-- A reply with the record as it was stored, or an error.
pub data PutReply : Type 0 where
  accepted : Record → PutReply
  refused : PutError → PutReply

-- A record, nil, or an error.
pub data Reading : Type 0 where
  record_found : Record → Reading
  nothing failed_reading : Reading

unfoldable pub clean_record : Record → Record
clean_record rec = record rec { time_received = [] }

abbrev pub is_empty_key : Bytes → Bool
is_empty_key [] = true
is_empty_key (b ∷ k) = false

module _ {S : Type 0} (b : Backend S) where
  unfoldable pub convert_to_ds_key : Bytes → Bytes
  convert_to_ds_key s = b.new_key (b.encode s)

  -- A time that cannot be read is Go's zero time, and bad in any case.
  unfoldable pub record_is_bad : ℕ → Record → Bool
  record_is_bad now rec = elim (b.parse_time rec.time_received) [
    | none ↦ true
    | some recvtime ↦ ltb b.max_record_age (now - recvtime)
  ]

  unfoldable pub check_local_datastore : Bytes → ℕ → S → S × Reading
  check_local_datastore k now s = elim (b.get (convert_to_ds_key k) s) [
    | not_found ↦ (s, nothing)
    | get_failed ↦ (s, failed_reading)
    | found buf ↦ elim (b.unmarshal buf) [
      | none ↦ (s, failed_reading)
      | some rec ↦ elim (record_is_bad now rec) [
        | true ↦ (b.delete (convert_to_ds_key k) s, nothing)
        | false ↦ (s, record_found rec)
      ]
    ]
  ]

  -- What cannot be read or is not valid is as nothing, and is overwritten.
  unfoldable pub get_record_from_datastore : Bytes → S → Reading
  get_record_from_datastore dskey s = elim (b.get dskey s) [
    | not_found ↦ nothing
    | get_failed ↦ failed_reading
    | found buf ↦ elim (b.unmarshal buf) [
      | none ↦ nothing
      | some rec ↦ if b.validate rec.key rec.value then record_found rec else nothing
    ]
  ]

  -- The write, with the time of receipt.
  unfoldable pub store : Record → ℕ → S → S × PutReply
  store rec now s =
      let rec' = record rec { time_received = b.format_time now } in
      elim (b.marshal rec') [
        | none ↦ (s, refused not_encoded)
        | some data' ↦
            let w = b.put (convert_to_ds_key rec.key) data' s in
            (w.0, if w.1 then accepted rec' else refused not_written)
      ]

  -- The new record must be the better one, index 0.
  unfoldable pub store_if_better : Record → Record → ℕ → S → S × PutReply
  store_if_better rec existing now s = elim (b.select rec.key (rec.value ∷ existing.value ∷ [])) [
    | none ↦ (s, refused no_selection)
    | some i ↦ if i == 0 then store rec now s else (s, refused old_record)
  ]

  -- Under the lock of the key.
  unfoldable pub replace_record : Record → ℕ → S → S × PutReply
  replace_record rec now s = elim (get_record_from_datastore (convert_to_ds_key rec.key) s) [
    | failed_reading ↦ (s, refused not_read)
    | nothing ↦ store rec now s
    | record_found existing ↦ store_if_better rec existing now s
  ]

  unfoldable pub handle_put_value : Bytes → Option Record → ℕ → S → S × PutReply
  handle_put_value key r now s = if is_empty_key key then (s, refused no_key) else elim r [
    | none ↦ (s, refused nil_record)
    | some rec ↦
        if bytes_equal key rec.key
        then if b.validate rec.key rec.value
          then replace_record (clean_record rec) now s
          else (s, refused invalid)
        else (s, refused other_key)
  ]
