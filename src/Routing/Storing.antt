-- ===== src/Routing/Storing.antt =====
-- Values put and got by this node: PutValue and getValues of routing.go, and in dht.go getLocal,
-- putLocal, putValueToPeer and getValueOrPeers. A value of no bytes is nil: its field is not encoded.
use kadrtt_test_plan.Base.{
  ℕ, Bool, false, not, Option, none, some, List, [], ◌∷◌, ◌++◌, ◌==◌, if◌then◌else◌,
}
use kadrtt_test_plan.Keyspace.{Bytes, PeerId, bytes_equal}
use kadrtt_test_plan.Handlers.{
  Record, Backend, Reading, record_found, nothing, failed_reading, convert_to_ds_key,
  get_record_from_datastore,
}
use kadrtt_test_plan.Handlers.Peers.{AddrInfo}
use kadrtt_test_plan.Routing.Values.{RecvdVal}

pub data PutValueError : Type 0 where
  values_disabled invalid_value datastore_failed no_choice newer_value not_stored no_closest_peers :
      PutValueError

-- The record and the peers that putValueToPeer is called for with it, or an error.
pub data PutOutcome : Type 0 where
  offered : Record → List PeerId → PutOutcome
  failed : PutValueError → PutOutcome

-- The answer to GET_VALUE: its record, or nil, and its closer peers.
pub record ValueAnswer : Type 0 where
  pub rec : Option Record
  pub closer : List AddrInfo

-- What getValueOrPeers makes of it; `invalid_record` has the closer peers too.
pub data ValueOrPeers : Type 0 where
  got_value : Record → List AddrInfo → ValueOrPeers
  invalid_record only_peers : List AddrInfo → ValueOrPeers
  nothing_found request_failed : ValueOrPeers

-- The answer to PUT_VALUE; the dereference of a nil record is a panic.
pub data PutAnswer : Type 0 where
  put_ok not_put_correctly put_failed panics : PutAnswer

unfoldable pub put_value_to_peer : Record → Option (Option Record) → PutAnswer
put_value_to_peer rec none = put_failed
put_value_to_peer rec (some none) = panics
put_value_to_peer rec (some (some answered)) =
    if bytes_equal answered.value rec.value then put_ok else not_put_correctly

abbrev pub non_nil : Bytes → Option Bytes
non_nil [] = none
non_nil (x ∷ v) = some (x ∷ v)

-- What a peer's answer sends to the channel of values.
unfoldable pub value_of_reply : PeerId → ValueOrPeers → List RecvdVal
value_of_reply p (got_value rec closer) = elim (non_nil rec.value) [
  | none ↦ []
  | some v ↦ record { val = some v; from = p } ∷ []
]
value_of_reply p _ = []

module _ {S : Type 0} (b : Backend S) where
  unfoldable pub get_local : Bytes → S → Reading
  get_local key s = elim (get_record_from_datastore b (convert_to_ds_key b key) s) [
    | record_found rec ↦ if bytes_equal rec.key key then record_found rec else nothing
    | nothing ↦ nothing
    | failed_reading ↦ failed_reading
  ]

  -- With whether it succeeded.
  unfoldable pub put_local : Bytes → Record → S → S × Bool
  put_local key rec s = elim (b.marshal rec) [
    | none ↦ (s, false)
    | some data' ↦ b.put (convert_to_ds_key b key) data' s
  ]

  unfoldable pub get_value_or_peers : Option ValueAnswer → ValueOrPeers
  get_value_or_peers none = request_failed
  get_value_or_peers (some pmes) = elim pmes.rec [
    | some rec ↦
        if b.validate rec.key rec.value
        then got_value rec pmes.closer
        else invalid_record pmes.closer
    | none ↦ elim pmes.closer [ [] ↦ nothing_found | i ∷ is ↦ only_peers (i ∷ is) ]
  ]

  -- The values of the answers, in the order in which they come.
  unfoldable pub values_of_replies : List (PeerId × Option ValueAnswer) → List RecvdVal
  values_of_replies [] = []
  values_of_replies ((p, answer) ∷ replies) =
      value_of_reply p (get_value_or_peers answer) ++ values_of_replies replies

  -- The channel of getValues: the node's own value is the first.
  unfoldable pub get_values :
      PeerId → Bytes → S → List (PeerId × Option ValueAnswer) → List RecvdVal
  get_values self key s replies = elim (get_local key s) [
    | record_found rec ↦ record { val = non_nil rec.value; from = self } ∷ values_of_replies replies
    | nothing ↦ values_of_replies replies
    | failed_reading ↦ values_of_replies replies
  ]

  -- `make_put_record` is MakePutRecord; `closest` is what GetClosestPeers returns, none for an error.
  module _ (make_put_record : Bytes → Bytes → Record) (closest : Option (List PeerId)) where
    unfoldable pub publish : Bytes → Bytes → ℕ → S → S × PutOutcome
    publish key value now s =
        let rec = record (make_put_record key value) { time_received = b.format_time now } in
        let w = put_local key rec s in
        (
          w.0,
          if w.1
              then elim closest [ none ↦ failed no_closest_peers | some ps ↦ offered rec ps ]
              else failed not_stored,
        )

    unfoldable pub publish_if_better : Bytes → Bytes → Record → ℕ → S → S × PutOutcome
    publish_if_better key value old now s = elim (b.select key (value ∷ old.value ∷ [])) [
      | none ↦ (s, failed no_choice)
      | some i ↦ if i == 0 then publish key value now s else (s, failed newer_value)
    ]

    unfoldable pub put_value : Bool → Bytes → Bytes → ℕ → S → S × PutOutcome
    put_value enable_values key value now s =
        if not enable_values
        then (s, failed values_disabled)
        else if not (b.validate key value)
        then (s, failed invalid_value)
        else elim (get_local key s) [
          | failed_reading ↦ (s, failed datastore_failed)
          | nothing ↦ publish key value now s
          | record_found old ↦
              if bytes_equal old.value value
              then publish key value now s
              else publish_if_better key value old now s
        ]
