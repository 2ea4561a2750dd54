-- ===== src/Examples/Messages.antt =====
-- The handlers over an association list, with records of one byte each for key and value.
use kadrtt_test_plan.Base.{
  ℕ, ◌≡◌, ◌≢◌, ◌<◌, ◌≤◌, refl, true, false, Option, none, some, List, [], ◌∷◌, ltb, sort_by,
  insert_by, if◌then◌else◌, All, arith,
}
use kadrtt_test_plan.Keyspace.{Bytes, PeerId, bytes_equal, convert_key, common_prefix_len, id_less}
use kadrtt_test_plan.Table.{bucket_index, peers_of}
use kadrtt_test_plan.Handlers.{
  Record, found, not_found, Backend, record_found, convert_to_ds_key, check_local_datastore,
  get_record_from_datastore, store, store_if_better, replace_record, handle_put_value, clean_record,
}
use kadrtt_test_plan.Handlers.Storing.{IsBackend, NotWorse, check_local_datastore-handle_put_value}
use kadrtt_test_plan.Handlers.Peers.{
  has_addrs, closest_peers, better_peers_to_query, without_requester, with_target, is_listed,
  peer_infos, with_addresses, handle_find_peer,
}
use kadrtt_test_plan.Table.Nearest.{nearest_peers, gather, append_peers, by_distance}
use kadrtt_test_plan.Handlers.Finding.{handle_find_peer-apart}
use kadrtt_test_plan.Handlers.Peers.{
  addresses_added, provider_added, add_providers, handle_add_provider,
}
use kadrtt_test_plan.Handlers.Announcing.{IsOwn, handle_add_provider-IsOwn}
use kadrtt_test_plan.Examples.{small_env, table_with, five_peers}
use kadrtt_test_plan.Examples.Providing.{Store, value_at, write_at, delete_at, value_at-write_at}

abbrev one_byte_record : Bytes → Bytes → Bytes → Option Bytes
one_byte_record (k ∷ []) (v ∷ []) time = some (k ∷ v ∷ time)
one_byte_record _ _ time = none

abbrev read_record : Bytes → Option Record
read_record (k ∷ v ∷ time) = some (record { key = k ∷ []; value = v ∷ []; time_received = time })
read_record _ = none

-- The greater of two values is the better one.
abbrev greater : List Bytes → Option ℕ
greater ((v ∷ []) ∷ (w ∷ []) ∷ []) = some (if ltb v w then 1 else 0)
greater _ = none

abbrev pub small_backend : Backend Store
small_backend = record {
  get = λ k s. elim (value_at k s) [ some v ↦ found v | none ↦ not_found ];
  put = λ k v s. (write_at k v s, true);
  delete = delete_at;
  marshal = λ r. one_byte_record r.key r.value r.time_received;
  unmarshal = read_record;
  format_time = λ t. t ∷ [];
  parse_time = λ s. elim s [ [] ↦ none | t ∷ rest ↦ some t ];
  new_key = λ k. k;
  encode = λ k. k;
  validate = λ k v. true;
  select = λ k vs. greater vs;
  max_record_age = 100;
}

read_one_byte :
    (k v time : Bytes) (b : Bytes)
    → one_byte_record k v time ≡ some b
    → read_record b ≡ some (record { key = k; value = v; time_received = time })
read_one_byte [] v time b e = absurd (ground arith)
read_one_byte (k ∷ []) [] time b e = absurd (ground arith)
read_one_byte (k ∷ []) (v ∷ []) time b e =
    let same : k ∷ v ∷ time ≡ b = ground arith in rw (← same) refl
read_one_byte (k ∷ []) (v ∷ w ∷ vs) time b e = absurd (ground arith)
read_one_byte (k ∷ j ∷ ks) v time b e = absurd (ground arith)

pub small_backend-IsBackend : IsBackend small_backend
small_backend-IsBackend = record {
  get-put = λ k v s e. rw (small_backend, value_at-write_at k v s) refl;
  unmarshal-marshal = λ r v e. read_one_byte r.key r.value r.time_received v e;
  parse_time-format_time = λ t. refl;
}

abbrev pub seven : Bytes
seven = 7 ∷ []

abbrev put_five : Record
put_five = record { key = seven; value = 5 ∷ []; time_received = 9 ∷ [] }

abbrev stored_five : Record
stored_five = record put_five { time_received = 40 ∷ [] }

-- The store has the value 3 for the key, and 5 comes.
abbrev pub three_stored : Store
three_stored = (7 ∷ [], 7 ∷ 3 ∷ 20 ∷ []) ∷ []

check_local_datastore-handle_put_value_example :
    (seven ≡ put_five.key)
    × (small_backend.validate put_five.key put_five.value ≡ true)
    × NotWorse small_backend put_five (
        get_record_from_datastore small_backend
          (convert_to_ds_key small_backend seven)
          three_stored)
    × (stored_five ≡ stored_five)
    × ((check_local_datastore small_backend seven 90
          (handle_put_value small_backend seven (some put_five) 40 three_stored).0).1
        ≡ record_found stored_five)
unfolding handle_put_value clean_record replace_record store store_if_better
    get_record_from_datastore convert_to_ds_key bytes_equal
check_local_datastore-handle_put_value_example =
    check_local_datastore-handle_put_value small_backend seven put_five stored_five 40 90
      three_stored small_backend-IsBackend refl (omega arith)

-- Peer 130 asks for peer 150, which is not in the table.
abbrev addresses : PeerId → List ℕ
addresses p = if ltb p 21 then [] else 1 ∷ []

handle_find_peer-apart_example :
    All
      (λ i. (i.id ≢ 130) × (has_addrs i ≡ true))
      (record { id = 140; addrs = 1 ∷ [] } ∷ record { id = 150; addrs = 1 ∷ [] } ∷ [])
unfolding handle_find_peer closest_peers better_peers_to_query nearest_peers bucket_index gather
    append_peers without_requester with_target is_listed peer_infos with_addresses common_prefix_len
    convert_key sort_by insert_by by_distance id_less peers_of
handle_find_peer-apart_example =
    handle_find_peer-apart small_env 0 addresses 130 150 2 (table_with false 2 five_peers)
      (record { id = 140; addrs = 1 ∷ [] } ∷ record { id = 150; addrs = 1 ∷ [] } ∷ [])
      (ground arith) refl

-- Peer 130 announces itself, and peer 140 as well.
handle_add_provider-IsOwn_example :
    (0 < 32)
    × (32 ≤ 80)
    × All (IsOwn 0 130 7) (addresses_added 130 (1 ∷ []) ∷ provider_added 7 130 ∷ [])
unfolding handle_add_provider add_providers
handle_add_provider-IsOwn_example =
    handle_add_provider-IsOwn small_env 0 130 7 32
      (record { id = 140; addrs = 1 ∷ [] } ∷ record { id = 130; addrs = 1 ∷ [] } ∷ [])
      (addresses_added 130 (1 ∷ []) ∷ provider_added 7 130 ∷ []) refl
