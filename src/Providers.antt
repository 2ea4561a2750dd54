-- ===== src/Providers.antt =====
-- The provider records: dht/go-libp2p-kad-dht/providers/provider_set.go and providers_manager.go. A
-- string, such as a key or a peer.ID, is its bytes here, and a time is its nanoseconds.
pub mod Sets
pub mod Keys
pub mod Loading
pub mod Adding
pub mod Collecting
use kadrtt_test_plan.Base.{
  ℕ, zero, suc, ◌+◌, ◌-◌, ◌*◌, ◌≡◌, Bool, true, false, ◌||◌, Option, none, some, List, [], ◌∷◌,
  ◌++◌, ltb, ◌==◌, if◌then◌else◌,
}
use kadrtt_test_plan.Keyspace.{Bytes, bytes_equal}

-- providerSet; `set` is its map, which nothing deletes from.
pub record ProviderSet : Type 0 where
  pub providers : List Bytes
  pub set : List (Bytes × ℕ)

unfoldable pub new_provider_set : ProviderSet
new_provider_set = record { providers = []; set = [] }

unfoldable pub is_found : Bytes → List (Bytes × ℕ) → Bool
is_found p [] = false
is_found p ((q, t) ∷ m) = bytes_equal q p || is_found p m

unfoldable pub put_time : Bytes → ℕ → List (Bytes × ℕ) → List (Bytes × ℕ)
put_time p t [] = (p, t) ∷ []
put_time p t ((q, u) ∷ m) = if bytes_equal q p then (p, t) ∷ m else (q, u) ∷ put_time p t m

unfoldable pub set_val : Bytes → ℕ → ProviderSet → ProviderSet
set_val p t ps = record {
  providers = if is_found p ps.set then ps.providers else ps.providers ++ p ∷ [];
  set = put_time p t ps.set;
}

-- base32.RawStdEncoding, and PutVarint and Varint of encoding/binary, `none` where no time is read.
pub record Coding : Type 0 where
  pub encode : Bytes → Bytes
  pub decode : Bytes → Option Bytes
  pub put_varint : ℕ → Bytes
  pub varint : Bytes → Option ℕ

-- One result of a query: an entry's key and value, or an error.
pub data QueryResult : Type 0 where
  entry : Bytes → Bytes → QueryResult
  unread : QueryResult

-- The datastore. `put` tells whether it succeeded; the errors of `delete` are only logged; `new_key`
-- is the package's NewKey.
pub record Datastore (S : Type 0) : Type 0 where
  pub new_key : Bytes → Bytes
  pub put : Bytes → Bytes → S → S × Bool
  pub delete : Bytes → S → S
  pub query : Bytes → S → Option (List QueryResult)

-- The LRU cache. `replace` is a write through the pointer that the cache holds for a key.
pub record Cache (C : Type 0) : Type 0 where
  pub get : Bytes → C → C × Option ProviderSet
  pub add : Bytes → ProviderSet → C → C
  pub purge : C → C
  pub replace : Bytes → ProviderSet → C → C

-- The state of the manager's goroutine. `gc_skip` is `none` for nil, and no GC runs then.
pub record ProviderManager (S C : Type 0) : Type 0 where
  pub cache : C
  pub dstore : S
  pub gc_skip : Option (List Bytes)
  pub gc_time : ℕ

abbrev pub slash : ℕ
slash = 47

-- "/providers/".
abbrev pub providers_key_prefix : Bytes
providers_key_prefix = 47 ∷ 112 ∷ 114 ∷ 111 ∷ 118 ∷ 105 ∷ 100 ∷ 101 ∷ 114 ∷ 115 ∷ 47 ∷ []

-- 24 hours.
abbrev pub provide_validity : ℕ
provide_validity = 86400000000000

unfoldable pub has_slash : Bytes → Bool
has_slash [] = false
has_slash (x ∷ xs) = x == slash || has_slash xs

-- What follows the last slash, `e.Key[lix+1:]`; the whole key where there is none.
unfoldable pub after_last_slash : Bytes → Bytes
after_last_slash [] = []
after_last_slash (x ∷ xs) =
    let rest = after_last_slash xs in
    if has_slash xs then rest else if x == slash then xs else x ∷ xs

unfoldable pub any_equal : Bytes → List Bytes → Bool
any_equal k [] = false
any_equal k (j ∷ js) = bytes_equal j k || any_equal k js

module _ (cd : Coding) where
  unfoldable pub mk_prov_key : Bytes → Bytes
  mk_prov_key k = providers_key_prefix ++ cd.encode k

  unfoldable pub mk_prov_key_for : Bytes → Bytes → Bytes
  mk_prov_key_for k p = mk_prov_key k ++ slash ∷ cd.encode p

  unfoldable pub read_time_value : Bytes → Option ℕ
  read_time_value value = cd.varint value

  -- A record whose time cannot be read goes the way of an expired one.
  unfoldable pub is_expired : ℕ → Bytes → Bool
  is_expired now value = elim (read_time_value value) [
    | none ↦ true
    | some t ↦ ltb provide_validity (now - t)
  ]

  unfoldable pub time_of : Bytes → ℕ
  time_of value = elim (read_time_value value) [ none ↦ 0 | some t ↦ t ]

module _ {S C : Type 0} (cd : Coding) (ds : Datastore S) (lru : Cache C) where
  unfoldable pub write_provider_entry : Bytes → Bytes → ℕ → S → S × Bool
  write_provider_entry k p t s = ds.put (ds.new_key (mk_prov_key_for cd k p)) (cd.put_varint t) s

  -- The manager after it, and whether the record was written.
  unfoldable pub add_prov : Bytes → Bytes → ℕ → ProviderManager S C → ProviderManager S C × Bool
  add_prov k p now pm =
      let g = lru.get k pm.cache in
      let w = write_provider_entry k p now pm.dstore in
      (
        record pm {
          cache = elim g.1 [ some provs ↦ lru.replace k (set_val p now provs) g.0 | none ↦ g.0 ];
          dstore = w.0;
        },
        w.1,
      )

  -- The loop over the results, which deletes what is expired or not readable.
  unfoldable pub load_entries : List QueryResult → ℕ → S → ProviderSet → S × ProviderSet
  load_entries [] now s out = (s, out)
  load_entries (unread ∷ rs) now s out = load_entries rs now s out
  load_entries (entry key value ∷ rs) now s out = elim (is_expired cd now value) [
    | true ↦ load_entries rs now (ds.delete key s) out
    | false ↦ elim (cd.decode (after_last_slash key)) [
      | none ↦ load_entries rs now (ds.delete key s) out
      | some pid ↦ load_entries rs now s (set_val pid (time_of cd value) out)
    ]
  ]

  unfoldable pub load_provider_set : Bytes → ℕ → S → Option (S × ProviderSet)
  load_provider_set k now s = elim (ds.query (mk_prov_key cd k) s) [
    | none ↦ none
    | some rs ↦ some (load_entries rs now s new_provider_set)
  ]

  unfoldable pub is_none_yet : ProviderSet → Bool
  is_none_yet ps = elim ps.providers [ [] ↦ true | p ∷ rest ↦ false ]

  -- `none` for an error of the datastore's query.
  unfoldable pub get_provider_set_for_key :
      Bytes → ℕ → ProviderManager S C → ProviderManager S C × Option ProviderSet
  get_provider_set_for_key k now pm =
      let g = lru.get k pm.cache in
      elim g.1 [
        | some cached ↦ (record pm { cache = g.0 }, some cached)
        | none ↦ elim (load_provider_set k now pm.dstore) [
          | none ↦ (record pm { cache = g.0 }, none)
          | some l ↦ (
            record pm { cache = if is_none_yet l.1 then g.0 else lru.add k l.1 g.0; dstore = l.0 },
            some l.1,
          )
        ]
      ]

  -- The answer to `GetProviders`: nil where there was an error, which is logged.
  unfoldable pub get_providers_for_key :
      Bytes → ℕ → ProviderManager S C → ProviderManager S C × List Bytes
  get_providers_for_key k now pm =
      let g = get_provider_set_for_key k now pm in
      (g.0, elim g.1 [ some pset ↦ pset.providers | none ↦ [] ])

  -- The cases of `run`: a new provider, one result of the GC's query, its end, and the timer.
  unfoldable pub new_prov : Bytes → Bytes → ℕ → ProviderManager S C → ProviderManager S C
  new_prov k p now pm =
      let a = add_prov k p now pm in
      if a.1
      then record a.0 {
        gc_skip = elim a.0.gc_skip [
          | some skip ↦ some (mk_prov_key_for cd k p ∷ skip)
          | none ↦ none
        ];
      }
      else a.0

  unfoldable pub is_skipped : Bytes → ProviderManager S C → Bool
  is_skipped key pm = elim pm.gc_skip [ some skip ↦ any_equal key skip | none ↦ false ]

  unfoldable pub gc_result : QueryResult → ProviderManager S C → ProviderManager S C
  gc_result unread pm = pm
  gc_result (entry key value) pm =
      if is_skipped key pm
      then pm
      else if is_expired cd pm.gc_time value
      then record pm { dstore = ds.delete key pm.dstore }
      else pm

  unfoldable pub gc_end : ProviderManager S C → ProviderManager S C
  gc_end pm = record pm { gc_skip = none }

  -- The results that the query gives, if it starts.
  unfoldable pub gc_tick : ℕ → ProviderManager S C → ProviderManager S C × Option (List QueryResult)
  gc_tick time pm =
      let pm' = record pm { gc_time = time; cache = lru.purge pm.cache } in
      elim (ds.query providers_key_prefix pm.dstore) [
        | none ↦ (pm', none)
        | some rs ↦ (record pm' { gc_skip = some [] }, some rs)
      ]
