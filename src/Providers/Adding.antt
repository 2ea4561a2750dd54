-- ===== src/Providers/Adding.antt =====
-- A provider that was added is found.
use kadrtt_test_plan.Base.{
  ℕ, ◌-◌, ◌≤◌, ◌≡◌, ◌≢◌, inl, inr, refl, sym, ap, ◌∙◌, true, false, Option, none, some, List, [],
  ◌∷◌, ◌++◌, Has, Option-cases, arith,
}
use kadrtt_test_plan.Keyspace.{Bytes}
use kadrtt_test_plan.Providers.{
  ProviderSet, new_provider_set, set_val, Coding, QueryResult, entry, Datastore, Cache,
  ProviderManager, provide_validity, mk_prov_key, mk_prov_key_for, read_time_value, is_expired,
  write_provider_entry, add_prov, load_provider_set, load_entries, get_provider_set_for_key,
  get_providers_for_key, slash,
}
use kadrtt_test_plan.Providers.Keys.{IsClean, mk_prov_key_for-IsClean}
use kadrtt_test_plan.Providers.Sets.{IsListed, new_provider_set-IsListed, set_val-Has}
use kadrtt_test_plan.Providers.Loading.{IsCoding, decode-mk_prov_key_for, load_entries-Has}

-- What is known of the datastore: a key holds what was put there, a deletion and a put leave the
-- other keys, a failed put leaves all, and a query that succeeds reads each key with its prefix.
-- NewKey cleans a path, and leaves a clean one as it is.
pub record IsDatastore {S : Type 0} (ds : Datastore S) : Type 0 where
  pub contents : Bytes → S → Option Bytes
  pub new_key_same : (k : Bytes) → IsClean k → ds.new_key k ≡ k
  pub put_done :
      (k v : Bytes) (s : S) → (ds.put k v s).1 ≡ true → contents k (ds.put k v s).0 ≡ some v
  pub put_failed :
      (j k v : Bytes) (s : S)
      → (ds.put k v s).1 ≡ false
      → contents j (ds.put k v s).0 ≡ contents j s
  pub put_other : (j k v : Bytes) (s : S) → j ≢ k → contents j (ds.put k v s).0 ≡ contents j s
  pub delete_other : (j k : Bytes) (s : S) → j ≢ k → contents j (ds.delete k s) ≡ contents j s
  pub query_all :
      (pre rest v : Bytes) (s : S) (rs : List QueryResult)
      → ds.query pre s ≡ some rs
      → contents (pre ++ slash ∷ rest) s ≡ some v
      → Has (entry (pre ++ slash ∷ rest) v) rs

-- What is known of the cache: it answers by its contents, and a write through the pointer is seen.
pub record IsCache {C : Type 0} (lru : Cache C) : Type 0 where
  pub peek : Bytes → C → Option ProviderSet
  pub get_peek : (k : Bytes) (c : C) → (lru.get k c).1 ≡ peek k c
  pub get_keeps : (j k : Bytes) (c : C) → peek j (lru.get k c).0 ≡ peek j c
  pub replace_done :
      (k : Bytes) (v w : ProviderSet) (c : C)
      → peek k c ≡ some w
      → peek k (lru.replace k v c) ≡ some v

-- The key under which a record is written is the one that it is looked for by.
pub new_key-mk_prov_key_for :
    {S : Type 0} (cd : Coding) (ds : Datastore S) (k p : Bytes)
    → IsDatastore ds
    → IsCoding cd
    → k ≢ []
    → p ≢ []
    → ds.new_key (mk_prov_key_for cd k p) ≡ mk_prov_key_for cd k p
new_key-mk_prov_key_for cd ds k p ld c nk np = ld.new_key_same (mk_prov_key_for cd k p) (
    mk_prov_key_for-IsClean cd k p (c.encode_no_dot k, c.encode_no_slash k, c.encode_nonempty k nk)
      (c.encode_no_dot p, c.encode_no_slash p, c.encode_nonempty p np))

module _ {S C : Type 0} (cd : Coding) (ds : Datastore S) (lru : Cache C) where
  young :
      (added now : ℕ)
      → IsCoding cd
      → now - added ≤ provide_validity
      → is_expired cd now (cd.put_varint added) ≡ false
  unfolding is_expired read_time_value
  young added now c h = ground (arith, c.varint-put_varint added)

  -- From the cache.
  cached-Has :
      (k p : Bytes) (now : ℕ) (pm : ProviderManager S C) (ps : ProviderSet)
      → (lc : IsCache lru) → lc.peek k pm.cache ≡ some ps
      → Has p ps.providers
      → Has p (get_providers_for_key cd ds lru k now pm).1
  unfolding get_providers_for_key get_provider_set_for_key
  cached-Has k p now pm ps lc e h =
      let found = lc.get_peek k pm.cache ∙ e in
      let answer : (get_providers_for_key cd ds lru k now pm).1 ≡ ps.providers =
        rw (get_providers_for_key, get_provider_set_for_key, found) refl in
      rw answer h

  -- From the datastore.
  loaded-Has :
      (k p v : Bytes) (now : ℕ) (pm : ProviderManager S C) (rs : List QueryResult)
      → (lc : IsCache lru) → lc.peek k pm.cache ≡ none
      → ds.query (mk_prov_key cd k) pm.dstore ≡ some rs
      → Has (entry (mk_prov_key_for cd k p) v) rs
      → is_expired cd now v ≡ false
      → IsCoding cd
      → Has p (get_providers_for_key cd ds lru k now pm).1
  unfolding get_providers_for_key get_provider_set_for_key load_provider_set
  loaded-Has k p v now pm rs lc e q h x c =
      let missing = lc.get_peek k pm.cache ∙ e in
      let answer : (get_providers_for_key cd ds lru k now pm).1
          ≡ (load_entries cd ds lru rs now pm.dstore new_provider_set).1.providers =
        rw (get_providers_for_key, get_provider_set_for_key, missing)
          (rw (load_provider_set, q) refl) in
      rw answer (
        load_entries-Has cd ds lru (mk_prov_key_for cd k p) v p rs now pm.dstore new_provider_set h
          x (decode-mk_prov_key_for cd k p c) new_provider_set-IsListed)

  -- A record that was written is held by its key.
  pub written :
      (k p : Bytes) (t : ℕ) (s : S) (ld : IsDatastore ds)
      → ds.new_key (mk_prov_key_for cd k p) ≡ mk_prov_key_for cd k p
      → (write_provider_entry cd ds lru k p t s).1 ≡ true
      → ld.contents (mk_prov_key_for cd k p) (write_provider_entry cd ds lru k p t s).0
        ≡ some (cd.put_varint t)
  unfolding write_provider_entry
  written k p t s ld same ok =
      ap (λ j. ld.contents j (ds.put (ds.new_key (mk_prov_key_for cd k p)) (cd.put_varint t) s).0)
        (sym same)
      ∙ ld.put_done (ds.new_key (mk_prov_key_for cd k p)) (cd.put_varint t) s ok

  -- A provider whose record was written, for a key and a peer that are not empty, is among those that GetProviders answers next, from the cache
  -- or from the datastore, up to the end of the validity; where the query succeeds, and in a cached
  -- set each peer with a time is listed.
  pub get_providers_for_key-add_prov :
      (k p : Bytes) (added now : ℕ) (pm : ProviderManager S C) (lc : IsCache lru)
      (ld : IsDatastore ds) (rs : List QueryResult)
      → IsCoding cd
      → k ≢ []
      → p ≢ []
      → ((ps : ProviderSet) → lc.peek k pm.cache ≡ some ps → IsListed ps)
      → (add_prov cd ds lru k p added pm).1 ≡ true
      → ds.query (mk_prov_key cd k) (add_prov cd ds lru k p added pm).0.dstore ≡ some rs
      → now - added ≤ provide_validity
      → Has p (get_providers_for_key cd ds lru k now (add_prov cd ds lru k p added pm).0).1
  unfolding add_prov write_provider_entry mk_prov_key_for
  get_providers_for_key-add_prov k p added now pm lc ld rs c nk np listed ok q h =
      elim (Option-cases (lc.peek k pm.cache)) [
        | inr (ps, e) ↦
            cached-Has k p now (add_prov cd ds lru k p added pm).0 (set_val p added ps) lc
              (rw (lc.get_peek k pm.cache ∙ e) (
                lc.replace_done k (set_val p added ps) ps (lru.get k pm.cache).0
                  (lc.get_keeps k k pm.cache ∙ e)))
              (set_val-Has p added ps (listed ps e))
        | inl e ↦
            loaded-Has k p (cd.put_varint added) now (add_prov cd ds lru k p added pm).0 rs lc
              (rw (lc.get_peek k pm.cache ∙ e) (lc.get_keeps k k pm.cache ∙ e)) q
              (ld.query_all (mk_prov_key cd k) (cd.encode p) (cd.put_varint added) _ rs q
                (written k p added pm.dstore ld (new_key-mk_prov_key_for cd ds k p ld c nk np) ok))
              (young added now c h) c
      ]
