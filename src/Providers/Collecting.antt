-- ===== src/Providers/Collecting.antt =====
-- The GC of the provider records, interleaved with new providers.
use kadrtt_test_plan.Base.{
  ℕ, ◌≡◌, ◌≢◌, ◌⊎◌, inl, inr, refl, sym, ap, ◌∙◌, true, false, some, List, [], ◌∷◌, Bool-cases,
  arith,
}
use kadrtt_test_plan.Keyspace.{Bytes, bytes_equal}
use kadrtt_test_plan.Keyspace.Order.{bytes_equal-eq, bytes_equal_refl}
use kadrtt_test_plan.Providers.{
  Coding, QueryResult, entry, unread, Datastore, Cache, ProviderManager, any_equal, mk_prov_key_for,
  is_expired, write_provider_entry, add_prov, new_prov, is_skipped, gc_result,
}
use kadrtt_test_plan.Providers.Loading.{IsCoding}
use kadrtt_test_plan.Providers.Adding.{IsDatastore, written, new_key-mk_prov_key_for}

-- What the goroutine may read next while a GC runs: a new provider, or a result of its query.
pub data Event : Type 0 where
  provider : Bytes → Bytes → ℕ → Event
  result : QueryResult → Event

module _ {S C : Type 0} (cd : Coding) (ds : Datastore S) (lru : Cache C) where
  unfoldable pub on_event : Event → ProviderManager S C → ProviderManager S C
  on_event (provider k p now) pm = new_prov cd ds lru k p now pm
  on_event (result r) pm = gc_result cd ds lru r pm

  unfoldable pub after : List Event → ProviderManager S C → ProviderManager S C
  after [] pm = pm
  after (e ∷ es) pm = after es (on_event e pm)

  -- The key is written at the time `t` by one of the events.
  abbrev pub WrittenAt : Bytes → ℕ → List Event → Type 0
  WrittenAt key t [] = ⊥
  WrittenAt key t (provider k p now ∷ es) =
      ((ds.new_key (mk_prov_key_for cd k p) ≡ key) × (t ≡ now)) ⊎ WrittenAt key t es
  WrittenAt key t (result r ∷ es) = WrittenAt key t es

  -- The GC skips the key, and the key holds one of the times `P`.
  record IsHeld (ld : IsDatastore ds) (key : Bytes) (P : ℕ → Type 0) (pm : ProviderManager S C)
      : Type 0 where
    skipped : (ks : List Bytes) × (pm.gc_skip ≡ some ks) × (any_equal key ks ≡ true)
    held : (t : ℕ) × P t × (ld.contents key pm.dstore ≡ some (cd.put_varint t))

  apart : (a b : Bytes) → bytes_equal a b ≡ false → b ≢ a
  apart a b e same = absurd (ground (arith, bytes_equal_refl a, ap (bytes_equal a) same))

  put-held :
      (ld : IsDatastore ds) (key key' : Bytes) (P : ℕ → Type 0) (t now : ℕ) (s : S)
      → P t
      → (key' ≡ key → P now)
      → ld.contents key s ≡ some (cd.put_varint t)
      → (t' : ℕ) × P t'
        × (ld.contents key (ds.put key' (cd.put_varint now) s).0 ≡ some (cd.put_varint t'))
  put-held ld key key' P t now s old new h =
      elim (Bool-cases (ds.put key' (cd.put_varint now) s).1) [
        | inr failed ↦ (t, old, ld.put_failed key key' (cd.put_varint now) s failed ∙ h)
        | inl done ↦ elim (Bool-cases (bytes_equal key' key)) [
          | inr ne ↦ (t, old, ld.put_other key key' (cd.put_varint now) s (apart key' key ne) ∙ h)
          | inl e ↦
              let same : key' ≡ key = bytes_equal-eq key' key e in
              (
                now,
                new same,
                ap (λ j. ld.contents j (ds.put key' (cd.put_varint now) s).0) (sym same)
                    ∙ ld.put_done key' (cd.put_varint now) s done,
              )
        ]
      ]

  new_prov-IsHeld :
      (ld : IsDatastore ds) (key k p : Bytes) (P : ℕ → Type 0) (now : ℕ) (pm : ProviderManager S C)
      → (ds.new_key (mk_prov_key_for cd k p) ≡ key → P now)
      → IsHeld ld key P pm
      → IsHeld ld key P (new_prov cd ds lru k p now pm)
  unfolding new_prov add_prov write_provider_entry any_equal
  new_prov-IsHeld ld key k p P now pm new v =
      let (ks, e, a) = v.skipped in
      let (t, old, h) = v.held in
      let kept =
        put-held ld key (ds.new_key (mk_prov_key_for cd k p)) P t now pm.dstore old new h in
      elim (Bool-cases (add_prov cd ds lru k p now pm).1) [
        | inl ok ↦
            rw (new_prov, ok)
              (record {
                skipped = (mk_prov_key_for cd k p ∷ ks, rw e refl, ground arith);
                held = kept;
              })
        | inr failed ↦ rw (new_prov, failed) (record { skipped = (ks, e, a); held = kept })
      ]

  not_skipped :
      (key key' : Bytes) (ks : List Bytes) (pm : ProviderManager S C)
      → pm.gc_skip ≡ some ks
      → any_equal key ks ≡ true
      → is_skipped cd ds lru key' pm ≡ false
      → key ≢ key'
  unfolding is_skipped
  not_skipped key key' ks pm e a s same =
      let skipped : is_skipped cd ds lru key pm ≡ true = rw (is_skipped, e) a in
      absurd (ground (arith, ap (λ j. is_skipped cd ds lru j pm) same))

  gc_result-IsHeld :
      (ld : IsDatastore ds) (key : Bytes) (P : ℕ → Type 0) (r : QueryResult)
      (pm : ProviderManager S C)
      → IsHeld ld key P pm
      → IsHeld ld key P (gc_result cd ds lru r pm)
  unfolding gc_result
  gc_result-IsHeld ld key P unread pm v = v
  gc_result-IsHeld ld key P (entry key' value) pm v =
      let (ks, e, a) = v.skipped in
      elim (Bool-cases (is_skipped cd ds lru key' pm)) [
        | inl s ↦ rw (gc_result, s) v
        | inr s ↦ elim (Bool-cases (is_expired cd pm.gc_time value)) [
          | inr x ↦ rw (gc_result, s, x) v
          | inl x ↦
              rw (gc_result, s, x)
                (record {
                  skipped = v.skipped;
                  held = (
                    v.held.0,
                    v.held.1,
                    ld.delete_other key key' pm.dstore
                          (λ same. not_skipped key key' ks pm e a s same)
                        ∙ v.held.2,
                  );
                })
        ]
      ]

  after-IsHeld :
      (ld : IsDatastore ds) (key : Bytes) (P : ℕ → Type 0) (es : List Event)
      (pm : ProviderManager S C)
      → ((t : ℕ) → WrittenAt key t es → P t)
      → IsHeld ld key P pm
      → IsHeld ld key P (after es pm)
  unfolding after on_event
  after-IsHeld ld key P [] pm at v = v
  after-IsHeld ld key P (provider k p now ∷ es) pm at v =
      after-IsHeld ld key P es (new_prov cd ds lru k p now pm) (λ t w. at t (inr w))
        (new_prov-IsHeld ld key k p P now pm (λ same. at now (inl (same, refl))) v)
  after-IsHeld ld key P (result r ∷ es) pm at v =
      after-IsHeld ld key P es (gc_result cd ds lru r pm) at (gc_result-IsHeld ld key P r pm v)

  -- A record for a key and a peer that are not empty, written while a GC runs, is in the datastore
  -- after any results of the GC's query, old ones of its own key too, and any more providers. Its time
  -- is that of this addition, or of one of these events that adds a provider under the same key.
  pub gc_keeps_added :
      (ld : IsDatastore ds) (k p : Bytes) (added : ℕ) (es : List Event) (pm : ProviderManager S C)
      (ks : List Bytes)
      → IsCoding cd
      → k ≢ []
      → p ≢ []
      → pm.gc_skip ≡ some ks
      → (add_prov cd ds lru k p added pm).1 ≡ true
      → (t : ℕ) × ((t ≡ added) ⊎ WrittenAt (mk_prov_key_for cd k p) t es)
        × (ld.contents (mk_prov_key_for cd k p) (after es (new_prov cd ds lru k p added pm)).dstore
            ≡ some (cd.put_varint t))
  unfolding new_prov add_prov any_equal write_provider_entry
  gc_keeps_added ld k p added es pm ks c nk np e ok =
      let key = mk_prov_key_for cd k p in
      let P = λ (t : ℕ). (t ≡ added) ⊎ WrittenAt key t es in
      let same = new_key-mk_prov_key_for cd ds k p ld c nk np in
      let start : IsHeld ld key P (new_prov cd ds lru k p added pm) =
        rw (new_prov, ok)
          (record {
            skipped = (key ∷ ks, rw e refl, ground (arith, bytes_equal_refl key));
            held = (added, inl refl, written cd ds lru k p added pm.dstore ld same ok);
          }) in
      (after-IsHeld ld key P es (new_prov cd ds lru k p added pm) (λ t w. inr w) start).held
