-- ===== src/Examples/Providing.antt =====
-- The provider manager over an association list as datastore and a cache of one set.
use kadrtt_test_plan.Base.{
  ℕ, ◌+◌, ◌-◌, ◌≡◌, ◌≢◌, ◌⊎◌, inl, inr, refl, sym, ap, Bool, true, false, Option, none, some, List,
  [], ◌∷◌, ◌++◌, map, ◌==◌, if◌then◌else◌, Has, All, Bool-cases, arith,
}
use kadrtt_test_plan.Keyspace.{Bytes, bytes_equal}
use kadrtt_test_plan.Keyspace.Order.{bytes_equal-eq, bytes_equal_refl}
use kadrtt_test_plan.Providers.{
  ProviderSet, Coding, QueryResult, entry, Datastore, Cache, ProviderManager, provide_validity,
  slash, has_slash, mk_prov_key, mk_prov_key_for, add_prov, new_prov, load_provider_set,
  get_providers_for_key, write_provider_entry,
}
use kadrtt_test_plan.Providers.Loading.{IsCoding, FromRecord, load_provider_set_sound}
use kadrtt_test_plan.Providers.Adding.{IsDatastore, IsCache, get_providers_for_key-add_prov}
use kadrtt_test_plan.Providers.Collecting.{
  Event, WrittenAt, provider, result, after, gc_keeps_added,
}

-- Each byte is shifted past the slash.
abbrev shifting : Coding
shifting = record {
  encode = map (λ b. b + 48);
  decode = λ xs. some (map (λ b. b - 48) xs);
  put_varint = λ t. t ∷ [];
  varint = λ xs. elim xs [ [] ↦ none | t ∷ rest ↦ some t ];
}

shifted : (p : Bytes) → map (λ b. b - 48) (map (λ b. b + 48) p) ≡ p
shifted [] = refl
shifted (b ∷ p) = rw (shifted p) (ap (λ c. c ∷ p) (omega arith))

no_slash : (p : Bytes) → has_slash (map (λ b. b + 48) p) ≡ false
unfolding has_slash
no_slash [] = refl
no_slash (b ∷ p) = ground (arith, no_slash p)

no_dot : (p : Bytes) → All (λ y. y ≢ 46) (map (λ b. b + 48) p)
no_dot [] = tt
no_dot (b ∷ p) = (λ e. absurd (omega arith), no_dot p)

not_empty : (p : Bytes) → p ≢ [] → map (λ b. b + 48) p ≢ []
not_empty [] ne e = ne refl
not_empty (b ∷ p) ne e = cc

shifting-IsCoding : IsCoding shifting
shifting-IsCoding = record {
  decode-encode = λ p. ap some (shifted p);
  encode_no_slash = no_slash;
  encode_no_dot = no_dot;
  encode_nonempty = not_empty;
  varint-put_varint = λ t. refl;
}

abbrev pub Store : Type 0
Store = List (Bytes × Bytes)

abbrev pub value_at : Bytes → Store → Option Bytes
value_at k [] = none
value_at k ((j, v) ∷ s) = if bytes_equal j k then some v else value_at k s

abbrev pub write_at : Bytes → Bytes → Store → Store
write_at k v [] = (k, v) ∷ []
write_at k v ((j, w) ∷ s) = if bytes_equal j k then (j, v) ∷ s else (j, w) ∷ write_at k v s

abbrev pub delete_at : Bytes → Store → Store
delete_at k [] = []
delete_at k ((j, w) ∷ s) =
    let rest = delete_at k s in if bytes_equal j k then rest else (j, w) ∷ rest

abbrev has_prefix : Bytes → Bytes → Bool
has_prefix [] ys = true
has_prefix (x ∷ xs) [] = false
has_prefix (x ∷ xs) (y ∷ ys) = if x == y then has_prefix xs ys else false

abbrev entries_at : Bytes → Store → List QueryResult
entries_at pre [] = []
entries_at pre ((j, w) ∷ s) =
    let rest = entries_at pre s in if has_prefix pre j then entry j w ∷ rest else rest

abbrev listing : Datastore Store
listing = record {
  new_key = λ k. k;
  put = λ k v s. (write_at k v s, true);
  delete = delete_at;
  query = λ pre s. some (entries_at (pre ++ slash ∷ []) s);
}

pub value_at-write_at : (k v : Bytes) (s : Store) → value_at k (write_at k v s) ≡ some v
value_at-write_at k v [] = ground (arith, bytes_equal_refl k)
value_at-write_at k v ((j, w) ∷ s) = elim (Bool-cases (bytes_equal j k)) [
  | inl e ↦ rw (e, e) refl
  | inr e ↦ rw (e, e) (value_at-write_at k v s)
]

unequal : (j k : Bytes) → j ≢ k → bytes_equal k j ≡ false
unequal j k ne = elim (Bool-cases (bytes_equal k j)) [
  | inl e ↦ absurd (ne (sym (bytes_equal-eq k j e)))
  | inr e ↦ e
]

write_at_other : (j k v : Bytes) (s : Store) → j ≢ k → value_at j (write_at k v s) ≡ value_at j s
write_at_other j k v [] ne = rw (unequal j k ne) refl
write_at_other j k v ((i, w) ∷ s) ne = elim (Bool-cases (bytes_equal i k)) [
  | inl e ↦
      let same : i ≡ k = bytes_equal-eq i k e in
      let away : bytes_equal i j ≡ false = rw same (unequal j k ne) in ground arith
  | inr e ↦ ground (arith, write_at_other j k v s ne)
]

delete_at_other : (j k : Bytes) (s : Store) → j ≢ k → value_at j (delete_at k s) ≡ value_at j s
delete_at_other j k [] ne = refl
delete_at_other j k ((i, w) ∷ s) ne = elim (Bool-cases (bytes_equal i k)) [
  | inl e ↦
      let same : i ≡ k = bytes_equal-eq i k e in
      let away : bytes_equal i j ≡ false = rw same (unequal j k ne) in
      ground (arith, delete_at_other j k s ne)
  | inr e ↦ ground (arith, delete_at_other j k s ne)
]

has_prefix-append : (pre rest : Bytes) → has_prefix (pre ++ slash ∷ []) (pre ++ slash ∷ rest) ≡ true
has_prefix-append [] rest = refl
has_prefix-append (x ∷ pre) rest = ground (arith, has_prefix-append pre rest)

entries_at-Has :
    (pre key v : Bytes) (s : Store)
    → has_prefix pre key ≡ true
    → value_at key s ≡ some v
    → Has (entry key v) (entries_at pre s)
entries_at-Has pre key v [] h e = absurd (ground arith)
entries_at-Has pre key v ((j, w) ∷ s) h e = elim (Bool-cases (bytes_equal j key)) [
  | inl f ↦
      let same : j ≡ key = bytes_equal-eq j key f in
      let there : w ≡ v = ground arith in
      let listed : has_prefix pre j ≡ true = rw same h in rw listed (inl (rw (same, there) refl))
  | inr f ↦
      let rest = entries_at-Has pre key v s h (ground arith) in
      elim (Bool-cases (has_prefix pre j)) [ inl g ↦ rw g (inr rest) | inr g ↦ rw g rest ]
]

abbrev listing_laws : IsDatastore listing
listing_laws = record {
  contents = value_at;
  new_key_same = λ k c. refl;
  put_done = λ k v s e. value_at-write_at k v s;
  put_failed = λ j k v s e. absurd (ground arith);
  put_other = write_at_other;
  delete_other = delete_at_other;
  query_all = λ pre rest v s rs q h.
      let same : entries_at (pre ++ slash ∷ []) s ≡ rs = cc in
      rw (← same) (
        entries_at-Has (pre ++ slash ∷ []) (pre ++ slash ∷ rest) v s (has_prefix-append pre rest)
          h);
}

abbrev cached_at : Bytes → Option (Bytes × ProviderSet) → Option ProviderSet
cached_at k none = none
cached_at k (some e) = if bytes_equal e.0 k then some e.1 else none

abbrev replaced_at :
    Bytes → ProviderSet → Option (Bytes × ProviderSet) → Option (Bytes × ProviderSet)
replaced_at k v none = none
replaced_at k v (some e) = if bytes_equal e.0 k then some (e.0, v) else some e

-- One set is cached at most.
abbrev single : Cache (Option (Bytes × ProviderSet))
single = record {
  get = λ k c. (c, cached_at k c);
  add = λ k v c. some (k, v);
  purge = λ c. none;
  replace = replaced_at;
}

single_replaced :
    (k : Bytes) (v w : ProviderSet) (c : Option (Bytes × ProviderSet))
    → cached_at k c ≡ some w
    → cached_at k (single.replace k v c) ≡ some v
single_replaced k v w none h = absurd (ground arith)
single_replaced k v w (some e) h = elim (Bool-cases (bytes_equal e.0 k)) [
  | inl y ↦ rw (y, y) refl
  | inr y ↦ absurd (ground arith)
]

abbrev single_laws : IsCache single
single_laws = record {
  peek = cached_at;
  get_peek = λ k c. refl;
  get_keeps = λ j k c. refl;
  replace_done = single_replaced;
}

-- Peer 5 provides the key 1.
abbrev manager : ProviderManager Store (Option (Bytes × ProviderSet))
manager = record {
  cache = none;
  dstore = (mk_prov_key_for shifting (1 ∷ []) (5 ∷ []), 1000 ∷ []) ∷ [];
  gc_skip = some [];
  gc_time = provide_validity + 2000;
}

get_providers_for_key-add_prov_example :
    Has
      (6 ∷ [])
      (get_providers_for_key shifting listing single
        (1 ∷ [])
        1200
        (add_prov shifting listing single (1 ∷ []) (6 ∷ []) 1100 manager).0).1
unfolding add_prov write_provider_entry
get_providers_for_key-add_prov_example =
    get_providers_for_key-add_prov shifting listing single (1 ∷ []) (6 ∷ []) 1100 1200 manager
      single_laws listing_laws _ shifting-IsCoding (λ e. cc) (λ e. cc)
      (λ ps e. absurd (ground arith)) refl refl (omega arith)

load_provider_set_sound_example :
    (l : Store × ProviderSet) × (load_provider_set shifting listing single
        (1 ∷ [])
        1200
        manager.dstore
      ≡ some l)
    × All
        (FromRecord shifting listing single
          (entry (mk_prov_key_for shifting (1 ∷ []) (5 ∷ [])) (1000 ∷ []) ∷ [])
          1200)
        l.1.providers
unfolding mk_prov_key mk_prov_key_for
load_provider_set_sound_example =
    load_provider_set_sound shifting listing single (1 ∷ []) 1200 manager.dstore
      (entry (mk_prov_key_for shifting (1 ∷ []) (5 ∷ [])) (1000 ∷ []) ∷ []) refl

abbrev gc_events : List Event
gc_events =
    result (entry (mk_prov_key_for shifting (1 ∷ []) (5 ∷ [])) (1000 ∷ []))
    ∷ provider (1 ∷ []) (6 ∷ []) 90000000000000
    ∷ []

-- The query of the GC gives the old record of peer 5, which was added again.
gc_keeps_added_example :
    (t : ℕ) × ((t ≡ 86400000001000)
      ⊎ WrittenAt shifting listing single (mk_prov_key_for shifting (1 ∷ []) (5 ∷ [])) t gc_events)
    × (value_at
          (mk_prov_key_for shifting (1 ∷ []) (5 ∷ []))
          (after shifting listing single gc_events
            (new_prov shifting listing single (1 ∷ []) (5 ∷ []) 86400000001000 manager)).dstore
        ≡ some (t ∷ []))
unfolding add_prov write_provider_entry
gc_keeps_added_example =
    gc_keeps_added shifting listing single listing_laws (1 ∷ []) (5 ∷ []) 86400000001000 gc_events
      manager [] shifting-IsCoding (λ e. cc) (λ e. cc) refl refl
