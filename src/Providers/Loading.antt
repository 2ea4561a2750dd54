-- ===== src/Providers/Loading.antt =====
-- Reading the provider records of a key from the datastore.
use kadrtt_test_plan.Base.{
  ℕ, ◌-◌, ◌≤◌, ◌≡◌, ◌≢◌, inl, inr, refl, ap, ◌∙◌, true, false, some, List, [], ◌∷◌, ◌++◌, Has, All,
  All-append, Bool-cases, Option-cases, arith,
}
use kadrtt_test_plan.Keyspace.{Bytes}
use kadrtt_test_plan.Providers.{
  ProviderSet, new_provider_set, set_val, Coding, QueryResult, entry, unread, Datastore, Cache,
  slash, provide_validity, has_slash, after_last_slash, mk_prov_key, mk_prov_key_for,
  read_time_value, is_expired, is_found, time_of, load_entries, load_provider_set,
}
use kadrtt_test_plan.Providers.Sets.{IsListed, set_val-Has, set_val-Has_other, set_val-IsListed}

-- What is known of the codings: each is read back, and base32 has no slash and no dot, and encodes
-- nothing as nothing alone.
pub record IsCoding (cd : Coding) : Type 0 where
  pub decode-encode : (p : Bytes) → cd.decode (cd.encode p) ≡ some p
  pub encode_no_slash : (p : Bytes) → has_slash (cd.encode p) ≡ false
  pub encode_no_dot : (p : Bytes) → All (λ y. y ≢ 46) (cd.encode p)
  pub encode_nonempty : (p : Bytes) → p ≢ [] → cd.encode p ≢ []
  pub varint-put_varint : (t : ℕ) → cd.varint (cd.put_varint t) ≡ some t

has_slash-append : (xs ys : Bytes) → has_slash (xs ++ slash ∷ ys) ≡ true
unfolding has_slash
has_slash-append [] ys = refl
has_slash-append (x ∷ xs) ys = ground (arith, has_slash-append xs ys)

after_last_slash-append :
    (xs ys : Bytes) → has_slash ys ≡ false → after_last_slash (xs ++ slash ∷ ys) ≡ ys
unfolding after_last_slash
after_last_slash-append [] ys e = rw e refl
after_last_slash-append (x ∷ xs) ys e =
    rw (has_slash-append xs ys) (after_last_slash-append xs ys e)

-- The key of a record gives back the peer, whatever the key that it provides.
pub decode-mk_prov_key_for :
    (cd : Coding) (k p : Bytes)
    → IsCoding cd
    → cd.decode (after_last_slash (mk_prov_key_for cd k p)) ≡ some p
unfolding mk_prov_key_for
decode-mk_prov_key_for cd k p c =
    ap cd.decode (after_last_slash-append (mk_prov_key cd k) (cd.encode p) (c.encode_no_slash p))
    ∙ c.decode-encode p

module _ {S C : Type 0} (cd : Coding) (ds : Datastore S) (lru : Cache C) where
  load_entries-Has_out :
      (p : Bytes) (rs : List QueryResult) (now : ℕ) (s : S) (out : ProviderSet)
      → Has p out.providers
      → Has p (load_entries cd ds lru rs now s out).1.providers
  unfolding load_entries
  load_entries-Has_out p [] now s out h = h
  load_entries-Has_out p (unread ∷ rs) now s out h = load_entries-Has_out p rs now s out h
  load_entries-Has_out p (entry key v ∷ rs) now s out h = elim (Bool-cases (is_expired cd now v)) [
    | inl e ↦ rw (load_entries, e) (load_entries-Has_out p rs now (ds.delete key s) out h)
    | inr e ↦ elim (Option-cases (cd.decode (after_last_slash key))) [
      | inl d ↦ rw (load_entries, e, d) (load_entries-Has_out p rs now (ds.delete key s) out h)
      | inr (pid, d) ↦
          rw (load_entries, e, d)
            (load_entries-Has_out p rs now s (set_val pid (time_of cd v) out)
              (set_val-Has_other p pid (time_of cd v) out h))
    ]
  ]

  -- Each entry that is not expired and whose key gives a peer is loaded.
  pub load_entries-Has :
      (key v p : Bytes) (rs : List QueryResult) (now : ℕ) (s : S) (out : ProviderSet)
      → Has (entry key v) rs
      → is_expired cd now v ≡ false
      → cd.decode (after_last_slash key) ≡ some p
      → IsListed out
      → Has p (load_entries cd ds lru rs now s out).1.providers
  unfolding load_entries
  load_entries-Has key v p [] now s out h e d w = absurd h
  load_entries-Has key v p (r ∷ rs) now s out (inl same) e d w = rw (← same) (
      rw (load_entries, e, d)
        (load_entries-Has_out p rs now s (set_val p (time_of cd v) out)
          (set_val-Has p (time_of cd v) out w)))
  load_entries-Has key v p (unread ∷ rs) now s out (inr h) e d w =
      load_entries-Has key v p rs now s out h e d w
  load_entries-Has key v p (entry key' v' ∷ rs) now s out (inr h) e d w =
      elim (Bool-cases (is_expired cd now v')) [
        | inl e' ↦
            rw (load_entries, e') (load_entries-Has key v p rs now (ds.delete key' s) out h e d w)
        | inr e' ↦ elim (Option-cases (cd.decode (after_last_slash key'))) [
          | inl d' ↦
              rw (load_entries, e', d')
                (load_entries-Has key v p rs now (ds.delete key' s) out h e d w)
          | inr (pid, d') ↦
              rw (load_entries, e', d')
                (load_entries-Has key v p rs now s (set_val pid (time_of cd v') out) h e d
                  (set_val-IsListed pid (time_of cd v') out w))
        ]
      ]

  set_val-All :
      (P : Bytes → Type 0) (p : Bytes) (t : ℕ) (ps : ProviderSet)
      → P p
      → All P ps.providers
      → All P (set_val p t ps).providers
  unfolding set_val
  set_val-All P p t ps h a = elim (Bool-cases (is_found p ps.set)) [
    | inl e ↦ rw e a
    | inr e ↦ rw e (All-append P ps.providers (p ∷ []) a (h, tt))
  ]

  load_entries-All :
      (P : Bytes → Type 0) (rs : List QueryResult) (now : ℕ) (s : S) (out : ProviderSet)
      → ((key v p : Bytes)
          → Has (entry key v) rs
          → is_expired cd now v ≡ false
          → cd.decode (after_last_slash key) ≡ some p
          → P p)
      → All P out.providers
      → All P (load_entries cd ds lru rs now s out).1.providers
  unfolding load_entries
  load_entries-All P [] now s out f a = a
  load_entries-All P (unread ∷ rs) now s out f a =
      load_entries-All P rs now s out (λ key v p h. f key v p (inr h)) a
  load_entries-All P (entry key v ∷ rs) now s out f a =
      let rest : (key' v' p : Bytes)
          → Has (entry key' v') rs
          → is_expired cd now v' ≡ false
          → cd.decode (after_last_slash key') ≡ some p
          → P p =
        λ key' v' p h. f key' v' p (inr h) in
      elim (Bool-cases (is_expired cd now v)) [
        | inl e ↦ rw (load_entries, e) (load_entries-All P rs now (ds.delete key s) out rest a)
        | inr e ↦ elim (Option-cases (cd.decode (after_last_slash key))) [
          | inl d ↦ rw (load_entries, e, d) (load_entries-All P rs now (ds.delete key s) out rest a)
          | inr (pid, d) ↦
              rw (load_entries, e, d)
                (load_entries-All P rs now s (set_val pid (time_of cd v) out) rest
                  (set_val-All P pid (time_of cd v) out (f key v pid (inl refl) e d) a))
        ]
      ]

  -- The record that a provider was loaded from: read by the query, younger than the validity, with the
  -- provider in its key.
  abbrev pub FromRecord : List QueryResult → ℕ → Bytes → Type 0
  FromRecord rs now p =
      (key : Bytes) × (v : Bytes) × (t : ℕ) × Has (entry key v) rs
      × (read_time_value cd v ≡ some t)
      × (now - t ≤ provide_validity)
      × (cd.decode (after_last_slash key) ≡ some p)

  fresh_time :
      (now : ℕ) (v : Bytes)
      → is_expired cd now v ≡ false
      → (t : ℕ) × (read_time_value cd v ≡ some t) × (now - t ≤ provide_validity)
  unfolding is_expired
  fresh_time now v e = elim (Option-cases (read_time_value cd v)) [
    | inl n ↦ absurd (ground arith)
    | inr (t, n) ↦ (t, n, ground arith)
  ]

  -- Every provider that loadProviderSet returns comes from a record that its query read, whose time
  -- can be read and is not past the validity, and whose key ends in that provider.
  pub load_provider_set_sound :
      (k : Bytes) (now : ℕ) (s : S) (rs : List QueryResult)
      → ds.query (mk_prov_key cd k) s ≡ some rs
      → (l : S × ProviderSet) × (load_provider_set cd ds lru k now s ≡ some l)
        × All (FromRecord rs now) l.1.providers
  unfolding load_provider_set new_provider_set
  load_provider_set_sound k now s rs e = (
    load_entries cd ds lru rs now s new_provider_set,
    rw (load_provider_set, e) refl,
    load_entries-All (FromRecord rs now) rs now s new_provider_set
        (λ key v p h f d. let (t, n, young) = fresh_time now v f in (key, v, t, h, n, young, d)) tt,
  )
