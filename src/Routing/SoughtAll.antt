-- ===== src/Routing/SoughtAll.antt =====
-- The search for providers without a count leaves none out.
use kadrtt_test_plan.Base.{
  ℕ, ◌≡◌, refl, ◌∙◌, ◌⊎◌, inl, inr, Bool, true, false, Option, none, some, List, [], ◌∷◌, map, Has,
  arith,
}
use kadrtt_test_plan.Keyspace.{PeerId}
use kadrtt_test_plan.Handlers.Peers.{AddrInfo}
use kadrtt_test_plan.Routing.Seeking.{
  PeerSet, Seek, peer_info, maybe_add_addrs, offer, has_enough, seek_local, seek_in, seek_remote,
  start_seek, find_providers_async_routine, find_providers_async,
}
use kadrtt_test_plan.Routing.Sought.{IsPeerSet, ids, HasIn}

module _ {P : Type 0} (set : PeerSet P) (law : IsPeerSet set) (is_sent connected : PeerId → Bool)
    (sent : (p : PeerId) → is_sent p ≡ true) (addrs : PeerId → List ℕ) (self : PeerId) where
  abbrev step : AddrInfo → Seek P → Seek P × Bool
  step = offer set is_sent connected addrs self 0

  -- The set has no limit, and each of its members was streamed.
  record IsComplete (st : Seek P) : Type 0 where
    limit : law.limit st.ps ≡ 0
    members : (p : PeerId) → Has p (law.members st.ps) → Has p (ids st.out)

  -- What was streamed still is, and the set is complete again.
  record Extends (st st' : Seek P) : Type 0 where
    complete : IsComplete st'
    more : (p : PeerId) → Has p (ids st.out) → Has p (ids st'.out)

  Extends-trans : (s t u : Seek P) → Extends s t → Extends t u → Extends s u
  Extends-trans s t u e f = record { complete = f.complete; more = λ p h. f.more p (e.more p h) }

  offer-Extends :
      (i : AddrInfo) (st : Seek P)
      → IsComplete st
      → ((step i st).1 ≡ false) × Has i.id (ids (step i st).0.out) × Extends st (step i st).0
  unfolding offer
  offer-Extends i st c = elim (law.try_add_cases i.id st.ps) [
    | inr (e, m, inl there) ↦
        rw (e, offer)
          (
            refl,
            c.members i.id there,
            record {
              complete = record {
                limit = law.limit-try_add i.id st.ps ∙ c.limit;
                members = λ p h. c.members p (rw m at h);
              };
              more = λ p h. h;
            },
          )
    | inr (e, m, inr (full, l)) ↦ absurd (full c.limit)
    | inl (e, new, m, room) ↦
        rw (e, offer)
          (rw (sent i.id) (
            refl,
            inl refl,
            record {
              complete = record {
                limit = law.limit-try_add i.id st.ps ∙ c.limit;
                members = λ p h. elim (rw m at h) [ inl q ↦ inl q | inr k ↦ inr (c.members p k) ];
              };
              more = λ p h. inr h;
            },
          ))
  ]

  never_enough : (st : Seek P) → has_enough set is_sent connected addrs self 0 st ≡ false
  unfolding has_enough
  never_enough st = refl

  maybe_add_addrs-same :
      (i : AddrInfo) (st : Seek P)
      → let st' = maybe_add_addrs set is_sent connected addrs self 0 i st in
        (st'.ps ≡ st.ps) × (st'.out ≡ st.out)
  unfolding maybe_add_addrs
  maybe_add_addrs-same i st = ground arith

  maybe_add_addrs-Extends :
      (i : AddrInfo) (st : Seek P)
      → IsComplete st
      → Extends st (maybe_add_addrs set is_sent connected addrs self 0 i st)
  maybe_add_addrs-Extends i st c =
      let (e, f) = maybe_add_addrs-same i st in
      record {
        complete = record { limit = rw e c.limit; members = rw (e, f) c.members };
        more = λ p h. rw f h;
      }

  abbrev local_loop : List PeerId → Seek P → Seek P × Bool
  local_loop = seek_local set is_sent connected addrs self 0

  local_step :
      (p : PeerId) (provs : List PeerId) (st : Seek P)
      → (step (peer_info addrs p) st).1 ≡ false
      → local_loop (p ∷ provs) st ≡ local_loop provs (step (peer_info addrs p) st).0
  unfolding seek_local
  local_step p provs st e =
      rw (e, seek_local) (rw (never_enough (step (peer_info addrs p) st).0) refl)

  local_loop-Extends :
      (provs : List PeerId) (st : Seek P)
      → IsComplete st
      → ((local_loop provs st).1 ≡ false)
        × Extends st (local_loop provs st).0
        × ((i : AddrInfo)
            → Has i (map (peer_info addrs) provs)
            → Has i.id (ids (local_loop provs st).0.out))
  unfolding seek_local
  local_loop-Extends [] st c = (refl, record { complete = c; more = λ p h. h }, λ i h. absurd h)
  local_loop-Extends (p ∷ provs) st c =
      let (e, here, x) = offer-Extends (peer_info addrs p) st c in
      let (f, y, there) = local_loop-Extends provs (step (peer_info addrs p) st).0 x.complete in
      rw (local_step p provs st e) (
        f,
        Extends-trans st (step (peer_info addrs p) st).0 _ x y,
        λ i h. elim h [ inl q ↦ y.more i.id (rw q here) | inr k ↦ there i k ],
      )

  abbrev answer_loop : List AddrInfo → Seek P → Seek P
  answer_loop = seek_in set is_sent connected addrs self 0

  abbrev noted : AddrInfo → Seek P → Seek P
  noted = maybe_add_addrs set is_sent connected addrs self 0

  answer_step :
      (i : AddrInfo) (provs : List AddrInfo) (st : Seek P)
      → (step i (noted i st)).1 ≡ false
      → answer_loop (i ∷ provs) st ≡ answer_loop provs (step i (noted i st)).0
  unfolding seek_in
  answer_step i provs st e = rw (e, seek_in) (rw (never_enough (step i (noted i st)).0) refl)

  answer_loop-Extends :
      (provs : List AddrInfo) (st : Seek P)
      → IsComplete st
      → Extends st (answer_loop provs st)
        × ((i : AddrInfo) → Has i provs → Has i.id (ids (answer_loop provs st).out))
  unfolding seek_in
  answer_loop-Extends [] st c = (record { complete = c; more = λ p h. h }, λ i h. absurd h)
  answer_loop-Extends (j ∷ provs) st c =
      let w = maybe_add_addrs-Extends j st c in
      let (e, here, x) = offer-Extends j (noted j st) w.complete in
      let (y, there) = answer_loop-Extends provs (step j (noted j st)).0 x.complete in
      let z = Extends-trans st (noted j st) (step j (noted j st)).0 w x in
      rw (answer_step j provs st e) (
        Extends-trans st (step j (noted j st)).0 _ z y,
        λ i h. elim h [ inl q ↦ y.more i.id (rw q here) | inr k ↦ there i k ],
      )

  abbrev remote_loop : List (Option (List AddrInfo)) → Seek P → Seek P
  remote_loop = seek_remote set is_sent connected addrs self 0

  remote_loop-Extends :
      (answers : List (Option (List AddrInfo))) (st : Seek P)
      → IsComplete st
      → Extends st (remote_loop answers st)
        × ((i : AddrInfo) → HasIn i answers → Has i.id (ids (remote_loop answers st).out))
  unfolding seek_remote
  remote_loop-Extends [] st c = (record { complete = c; more = λ p h. h }, λ i h. absurd h)
  remote_loop-Extends (none ∷ answers) st c = remote_loop-Extends answers st c
  remote_loop-Extends (some provs ∷ answers) st c =
      let (x, here) = answer_loop-Extends provs st c in
      let (y, there) = remote_loop-Extends answers (answer_loop provs st) x.complete in
      (
        Extends-trans st (answer_loop provs st) _ x y,
        λ i h. elim h [ inl k ↦ y.more i.id (here i k) | inr k ↦ there i k ],
      )

  abbrev begin : Seek P
  begin = start_seek set is_sent connected addrs self 0

  begin-IsComplete : IsComplete begin
  unfolding start_seek
  begin-IsComplete = record {
    limit = law.members-new_set.1;
    members = λ p h. absurd (rw law.members-new_set.0 at h);
  }

  -- The peer package's set adds a peer where it is new and there is room, providers are enabled and
  -- the key is defined. Then a search without a count, whose infos are all taken, streams the peer of
  -- every provider on record and of every provider in the answers.
  pub find_providers_async_complete :
      (provs : List PeerId) (answers : List (Option (List AddrInfo))) (i : AddrInfo)
      → Has i (map (peer_info addrs) provs) ⊎ HasIn i answers
      → Has i.id
          (ids (find_providers_async set is_sent connected addrs self 0 true true provs answers))
  unfolding find_providers_async find_providers_async_routine
  find_providers_async_complete provs answers i h =
      let (e, x, here) = local_loop-Extends provs begin begin-IsComplete in
      let (y, there) = remote_loop-Extends answers (local_loop provs begin).0 x.complete in
      rw (e, find_providers_async) (elim h [ inl k ↦ y.more i.id (here i k) | inr k ↦ there i k ])
