-- ===== src/Routing/Sought.antt =====
-- What the search for providers streams.
use kadrtt_test_plan.Base.{
  ℕ, suc, ◌≤◌, ◌<◌, ◌≡◌, refl, ◌∙◌, ◌≢◌, ◌⊎◌, inl, inr, Bool, true, false, ◌&&◌, ◌||◌, Option, none,
  some, List, [], ◌∷◌, map, ◌==◌, length, All, All-map, All-get, Has, Differ, arith, Bool-cases,
}
use kadrtt_test_plan.Keyspace.{PeerId}
use kadrtt_test_plan.Handlers.Peers.{AddrInfo}
use kadrtt_test_plan.Routing.Seeking.{
  PeerSet, Seek, peer_info, maybe_add_addrs, offer, has_enough, seek_local, seek_in, seek_remote,
  start_seek, find_providers_async_routine, find_providers_async,
}

-- What is known of the peer package's Set: a peer is added where it is not in the set and the set has
-- room, which is so always for NewSet, whose limit is 0 here. The limit of a limited set is positive.
pub record IsPeerSet {P : Type 0} (set : PeerSet P) : Type 0 where
  pub members : P → List PeerId
  pub limit : P → ℕ
  pub size-members : (s : P) → set.size s ≡ length (members s)
  pub members-new_set : (members set.new_set ≡ []) × (limit set.new_set ≡ 0)
  pub members-new_limited_set :
      (n : ℕ) → 0 < n → (members (set.new_limited_set n) ≡ []) × (limit (set.new_limited_set n) ≡ n)
  pub limit-try_add : (p : PeerId) (s : P) → limit (set.try_add p s).0 ≡ limit s
  pub try_add_cases :
      (p : PeerId) (s : P)
      → (((set.try_add p s).1 ≡ true)
          × All (λ q. q ≢ p) (members s)
          × (members (set.try_add p s).0 ≡ p ∷ members s)
          × ((limit s ≡ 0) ⊎ (length (members s) < limit s)))
        ⊎ (((set.try_add p s).1 ≡ false)
            × (members (set.try_add p s).0 ≡ members s)
            × (Has p (members s) ⊎ ((limit s ≢ 0) × (limit s ≤ length (members s)))))

abbrev pub ids : List AddrInfo → List PeerId
ids = map (λ i. i.id)

module _ {P : Type 0} (set : PeerSet P) (law : IsPeerSet set) (is_sent connected : PeerId → Bool)
    (addrs : PeerId → List ℕ) (self : PeerId) (count : ℕ) (Q : AddrInfo → Type 0) where
  -- No peer is streamed twice, each is in the set, there are at most `count` of them, and each has
  -- the property `Q`.
  record IsSeek (st : Seek P) : Type 0 where
    differ : Differ (ids st.out)
    inside : All (λ p. Has p (law.members st.ps)) (ids st.out)
    fewer : length st.out ≤ length (law.members st.ps)
    limited : (count ≡ 0) ⊎ (length (law.members st.ps) ≤ count)
    limit : law.limit st.ps ≡ count
    all : All Q st.out

  absent :
      (p : PeerId) (ps ms : List PeerId)
      → All (λ q. q ≢ p) ms
      → All (λ q. Has q ms) ps
      → All (λ q. q ≢ p) ps
  absent p ps ms a b = All-map _ _ (λ q h. All-get (λ q. q ≢ p) q ms a h) ps b

  offer-IsSeek :
      (i : AddrInfo) (st : Seek P)
      → Q i
      → IsSeek st
      → IsSeek (offer set is_sent connected addrs self count i st).0
  unfolding offer
  offer-IsSeek i st q v = elim (law.try_add_cases i.id st.ps) [
    | inr (e, m, why) ↦
        rw (e, offer)
          (record {
            differ = v.differ;
            inside = rw m v.inside;
            fewer = rw m v.fewer;
            limited = rw m v.limited;
            limit = law.limit-try_add i.id st.ps ∙ v.limit;
            all = v.all;
          })
    | inl (e, new, m, room) ↦
        let grown : All (λ p. Has p (law.members (set.try_add i.id st.ps).0)) (i.id ∷ ids st.out) =
          (rw m (inl refl), All-map _ _ (λ p h. rw m (inr h)) (ids st.out) v.inside) in
        let fits : (count ≡ 0) ⊎ (suc (length (law.members st.ps)) ≤ count) =
          ground (arith, v.limit, v.limited) in
        elim (Bool-cases (is_sent i.id)) [
          | inl s ↦
              rw (e, offer)
                (rw s (record {
                  differ = (absent i.id (ids st.out) (law.members st.ps) new v.inside, v.differ);
                  inside = grown;
                  fewer = rw m (omega (arith, v.fewer));
                  limited = rw m fits;
                  limit = law.limit-try_add i.id st.ps ∙ v.limit;
                  all = (q, v.all);
                }))
          | inr s ↦
              rw (e, offer)
                (rw s (record {
                  differ = v.differ;
                  inside = grown.1;
                  fewer = rw m (omega (arith, v.fewer));
                  limited = rw m fits;
                  limit = law.limit-try_add i.id st.ps ∙ v.limit;
                  all = v.all;
                }))
        ]
  ]

  abbrev step : AddrInfo → Seek P → Seek P × Bool
  step = offer set is_sent connected addrs self count

  -- What the address book gets does not matter here.
  maybe_add_addrs-IsSeek :
      (i : AddrInfo) (st : Seek P)
      → IsSeek st
      → IsSeek (maybe_add_addrs set is_sent connected addrs self count i st)
  unfolding maybe_add_addrs
  maybe_add_addrs-IsSeek i st v = elim (Bool-cases (i.id == self || connected i.id)) [
    | inl e ↦ rw (e, maybe_add_addrs) v
    | inr e ↦
        rw (e, maybe_add_addrs)
          (record {
            differ = v.differ;
            inside = v.inside;
            fewer = v.fewer;
            limited = v.limited;
            limit = v.limit;
            all = v.all;
          })
  ]

  seek_local-IsSeek :
      (provs : List PeerId) (st : Seek P)
      → All Q (map (peer_info addrs) provs)
      → IsSeek st
      → IsSeek (seek_local set is_sent connected addrs self count provs st).0
  unfolding seek_local
  seek_local-IsSeek [] st a v = v
  seek_local-IsSeek (p ∷ provs) st a v =
      let r = step (peer_info addrs p) st in
      let w = offer-IsSeek (peer_info addrs p) st a.0 v in
      elim (Bool-cases (r.1 || has_enough set is_sent connected addrs self count r.0)) [
        | inl e ↦ rw (e, seek_local) w
        | inr e ↦ rw (e, seek_local) (seek_local-IsSeek provs r.0 a.1 w)
      ]

  seek_in-IsSeek :
      (provs : List AddrInfo) (st : Seek P)
      → All Q provs
      → IsSeek st
      → IsSeek (seek_in set is_sent connected addrs self count provs st)
  unfolding seek_in
  seek_in-IsSeek [] st a v = v
  seek_in-IsSeek (i ∷ provs) st a v =
      let st0 = maybe_add_addrs set is_sent connected addrs self count i st in
      let r = step i st0 in
      let w = offer-IsSeek i st0 a.0 (maybe_add_addrs-IsSeek i st v) in
      elim (Bool-cases (r.1 || has_enough set is_sent connected addrs self count r.0)) [
        | inl e ↦ rw (e, seek_in) w
        | inr e ↦ rw (e, seek_in) (seek_in-IsSeek provs r.0 a.1 w)
      ]

  -- Every provider of an answer has the property.
  abbrev AllIn : List (Option (List AddrInfo)) → Type 0
  AllIn [] = Unit
  AllIn (none ∷ answers) = AllIn answers
  AllIn (some provs ∷ answers) = All Q provs × AllIn answers

  seek_remote-IsSeek :
      (answers : List (Option (List AddrInfo))) (st : Seek P)
      → AllIn answers
      → IsSeek st
      → IsSeek (seek_remote set is_sent connected addrs self count answers st)
  unfolding seek_remote
  seek_remote-IsSeek [] st a v = v
  seek_remote-IsSeek (none ∷ answers) st a v = seek_remote-IsSeek answers st a v
  seek_remote-IsSeek (some provs ∷ answers) st a v =
      seek_remote-IsSeek answers _ a.1 (seek_in-IsSeek provs st a.0 v)

  start_seek-IsSeek : IsSeek (start_seek set is_sent connected addrs self count)
  unfolding start_seek
  start_seek-IsSeek = elim (Bool-cases (count == 0)) [
    | inl e ↦
        rw (e, start_seek)
          (record {
            differ = tt;
            inside = tt;
            fewer = omega arith;
            limited = inl (ground arith);
            limit = law.members-new_set.1 ∙ ground arith;
            all = tt;
          })
    | inr e ↦
        rw (e, start_seek)
          (record {
            differ = tt;
            inside = tt;
            fewer = omega arith;
            limited = inr (rw (law.members-new_limited_set count (ground arith)).0 (omega arith));
            limit = (law.members-new_limited_set count (ground arith)).1;
            all = tt;
          })
  ]

  routine-IsSeek :
      (provs : List PeerId) (answers : List (Option (List AddrInfo)))
      → All Q (map (peer_info addrs) provs)
      → AllIn answers
      → IsSeek (find_providers_async_routine set is_sent connected addrs self count provs answers)
  unfolding find_providers_async_routine
  routine-IsSeek provs answers a a' =
      let r =
        seek_local set is_sent connected addrs self count provs
          (start_seek set is_sent connected addrs self count) in
      let v = seek_local-IsSeek provs _ a start_seek-IsSeek in
      elim (Bool-cases r.1) [
        | inl e ↦ rw (e, find_providers_async_routine) v
        | inr e ↦ rw (e, find_providers_async_routine) (seek_remote-IsSeek answers r.0 a' v)
      ]

-- The info comes from the answers.
abbrev pub HasIn : AddrInfo → List (Option (List AddrInfo)) → Type 0
HasIn i [] = ⊥
HasIn i (none ∷ answers) = HasIn i answers
HasIn i (some provs ∷ answers) = Has i provs ⊎ HasIn i answers

module _ {P : Type 0} (set : PeerSet P) (law : IsPeerSet set) (is_sent connected : PeerId → Bool)
    (addrs : PeerId → List ℕ) (self : PeerId) (count : ℕ) where
  all-Has : (xs : List AddrInfo) → All (λ i. Has i xs) xs
  all-Has [] = tt
  all-Has (x ∷ xs) = (inl refl, All-map _ _ (λ i h. inr h) xs (all-Has xs))

  all_in :
      (Q : AddrInfo → Type 0) (answers : List (Option (List AddrInfo)))
      → ((i : AddrInfo) → HasIn i answers → Q i)
      → AllIn set law is_sent connected addrs self count Q answers
  all_in Q [] k = tt
  all_in Q (none ∷ answers) k = all_in Q answers k
  all_in Q (some provs ∷ answers) k = (
    All-map _ _ (λ i h. k i (inl h)) provs (all-Has provs),
    all_in Q answers (λ i h. k i (inr h)),
  )

  -- The peer package's set adds a peer where it is new and there is room. Then the search for
  -- providers streams no peer twice, no more peers than a count that is not 0, and only infos of
  -- providers on record or from an answer.
  pub find_providers_async_sound :
      (enable_providers is_defined : Bool) (provs : List PeerId)
      (answers : List (Option (List AddrInfo)))
      → let out =
          find_providers_async set is_sent connected addrs self count enable_providers is_defined
            provs answers in
        Differ (ids out)
        × ((count ≡ 0) ⊎ (length out ≤ count))
        × All (λ i. Has i (map (peer_info addrs) provs) ⊎ HasIn i answers) out
  unfolding find_providers_async
  find_providers_async_sound enable_providers is_defined provs answers =
      let Q = λ (i : AddrInfo). Has i (map (peer_info addrs) provs) ⊎ HasIn i answers in
      let v =
        routine-IsSeek set law is_sent connected addrs self count Q provs answers
          (All-map _ _ (λ i h. inl h) (map (peer_info addrs) provs)
            (all-Has (map (peer_info addrs) provs)))
          (all_in Q answers (λ i h. inr h)) in
      elim (Bool-cases (enable_providers && is_defined)) [
        | inr e ↦ rw (e, find_providers_async) (tt, inr (omega arith), tt)
        | inl e ↦ rw (e, find_providers_async) (v.differ, ground (arith, v.fewer, v.limited), v.all)
      ]
