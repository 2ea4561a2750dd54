-- ===== src/Handlers/Finding.antt =====
-- What FIND_NODE tells a peer.
use kadrtt_test_plan.Base.{
  ℕ, ◌≡◌, ◌≢◌, inl, inr, sym, true, none, some, List, [], ◌∷◌, ◌==◌, if◌then◌else◌, ◌>>=◌,
  >>=-eq-some, All, All-append, Bool-cases, Option-cases, arith,
}
use kadrtt_test_plan.Keyspace.{PeerId, convert_key}
use kadrtt_test_plan.Table.{Env, Table}
use kadrtt_test_plan.Table.Nearest.{nearest_peers}
use kadrtt_test_plan.Handlers.Peers.{
  AddrInfo, without_requester, is_listed, with_target, peer_infos, has_addrs, with_addresses,
  closer_peers, better_peers_to_query, closest_peers, handle_find_peer,
}

without_requester-All :
    (self from : PeerId) (ps out : List PeerId)
    → without_requester self from ps ≡ some out
    → All (λ p. p ≢ from) out
unfolding without_requester
without_requester-All self from [] out e = let same : [] ≡ out = ground arith in rw (← same) tt
without_requester-All self from (p ∷ ps) out e = elim (Bool-cases (p == self)) [
  | inl f ↦ absurd (ground arith)
  | inr f ↦
      let step : (without_requester self from ps >>= λ ps'.
      some (if p == from then ps' else p ∷ ps'))
          ≡ some out =
        ground arith in
      let (ps', r, e') = >>=-eq-some (without_requester self from ps) _ step in
      let rest = without_requester-All self from ps ps' r in
      elim (Bool-cases (p == from)) [
        | inl g ↦ let same : ps' ≡ out = ground arith in rw (← same) rest
        | inr g ↦ let same : p ∷ ps' ≡ out = ground arith in rw (← same) (ground arith, rest)
      ]
]

with_target-All :
    (target from : PeerId) (ps : List PeerId)
    → All (λ p. p ≢ from) ps
    → All (λ p. p ≢ from) (with_target target from ps)
unfolding with_target
with_target-All target from ps a = elim (Bool-cases (target == from)) [
  | inl e ↦ rw e a
  | inr e ↦ elim (Bool-cases (is_listed target ps)) [
    | inl f ↦ rw (e, f) a
    | inr f ↦ rw (e, f) (All-append (λ p. p ≢ from) ps (target ∷ []) a (ground arith, tt))
  ]
]

with_addresses-All :
    (P : PeerId → Type 0) (addrs : PeerId → List ℕ) (ps : List PeerId)
    → All P ps
    → All (λ i. P i.id × (has_addrs i ≡ true)) (with_addresses (peer_infos addrs ps))
unfolding with_addresses peer_infos
with_addresses-All P addrs [] a = tt
with_addresses-All P addrs (p ∷ ps) a =
    let i : AddrInfo = record { id = p; addrs = addrs p } in
    elim (Bool-cases (has_addrs i)) [
      | inl e ↦ rw e ((a.0, e), with_addresses-All P addrs ps a.1)
      | inr e ↦ rw e (with_addresses-All P addrs ps a.1)
    ]

module _ {F : Type 0} (env : Env F) (self : PeerId) where
  closest_peers-All :
      (target from : PeerId) (count : ℕ) (t : Table F) (ps : List PeerId)
      → from ≢ self
      → closest_peers env self target from count t ≡ some ps
      → All (λ p. p ≢ from) ps
  unfolding closest_peers better_peers_to_query
  closest_peers-All target from count t ps ne e = elim (Bool-cases (target == self)) [
    | inl f ↦ let same : self ∷ [] ≡ ps = ground arith in rw (← same) (λ q. ne (sym q), tt)
    | inr f ↦
        let step : (better_peers_to_query env self target from count t >>= λ better. elim better [
          | some closest ↦ some (with_target target from closest)
          | none ↦ some (with_target target from [])
        ])
            ≡ some ps =
          ground arith in
        let (better, b, e1) =
          >>=-eq-some (better_peers_to_query env self target from count t) _ step in
        let (closer, c, e2) =
          >>=-eq-some (nearest_peers env (convert_key env.hashing target) count t) _ b in
        elim (Option-cases (without_requester self from closer)) [
          | inl n ↦
              let same : with_target target from [] ≡ ps = ground arith in
              rw (← same) (with_target-All target from [] tt)
          | inr (closest, n) ↦
              let same : with_target target from closest ≡ ps = ground arith in
              rw (← same) (
                with_target-All target from closest
                  (without_requester-All self from closer closest n))
        ]
  ]

  -- The reply to FIND_NODE never names the peer that asked, if that is another one, and each peer in
  -- it has an address.
  pub handle_find_peer-apart :
      (addrs : PeerId → List ℕ) (from : PeerId) (key bucket_size : ℕ) (t : Table F)
      (infos : List AddrInfo)
      → from ≢ self
      → handle_find_peer env self addrs from key bucket_size t ≡ some (closer_peers infos)
      → All (λ i. (i.id ≢ from) × (has_addrs i ≡ true)) infos
  unfolding handle_find_peer
  handle_find_peer-apart addrs from key bucket_size t infos ne e = elim (Bool-cases (key == 0)) [
    | inl f ↦ absurd (ground arith)
    | inr f ↦
        let step : (closest_peers env self key from bucket_size t >>= λ closest.
        some (closer_peers (with_addresses (peer_infos addrs closest))))
            ≡ some (closer_peers infos) =
          ground arith in
        let (closest, c, e1) = >>=-eq-some (closest_peers env self key from bucket_size t) _ step in
        let same : with_addresses (peer_infos addrs closest) ≡ infos = ground arith in
        rw (← same) (
          with_addresses-All (λ p. p ≢ from) addrs closest
            (closest_peers-All key from bucket_size t closest ne c))
  ]
