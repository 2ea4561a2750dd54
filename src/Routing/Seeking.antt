-- ===== src/Routing/Seeking.antt =====
-- The search for providers: FindProvidersAsync and findProvidersAsyncRoutine of routing.go, and
-- maybeAddAddrs of dht.go. The answers are taken one at a time.
use kadrtt_test_plan.Base.{
  ℕ, Bool, true, false, not, ◌&&◌, ◌||◌, Option, none, some, List, [], ◌∷◌, leb, ◌==◌,
  if◌then◌else◌,
}
use kadrtt_test_plan.Keyspace.{PeerId}
use kadrtt_test_plan.Handlers.Peers.{AddrInfo}

-- The peer package's Set.
pub record PeerSet (P : Type 0) : Type 0 where
  pub new_set : P
  pub new_limited_set : ℕ → P
  pub try_add : PeerId → P → P × Bool
  pub size : P → ℕ

-- `out` is what was streamed, the last first, and `added` the calls of AddAddrs.
pub record Seek (P : Type 0) : Type 0 where
  pub ps : P
  pub out : List AddrInfo
  pub added : List AddrInfo

-- The peerstore's PeerInfo.
abbrev pub peer_info : (PeerId → List ℕ) → PeerId → AddrInfo
peer_info addrs p = record { id = p; addrs = addrs p }

-- `is_sent` tells of each peer whether its info is taken before the context is done; `addrs` has
-- the peerstore's addresses, and `connected` the network's Connectedness.
module _ {P : Type 0} (set : PeerSet P) (is_sent connected : PeerId → Bool)
    (addrs : PeerId → List ℕ) (self : PeerId) (count : ℕ) where
  unfoldable pub maybe_add_addrs : AddrInfo → Seek P → Seek P
  maybe_add_addrs i st =
      if i.id == self || connected i.id then st else record st { added = i ∷ st.added }

  -- An info is sent where its peer is new; the context may be done then.
  unfoldable pub offer : AddrInfo → Seek P → Seek P × Bool
  offer i st =
      let (ps', is_new) = set.try_add i.id st.ps in
      if is_new
      then if is_sent i.id
        then (record st { ps = ps'; out = i ∷ st.out }, false)
        else (record st { ps = ps' }, true)
      else (record st { ps = ps' }, false)

  -- With a count that is not 0, there are enough.
  unfoldable pub has_enough : Seek P → Bool
  has_enough st = not (count == 0) && leb count (set.size st.ps)

  -- The loop over the providers on record; it tells whether the routine returns.
  unfoldable pub seek_local : List PeerId → Seek P → Seek P × Bool
  seek_local [] st = (st, false)
  seek_local (p ∷ provs) st =
      let (st', cancelled) = offer (peer_info addrs p) st in
      let rest = seek_local provs st' in if cancelled || has_enough st' then (st', true) else rest

  -- The loop over the providers of one answer.
  unfoldable pub seek_in : List AddrInfo → Seek P → Seek P
  seek_in [] st = st
  seek_in (prov ∷ provs) st =
      let (st', cancelled) = offer prov (maybe_add_addrs prov st) in
      let rest = seek_in provs st' in if cancelled || has_enough st' then st' else rest

  -- The answers that come during the lookup, none for an error.
  unfoldable pub seek_remote : List (Option (List AddrInfo)) → Seek P → Seek P
  seek_remote [] st = st
  seek_remote (none ∷ answers) st = seek_remote answers st
  seek_remote (some provs ∷ answers) st = seek_remote answers (seek_in provs st)

  unfoldable pub start_seek : Seek P
  start_seek = record {
    ps = if count == 0 then set.new_set else set.new_limited_set count;
    out = [];
    added = [];
  }

  unfoldable pub find_providers_async_routine : List PeerId → List (Option (List AddrInfo)) → Seek P
  find_providers_async_routine provs answers =
      let (st, returns) = seek_local provs start_seek in
      let rest = seek_remote answers st in if returns then st else rest

  unfoldable pub find_providers_async :
      Bool → Bool → List PeerId → List (Option (List AddrInfo)) → List AddrInfo
  find_providers_async enable_providers is_defined provs answers =
      if enable_providers && is_defined
      then (find_providers_async_routine provs answers).out
      else []
