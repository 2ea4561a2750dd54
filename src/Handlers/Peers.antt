-- ===== src/Handlers/Peers.antt =====
-- The choice of closer peers, in dht.go, and the handlers that do not read records. A string, such as a
-- peer.ID or a key, is a number here, 0 for the empty one.
use kadrtt_test_plan.Base.{
  ℕ, Bool, true, false, Option, none, some, List, [], ◌∷◌, ◌++◌, ltb, ◌==◌, if◌then◌else◌, ◌>>=◌,
}
use kadrtt_test_plan.Keyspace.{PeerId, convert_key}
use kadrtt_test_plan.Table.{Env, Table}
use kadrtt_test_plan.Table.Nearest.{nearest_peers}

pub data MessageType : Type 0 where
  put_value get_value add_provider get_providers find_node ping : MessageType

pub data Handler : Type 0 where
  find_peer_handler ping_handler get_value_handler put_value_handler : Handler
  add_provider_handler get_providers_handler : Handler

unfoldable pub handler_for_msg_type : Bool → Bool → MessageType → Option Handler
handler_for_msg_type enable_values enable_providers find_node = some find_peer_handler
handler_for_msg_type enable_values enable_providers ping = some ping_handler
handler_for_msg_type enable_values enable_providers get_value =
    if enable_values then some get_value_handler else none
handler_for_msg_type enable_values enable_providers put_value =
    if enable_values then some put_value_handler else none
handler_for_msg_type enable_values enable_providers add_provider =
    if enable_providers then some add_provider_handler else none
handler_for_msg_type enable_values enable_providers get_providers =
    if enable_providers then some get_providers_handler else none

pub record AddrInfo : Type 0 where
  pub id : PeerId
  pub addrs : List ℕ

-- The loop of betterPeersToQuery: `none` for nil, where the node itself is among the peers.
unfoldable pub without_requester : PeerId → PeerId → List PeerId → Option (List PeerId)
without_requester self from [] = some []
without_requester self from (p ∷ ps) =
    let rest = without_requester self from ps in
    if p == self then none else (rest >>= λ ps'. some (if p == from then ps' else p ∷ ps'))

unfoldable pub is_listed : PeerId → List PeerId → Bool
is_listed p [] = false
is_listed p (q ∷ qs) = let rest = is_listed p qs in if p == q then true else rest

-- The target, if it is not the requester and not there yet.
unfoldable pub with_target : PeerId → PeerId → List PeerId → List PeerId
with_target target from closest =
    if target == from
    then closest
    else if is_listed target closest
    then closest
    else closest ++ target ∷ []

-- `pstore.PeerInfos`, and those of them that have addresses.
unfoldable pub peer_infos : (PeerId → List ℕ) → List PeerId → List AddrInfo
peer_infos addrs [] = []
peer_infos addrs (p ∷ ps) = record { id = p; addrs = addrs p } ∷ peer_infos addrs ps

abbrev pub has_addrs : AddrInfo → Bool
has_addrs i = elim i.addrs [ [] ↦ false | a ∷ more ↦ true ]

unfoldable pub with_addresses : List AddrInfo → List AddrInfo
with_addresses [] = []
with_addresses (i ∷ is) = let rest = with_addresses is in if has_addrs i then i ∷ rest else rest

-- The closer peers of a reply, or the error for an empty key.
pub data FindReply : Type 0 where
  closer_peers : List AddrInfo → FindReply
  empty_key : FindReply

pub data ProvidersReply : Type 0 where
  providers_and_closer : List AddrInfo → List AddrInfo → ProvidersReply
  key_too_large no_provider_key : ProvidersReply

-- A call of the peerstore's AddAddrs, or of the provider manager's AddProvider.
pub data ProviderCall : Type 0 where
  addresses_added : PeerId → List ℕ → ProviderCall
  provider_added : ℕ → PeerId → ProviderCall

module _ {F : Type 0} (env : Env F) (self : PeerId) where
  -- The outer `none` is a panic of NearestPeers, the inner one nil.
  unfoldable pub better_peers_to_query : ℕ → PeerId → ℕ → Table F → Option (Option (List PeerId))
  better_peers_to_query key from count t =
      nearest_peers env (convert_key env.hashing key) count t >>= λ closer.
      some (without_requester self from closer)

  unfoldable pub closest_peers : ℕ → PeerId → ℕ → Table F → Option (List PeerId)
  closest_peers target from count t =
      if target == self
      then some (self ∷ [])
      else (better_peers_to_query target from count t >>= λ better. elim better [
        | some closest ↦ some (with_target target from closest)
        | none ↦ some (with_target target from [])
      ])

  unfoldable pub handle_find_peer : (PeerId → List ℕ) → PeerId → ℕ → ℕ → Table F → Option FindReply
  handle_find_peer addrs from key bucket_size t =
      if key == 0
      then some empty_key
      else (closest_peers key from bucket_size t >>= λ closest.
          some (closer_peers (with_addresses (peer_infos addrs closest))))

  -- The closer peers of a reply to GET_VALUE and GET_PROVIDERS, also those without addresses; none
  -- for nil.
  unfoldable pub closer_infos :
      (PeerId → List ℕ) → PeerId → ℕ → ℕ → Table F → Option (List AddrInfo)
  closer_infos addrs from key bucket_size t =
      better_peers_to_query key from bucket_size t >>= λ better. elim better [
        | some closer ↦ some (peer_infos addrs closer)
        | none ↦ some []
      ]

  -- The providers on record and the closer peers; `providers` is what GetProviders answers.
  unfoldable pub handle_get_providers :
      (PeerId → List ℕ) → PeerId → ℕ → ℕ → List PeerId → ℕ → Table F → Option ProvidersReply
  handle_get_providers addrs from key key_length providers bucket_size t =
      if ltb 80 key_length
      then some key_too_large
      else if key_length == 0
      then some no_provider_key
      else (closer_infos addrs from key bucket_size t >>= λ closer.
          some (providers_and_closer (peer_infos addrs providers) closer))

  -- The calls made for each provider of the message; only the sender's own records count.
  unfoldable pub add_providers : PeerId → ℕ → List AddrInfo → List ProviderCall
  add_providers from key [] = []
  add_providers from key (i ∷ is) =
      let rest = add_providers from key is in
      if i.id == from
      then if has_addrs i
        then if i.id == self
          then provider_added key from ∷ rest
          else addresses_added i.id i.addrs ∷ provider_added key from ∷ rest
        else rest
      else rest

  -- `none` for an error: the key is empty or longer than 80 bytes.
  unfoldable pub handle_add_provider : PeerId → ℕ → ℕ → List AddrInfo → Option (List ProviderCall)
  handle_add_provider from key key_length infos =
      if ltb 80 key_length
      then none
      else if key_length == 0
      then none
      else some (add_providers from key infos)
