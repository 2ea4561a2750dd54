-- ===== src/Keyspace.antt =====
-- The XOR keyspace: dht/go-libp2p-kbucket/keyspace/keyspace.go, keyspace/xor.go and util.go.
-- A byte slice is a list of numbers. A Go string (a peer.ID, a record key) is only compared and
-- hashed, so a number names it, and 0 names the empty string.
pub mod Order
pub mod Prefix
use kadrtt_test_plan.Base.{
  ℕ, ◌+◌, ◌*◌, ◌≡◌, refl, Bool, true, false, Option, none, some, List, [], ◌∷◌, map, ltb, ◌==◌,
  if◌then◌else◌, length, sort_by,
}

abbrev pub Bytes : Type 0
Bytes = List ℕ

abbrev pub PeerId : Type 0
PeerId = ℕ

-- What the code takes from packages outside the repository: `u.XOR` of go-ipfs-util, and
-- `sha256.Sum256` of sha256-simd on the bytes of a string.
pub record Hashing : Type 0 where
  pub xor : Bytes → Bytes → Bytes
  pub sum256 : ℕ → Bytes

-- `Space` is a pointer, so a number stands for it.
pub record Key : Type 0 where
  pub space : ℕ
  pub original : ℕ
  pub bytes : Bytes

abbrev pub xor_key_space : ℕ
xor_key_space = 1

unfoldable pub bytes_equal : Bytes → Bytes → Bool
bytes_equal [] [] = true
bytes_equal [] (y ∷ b) = false
bytes_equal (x ∷ a) [] = false
bytes_equal (x ∷ a) (y ∷ b) = if x == y then bytes_equal a b else false

-- `bytes.Compare(a, b) < 0`.
pub bytes_less : Bytes → Bytes → Bool
bytes_less [] [] = false
bytes_less [] (y ∷ b) = true
bytes_less (x ∷ a) [] = false
bytes_less (x ∷ a) (y ∷ b) = if ltb x y then true else if ltb y x then false else bytes_less a b

-- `big.NewInt(0).SetBytes(b)`, big-endian.
set_bytes_from : ℕ → Bytes → ℕ
set_bytes_from acc [] = acc
set_bytes_from acc (b ∷ bs) = set_bytes_from (acc * 256 + b) bs

pub set_bytes : Bytes → ℕ
unfolding set_bytes_from
set_bytes bs = set_bytes_from 0 bs

-- `bits.LeadingZeros8`.
pub leading_zeros8 : ℕ → ℕ
leading_zeros8 b =
    if ltb b 1
    then 8
    else if ltb b 2
    then 7
    else if ltb b 4
    then 6
    else if ltb b 8
    then 5
    else if ltb b 16
    then 4
    else if ltb b 32
    then 3
    else if ltb b 64
    then 2
    else if ltb b 128
    then 1
    else 0

-- The loop of `ZeroPrefixLen`; `i` is its index, and the length of the slice at the end.
zero_prefix_from : ℕ → Bytes → ℕ
unfolding leading_zeros8
zero_prefix_from i [] = i * 8
zero_prefix_from i (b ∷ bs) =
    let rest = zero_prefix_from (i + 1) bs in if b == 0 then rest else i * 8 + leading_zeros8 b

pub zero_prefix_len : Bytes → ℕ
unfolding zero_prefix_from
zero_prefix_len id = zero_prefix_from 0 id

-- The methods of a Key panic on keys of two spaces: `none`.
pub key_equal : Key → Key → Option Bool
key_equal k1 k2 = if k1.space == k2.space then some (bytes_equal k1.bytes k2.bytes) else none

pub key_less : Key → Key → Option Bool
key_less k1 k2 = if k1.space == k2.space then some (bytes_less k1.bytes k2.bytes) else none

-- The kbucket package's `ID.equal` and `ID.less`.
pub id_equal : Bytes → Bytes → Bool
id_equal id other = bytes_equal id other

-- Both keys have the one space, so the panic of `key_less` is not met.
unfoldable pub id_less : Bytes → Bytes → Bool
unfolding key_less bytes_less
id_less id other =
    elim (key_less (record { space = xor_key_space; original = 0; bytes = id })
      (record { space = xor_key_space; original = 0; bytes = other })) [ some r ↦ r | none ↦ false ]

module _ (h : Hashing) where
  pub space_key : ℕ → Key
  space_key id = record { space = xor_key_space; original = id; bytes = h.sum256 id }

  pub key_distance : Key → Key → Option ℕ
  unfolding set_bytes
  key_distance k1 k2 =
      if k1.space == k2.space then some (set_bytes (h.xor k1.bytes k2.bytes)) else none

  -- `Distance` of table.go, on byte slices.
  unfoldable pub distance : Bytes → Bytes → ℕ
  unfolding set_bytes
  distance k1 k2 = set_bytes (h.xor k1 k2)

  unfoldable pub common_prefix_len : Bytes → Bytes → ℕ
  unfolding zero_prefix_len
  common_prefix_len a b = zero_prefix_len (h.xor a b)

  unfoldable pub convert_peer_id : PeerId → Bytes
  convert_peer_id id = h.sum256 id

  unfoldable pub convert_key : ℕ → Bytes
  convert_key id = h.sum256 id

  -- `byDistanceToCenter.Less`, on keys of the one space.
  pub sort_by_distance : Key → List Key → List Key
  unfolding distance
  sort_by_distance center to_sort =
      sort_by (λ a b. ltb (distance center.bytes a.bytes) (distance center.bytes b.bytes)) to_sort

  -- `Closer`: is `a` closer to the key than `b` is?
  pub closer : PeerId → PeerId → ℕ → Bool
  unfolding convert_peer_id convert_key id_less
  closer a b key =
      id_less (h.xor (convert_peer_id a) (convert_key key))
        (h.xor (convert_peer_id b) (convert_key key))
