-- ===== src/Table/Tracked.antt =====
-- dht/go-libp2p-kbucket/table_refresh.go: when each prefix length was last refreshed, and a peer ID
-- for a refresh query. A time is a number, 0 for the zero time.
pub mod Words
pub mod Times
use kadrtt_test_plan.Base.{
  ℕ, zero, suc, ◌+◌, ◌-◌, ◌/◌, ◌%◌, ◌^◌, ◌⊎◌, inl, inr, Bool, true, false, not, ◌&&◌, ◌||◌, Option,
  none, some, List, [], ◌∷◌, ◌++◌, map, ltb, ◌==◌, if◌then◌else◌, ◌>>=◌, Map, lookup, put,
}
use kadrtt_test_plan.Keyspace.{Bytes, common_prefix_len}
use kadrtt_test_plan.Table.{Env, Table, table_max_common_prefix}

abbrev pub max_cpl_for_refresh : ℕ
max_cpl_for_refresh = 15

unfoldable pub refreshed_at : ℕ → Map ℕ → ℕ
refreshed_at cpl m = elim (lookup cpl m) [ some time ↦ time | none ↦ 0 ]

-- The times of `n` prefix lengths from `i` on.
unfoldable pub times_from : ℕ → ℕ → Map ℕ → List ℕ
times_from zero i m = []
times_from (suc n) i m = refreshed_at i m ∷ times_from n (i + 1) m

-- A uint16 (or a part of it) as its bits, the highest first.
abbrev pub Word : Type 0
Word = List Bool

unfoldable pub bitwise : (Bool → Bool → Bool) → Word → Word → Word
bitwise op [] ys = []
bitwise op (x ∷ xs) [] = []
bitwise op (x ∷ xs) (y ∷ ys) = op x y ∷ bitwise op xs ys

abbrev pub xor_bit : Bool → Bool → Bool
xor_bit a b = if a then not b else b

unfoldable pub same_bits : ℕ → Bool → Word
same_bits zero b = []
same_bits (suc n) b = b ∷ same_bits n b

unfoldable pub without_last : Word → Word
without_last [] = []
without_last (x ∷ []) = []
without_last (x ∷ y ∷ xs) = x ∷ without_last (y ∷ xs)

unfoldable pub without_first : Word → Word
without_first [] = []
without_first (x ∷ xs) = xs

unfoldable pub shift_right : Word → ℕ → Word
shift_right w zero = w
shift_right w (suc n) = false ∷ without_last (shift_right w n)

unfoldable pub shift_left : Word → ℕ → Word
shift_left w zero = w
shift_left w (suc n) = without_first (shift_left w n) ++ false ∷ []

-- The low bits of a number.
unfoldable pub bits : ℕ → ℕ → Word
bits zero b = []
bits (suc n) b = (b / 2 ^ n % 2 == 1) ∷ bits n b

-- `binary.BigEndian.Uint16`, which panics on a shorter slice.
unfoldable pub uint16 : Bytes → Option Word
uint16 (a ∷ b ∷ rest) = some (bits 8 a ++ bits 8 b)
uint16 _ = none

-- The prefix toggles the bit after the common ones, 0x8000 shifted, and takes the rest at random.
unfoldable pub target_prefix : Word → Word → ℕ → Word
target_prefix local_prefix rand_prefix target_cpl =
    let toggled =
      bitwise xor_bit local_prefix (shift_right (true ∷ same_bits 15 false) target_cpl) in
    let mask = shift_left (same_bits 16 true) (16 - (target_cpl + 1)) in
    bitwise (λ a b. a || b) (bitwise (λ a b. a && b) toggled mask)
      (bitwise (λ a b. a && b) rand_prefix (map not mask))

unfoldable pub zero_bytes : ℕ → Bytes
zero_bytes zero = []
zero_bytes (suc n) = 0 ∷ zero_bytes n

-- The multihash header, the key as four bytes, and zeros: 34 bytes.
unfoldable pub id_of_key : ℕ → Bytes
id_of_key key =
    18
    ∷ 32
    ∷ key / 2 ^ 24 % 256
    ∷ key / 2 ^ 16 % 256
    ∷ key / 2 ^ 8 % 256
    ∷ key % 256
    ∷ zero_bytes 28

pub data GenError : Type 0 where
  cpl_too_large no_randomness : GenError

module _ {F : Type 0} (env : Env F) where
  unfoldable pub last_tracked : Table F → ℕ
  last_tracked t =
      let m = table_max_common_prefix env t in
      if ltb max_cpl_for_refresh m then max_cpl_for_refresh else m

  unfoldable pub get_tracked_cpls_for_refresh : Table F → List ℕ
  get_tracked_cpls_for_refresh t = times_from (last_tracked t + 1) 0 t.cpl_refreshed_at

  unfoldable pub reset_cpl_refreshed_at_for_id : Bytes → ℕ → Table F → Table F
  reset_cpl_refreshed_at_for_id id new_time t =
      let cpl = common_prefix_len env.hashing id t.local in
      if ltb max_cpl_for_refresh cpl
      then t
      else record t { cpl_refreshed_at = put cpl new_time t.cpl_refreshed_at }

-- `rand_uint16` is what crypto/rand gives, `none` for its error; `key_prefix_map` is the generated
-- table. `none` is the panic of `uint16`.
unfoldable pub gen_rand_peer_id :
    {F : Type 0} → (Word → ℕ) → Option Word → ℕ → Table F → Option (GenError ⊎ Bytes)
gen_rand_peer_id key_prefix_map rand_uint16 target_cpl t =
    if ltb max_cpl_for_refresh target_cpl
    then some (inl cpl_too_large)
    else (uint16 t.local >>= λ local_prefix. elim rand_uint16 [
      | none ↦ some (inl no_randomness)
      | some r ↦ some (inr (id_of_key (key_prefix_map (target_prefix local_prefix r target_cpl))))
    ])
