-- ===== src/Keyspace/Order.antt =====
-- The two ways in which the code compares distances: bytes.Compare on the XORed slices (ID.less)
-- and big.Int (the Distance methods).
use native.Mathlib.Nat.{mul-le-mul_right}
use kadrtt_test_plan.Base.{
  ℕ, suc, ◌+◌, ◌*◌, ◌≤◌, ◌<◌, ◌≡◌, refl, ◌↔◌, true, [], ◌∷◌, length, All, arith,
}
use kadrtt_test_plan.Keyspace.{Bytes, bytes_equal, bytes_less, set_bytes_from, set_bytes, id_less}

abbrev pub IsBytes : Bytes → Type 0
IsBytes = All (λ b. b < 256)

-- The value of one more digit, and the number that a slice writes.
abbrev pub weight : Bytes → ℕ
weight [] = 1
weight (b ∷ bs) = 256 * weight bs

abbrev pub value : Bytes → ℕ
value [] = 0
value (b ∷ bs) = b * weight bs + value bs

set_bytes_from-value : (acc : ℕ) (bs : Bytes) → set_bytes_from acc bs ≡ acc * weight bs + value bs
unfolding set_bytes_from
set_bytes_from-value acc [] = omega arith
set_bytes_from-value acc (b ∷ bs) = omega (arith, set_bytes_from-value (acc * 256 + b) bs)

pub set_bytes-value : (bs : Bytes) → set_bytes bs ≡ value bs
unfolding set_bytes
set_bytes-value bs = omega (arith, set_bytes_from-value 0 bs)

pub value-lt-weight : (bs : Bytes) → IsBytes bs → value bs < weight bs
value-lt-weight [] h = omega arith
value-lt-weight (b ∷ bs) h =
    let first : b * weight bs ≤ 255 * weight bs = grind arith in
    omega (arith, value-lt-weight bs h.1)

pub weight_of_length : (a b : Bytes) → length a ≡ length b → weight a ≡ weight b
weight_of_length [] [] h = refl
weight_of_length [] (y ∷ b) h = absurd (omega arith)
weight_of_length (x ∷ a) [] h = absurd (omega arith)
weight_of_length (x ∷ a) (y ∷ b) h = omega (arith, weight_of_length a b (omega arith))

-- A smaller leading digit makes a smaller number.
pub digit-lt : (x y w u v : ℕ) → x < y → u < w → x * w + u < y * w + v
digit-lt x y w u v h k = let step : suc x * w ≤ y * w = mul-le-mul_right w h in omega arith

-- On slices of one length, the order of the bytes is the order of the numbers.
pub bytes_less-lt_value :
    (a b : Bytes)
    → length a ≡ length b
    → IsBytes a
    → IsBytes b
    → (bytes_less a b ≡ true) ↔ (value a < value b)
unfolding bytes_less
bytes_less-lt_value [] [] e h k = ground arith
bytes_less-lt_value [] (y ∷ b) e h k = absurd (omega arith)
bytes_less-lt_value (x ∷ a) [] e h k = absurd (omega arith)
bytes_less-lt_value (x ∷ a) (y ∷ b) e h k = ground (
  arith,
  bytes_less-lt_value a b (omega arith) h.1 k.1,
  value-lt-weight a h.1,
  value-lt-weight b k.1,
  weight_of_length a b (omega arith),
  digit-lt x y (weight a) (value a) (value b),
  digit-lt y x (weight a) (value b) (value a),
)

-- `ID.less` and the comparison of big.Int distances are one order: on slices of bytes of one
-- length, `id_less` answers true exactly when the number of the first is below that of the second.
pub id_less-lt_set_bytes :
    (a b : Bytes)
    → length a ≡ length b
    → IsBytes a
    → IsBytes b
    → (id_less a b ≡ true) ↔ (set_bytes a < set_bytes b)
unfolding id_less
id_less-lt_set_bytes a b e h k =
    rw (set_bytes-value a, set_bytes-value b) (bytes_less-lt_value a b e h k)

pub bytes_equal-eq : (a b : Bytes) → bytes_equal a b ≡ true → a ≡ b
unfolding bytes_equal
bytes_equal-eq [] [] e = refl
bytes_equal-eq [] (y ∷ b) e = cc
bytes_equal-eq (x ∷ a) [] e = cc
bytes_equal-eq (x ∷ a) (y ∷ b) e = ground (arith, bytes_equal-eq a b)

pub bytes_equal_refl : (a : Bytes) → bytes_equal a a ≡ true
unfolding bytes_equal
bytes_equal_refl [] = refl
bytes_equal_refl (x ∷ a) = ground (arith, bytes_equal_refl a)
