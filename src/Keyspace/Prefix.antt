-- ===== src/Keyspace/Prefix.antt =====
-- ZeroPrefixLen and CommonPrefixLen against the XOR distance.
use kadrtt_test_plan.Base.{
  ℕ, ◌+◌, ◌*◌, ◌≤◌, ◌<◌, ◌≡◌, refl, [], ◌∷◌, length, if◌then◌else◌, arith, ◌==◌,
}
use kadrtt_test_plan.Keyspace.{
  Bytes, Hashing, leading_zeros8, zero_prefix_from, zero_prefix_len, distance, common_prefix_len,
}
use kadrtt_test_plan.Keyspace.Order.{
  IsBytes, weight, value, set_bytes-value, value-lt-weight, weight_of_length, digit-lt,
}

-- The index of the loop only shifts the result.
zero_prefix_from-shift :
    (i : ℕ) (bs : Bytes) → zero_prefix_from i bs ≡ i * 8 + zero_prefix_from 0 bs
unfolding zero_prefix_from
zero_prefix_from-shift i [] = omega arith
zero_prefix_from-shift i (b ∷ bs) =
    ground (arith, zero_prefix_from-shift (i + 1) bs, zero_prefix_from-shift (0 + 1) bs)

pub zero_prefix_len-nil : zero_prefix_len [] ≡ 0
unfolding zero_prefix_len
zero_prefix_len-nil = refl

pub zero_prefix_len-cons :
    (b : ℕ) (bs : Bytes)
    → zero_prefix_len (b ∷ bs) ≡ (if b == 0 then 8 + zero_prefix_len bs else leading_zeros8 b)
unfolding zero_prefix_len
zero_prefix_len-cons b bs = ground (arith, zero_prefix_from-shift (0 + 1) bs)

leading_zeros8-lt : (b : ℕ) → 0 < b → leading_zeros8 b < 8
unfolding leading_zeros8
leading_zeros8-lt b h = ground arith

leading_zeros8-anti : (x y : ℕ) → leading_zeros8 x < leading_zeros8 y → y < x
unfolding leading_zeros8
leading_zeros8-anti x y h = ground arith

pub zero_prefix_len-le : (bs : Bytes) → zero_prefix_len bs ≤ 8 * length bs
zero_prefix_len-le [] = omega (arith, zero_prefix_len-nil)
zero_prefix_len-le (b ∷ bs) =
    ground (arith, zero_prefix_len-cons b bs, zero_prefix_len-le bs, leading_zeros8-lt b)

zero_prefix_len-value :
    (a b : Bytes)
    → length a ≡ length b
    → IsBytes a
    → IsBytes b
    → zero_prefix_len a < zero_prefix_len b
    → value b < value a
zero_prefix_len-value [] [] e h k l = absurd (omega (arith, zero_prefix_len-nil))
zero_prefix_len-value [] (y ∷ b) e h k l = absurd (omega arith)
zero_prefix_len-value (x ∷ a) [] e h k l = absurd (omega arith)
zero_prefix_len-value (x ∷ a) (y ∷ b) e h k l = ground (
  arith,
  zero_prefix_len-cons x a,
  zero_prefix_len-cons y b,
  zero_prefix_len-value a b (omega arith) h.1 k.1,
  leading_zeros8-lt x,
  leading_zeros8-lt y,
  leading_zeros8-anti x y,
  weight_of_length a b (omega arith),
  value-lt-weight b k.1,
  digit-lt y x (weight a) (value b) (value a),
)

-- More common leading bits with a target is a smaller XOR distance to it: `a` and `b` are two IDs
-- whose XOR with the target are byte slices of one length.
pub distance-anti_common_prefix_len :
    (h : Hashing) (a b target : Bytes)
    → length (h.xor a target) ≡ length (h.xor b target)
    → IsBytes (h.xor a target)
    → IsBytes (h.xor b target)
    → common_prefix_len h a target < common_prefix_len h b target
    → distance h b target < distance h a target
unfolding common_prefix_len distance
distance-anti_common_prefix_len h a b target e p q l =
    rw (set_bytes-value (h.xor a target), set_bytes-value (h.xor b target))
      (zero_prefix_len-value (h.xor a target) (h.xor b target) e p q l)
