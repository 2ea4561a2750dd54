-- ===== src/Table/Tracked/Words.antt =====
-- The prefix of GenRandPeerID.
use kadrtt_test_plan.Base.{
  ℕ, zero, suc, ◌+◌, ◌-◌, ◌≤◌, ◌≡◌, refl, ap, sym, ◌∙◌, inr, Bool, true, false, not, ◌&&◌, ◌||◌,
  some, [], ◌∷◌, ◌++◌, map, ltb, if◌then◌else◌, length, length-append, arith,
}
use kadrtt_test_plan.Keyspace.{Bytes}
use kadrtt_test_plan.Table.{Table}
use kadrtt_test_plan.Table.Tracked.{
  Word, bitwise, xor_bit, same_bits, without_last, without_first, shift_right, shift_left, bits,
  uint16, target_prefix, id_of_key, gen_rand_peer_id,
}

-- How many leading bits two words share.
unfoldable pub common_bits : Word → Word → ℕ
common_bits [] ys = 0
common_bits (x ∷ xs) [] = 0
common_bits (x ∷ xs) (y ∷ ys) = let rest = common_bits xs ys in if xor_bit x y then 0 else suc rest

same_bits-snoc : (n : ℕ) (b : Bool) → same_bits n b ++ b ∷ [] ≡ same_bits (suc n) b
unfolding same_bits
same_bits-snoc zero b = refl
same_bits-snoc (suc n) b = ap (λ l. b ∷ l) (same_bits-snoc n b)

without_last-append : (xs : Word) (b : Bool) → without_last (xs ++ b ∷ []) ≡ xs
unfolding without_last
without_last-append [] b = refl
without_last-append (x ∷ []) b = refl
without_last-append (x ∷ y ∷ xs) b = ap (λ l. x ∷ l) (without_last-append (y ∷ xs) b)

pattern-snoc :
    (n k : ℕ)
    → (same_bits n false ++ true ∷ same_bits k false) ++ false ∷ []
      ≡ same_bits n false ++ true ∷ same_bits (suc k) false
unfolding same_bits
pattern-snoc zero k = ap (λ l. true ∷ l) (same_bits-snoc k false)
pattern-snoc (suc n) k = ap (λ l. false ∷ l) (pattern-snoc n k)

without_last-pattern :
    (n k : ℕ)
    → without_last (same_bits n false ++ true ∷ same_bits (suc k) false)
      ≡ same_bits n false ++ true ∷ same_bits k false
without_last-pattern n k =
    ap without_last (sym (pattern-snoc n k))
    ∙ without_last-append (same_bits n false ++ true ∷ same_bits k false) false

ones-snoc :
    (m k : ℕ)
    → (same_bits m true ++ same_bits k false) ++ false ∷ []
      ≡ same_bits m true ++ same_bits (suc k) false
unfolding same_bits
ones-snoc zero k = same_bits-snoc k false
ones-snoc (suc m) k = ap (λ l. true ∷ l) (ones-snoc m k)

ones-nil : (m : ℕ) → same_bits m true ≡ same_bits m true ++ []
unfolding same_bits
ones-nil zero = refl
ones-nil (suc m) = ap (λ l. true ∷ l) (ones-nil m)

shift_right-top :
    (n k m : ℕ)
    → m ≡ n + k
    → shift_right (true ∷ same_bits m false) n ≡ same_bits n false ++ true ∷ same_bits k false
unfolding shift_right same_bits
shift_right-top zero k m e = ap (λ i. true ∷ same_bits i false) (omega arith)
shift_right-top (suc n) k m e =
    ap (λ w. false ∷ without_last w) (shift_right-top n (suc k) m (omega arith))
    ∙ ap (λ w. false ∷ w) (without_last-pattern n k)

shift_left-ones :
    (k m n : ℕ)
    → n ≡ k + m
    → shift_left (same_bits n true) k ≡ same_bits m true ++ same_bits k false
unfolding shift_left same_bits without_first
shift_left-ones zero m n e = ap (λ i. same_bits i true) (omega arith) ∙ ones-nil m
shift_left-ones (suc k) m n e =
    ap (λ w. without_first w ++ false ∷ []) (shift_left-ones k (suc m) n (omega arith))
    ∙ ones-snoc m k

toggled_differs : (l r : Bool) → xor_bit (xor_bit l true && true || r && false) l ≡ true
toggled_differs true true = refl
toggled_differs true false = refl
toggled_differs false true = refl
toggled_differs false false = refl

kept_agrees : (l r : Bool) → xor_bit (xor_bit l false && true || r && false) l ≡ false
kept_agrees true true = refl
kept_agrees true false = refl
kept_agrees false true = refl
kept_agrees false false = refl

-- The bits up to the toggled one come from the local prefix, which is toggled there.
mixed :
    (c k : ℕ) (local rand : Word)
    → length local ≡ c + suc k
    → length rand ≡ c + suc k
    → common_bits
        (bitwise
          (λ a b. a || b)
          (bitwise
            (λ a b. a && b)
            (bitwise xor_bit local (same_bits c false ++ true ∷ same_bits k false))
            (same_bits (suc c) true ++ same_bits k false))
          (bitwise (λ a b. a && b) rand (map not (same_bits (suc c) true ++ same_bits k false))))
        local
      ≡ c
unfolding common_bits bitwise same_bits
mixed c k [] rand e f = absurd (omega arith)
mixed c k (l ∷ local) [] e f = absurd (omega arith)
mixed zero k (l ∷ local) (r ∷ rand) e f = rw (toggled_differs l r) refl
mixed (suc c) k (l ∷ local) (r ∷ rand) e f =
    let rest = mixed c k local rand (omega arith) (omega arith) in
    rw (kept_agrees l r) (ap suc rest)

target_prefix-common_bits :
    (c : ℕ) (local rand : Word)
    → c ≤ 15
    → length local ≡ 16
    → length rand ≡ 16
    → common_bits (target_prefix local rand c) local ≡ c
unfolding target_prefix
target_prefix-common_bits c local rand h e f =
    let same_shift : 16 - (c + 1) ≡ 15 - c = omega arith in
    rw (shift_right-top c (15 - c) 15 (omega arith)) (
      rw (shift_left-ones (16 - (c + 1)) (suc c) 16 (omega arith))
        (rw same_shift (mixed c (15 - c) local rand (omega arith) (omega arith))))

length-bits : (n b : ℕ) → length (bits n b) ≡ n
unfolding bits
length-bits zero b = refl
length-bits (suc n) b = ap suc (length-bits n b)

-- GenRandPeerID gives an ID for every prefix length up to 15: that of a prefix which shares exactly
-- so many leading bits with the local ID, for a local ID of two bytes at least and any 16 random bits.
pub gen_rand_peer_id-common_bits :
    {F : Type 0} (key_prefix_map : Word → ℕ) (rand : Word) (c a b : ℕ) (rest : Bytes) (t : Table F)
    → t.local ≡ a ∷ b ∷ rest
    → length rand ≡ 16
    → c ≤ 15
    → (w : Word) × (gen_rand_peer_id key_prefix_map (some rand) c t
        ≡ some (inr (id_of_key (key_prefix_map w))))
      × (common_bits w (bits 8 a ++ bits 8 b) ≡ c)
unfolding gen_rand_peer_id uint16
gen_rand_peer_id-common_bits key_prefix_map rand c a b rest t e f h =
    let local_prefix = bits 8 a ++ bits 8 b in
    let whole : length local_prefix ≡ 16 =
      omega (arith, length-append (bits 8 a) (bits 8 b), length-bits 8 a, length-bits 8 b) in
    let within : ltb 15 c ≡ false = ground arith in
    (
      target_prefix local_prefix rand c,
      rw e (rw within refl),
      target_prefix-common_bits c local_prefix rand h whole f,
    )
