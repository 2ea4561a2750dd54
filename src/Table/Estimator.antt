-- ===== src/Table/Estimator.antt =====
-- The parameters of a bucket under KadRTT: setOptValues, CalcKOpt, CalcAlphaOpt, CalcBetaOpt and the
-- Lambert W function of table.go, over float64 operations that are not interpreted.
use Prim.Native.String.{String}
use Prim.Native.Nat.{max, min}
use kadrtt_test_plan.Base.{
  ℕ, ◌-◌, ◌*◌, Option, some, List, [], ◌∷◌, ltb, ◌==◌, if◌then◌else◌, get_elem?, ◌||◌, ◌>>=◌,
}
use kadrtt_test_plan.Floats.{Floats}
use kadrtt_test_plan.Bucket.{Bucket}
use kadrtt_test_plan.Table.{Env, Table, update_at}

-- Polynomials are written innermost coefficient last, as the code nests them.
module _ (fl : Floats) where
  poly : ℕ → List String → ℕ
  poly x [] = fl.of_int 0
  poly x (a ∷ []) = fl.literal a
  poly x (a ∷ as') = fl.add (fl.literal a) (fl.mul x (poly x as'))

  neg : ℕ → ℕ
  neg x = fl.mul (fl.literal "-1") x

  rationalm : ℕ → ℕ
  unfolding poly
  rationalm x =
      fl.div (poly x ("-7.81417672390744" ∷ "253.88810188892484" ∷ "657.9493176902304" ∷ [])) (
        poly x (
          "1" ∷ "-60.43958713690808" ∷ "99.9856708310761" ∷ "682.6073999909428"
          ∷ "962.1784396969866" ∷ "1477.9341280760887" ∷ []))

  rationalp0 : ℕ → ℕ
  unfolding poly
  rationalp0 x =
      fl.div
        (fl.mul x (
          poly x (
            "1" ∷ "5.931375839364438" ∷ "11.39220550532913" ∷ "7.33888339911111"
            ∷ "0.653449016991959" ∷ [])))
        (poly x (
          "1" ∷ "6.931373689597704" ∷ "16.82349461388016" ∷ "16.43072324143226"
          ∷ "5.115235195211697" ∷ []))

  rationalp1 : ℕ → ℕ
  unfolding poly
  rationalp1 x =
      fl.div
        (fl.mul x (
          poly x (
            "1" ∷ "2.445053070726557" ∷ "1.343664225958226" ∷ "0.148440055397592"
            ∷ "0.0008047501729130" ∷ [])))
        (poly x (
          "1" ∷ "3.444708986486002" ∷ "3.292489857371952" ∷ "0.916460018803122"
          ∷ "0.0530686404483322" ∷ []))

  -- On the branch k = 0, where s is 1.
  branchpoint : ℕ → ℕ
  unfolding poly
  branchpoint x =
      let p =
        fl.mul (fl.mul (fl.of_int 1) fl.sqrt2)
          (fl.sqrt (fl.add (fl.literal "1") (fl.mul fl.e x))) in
      poly p (
        "-1" ∷ "1" ∷ "-0.3333333333333333" ∷ "0.1527777777777778" ∷ "-0.07962962962962963"
        ∷ "0.04450231481481481" ∷ "-0.02598471487360376" ∷ "0.01563563253233392"
        ∷ "-0.009616892024299432" ∷ "0.006014543252956118" ∷ [])

  asymptotic : ℕ → ℕ
  asymptotic x =
      let n = λ (i : ℕ). fl.of_int i in
      let a = fl.log (fl.mul (n 1) x) in
      let b = fl.log (fl.mul (n 1) a) in
      let ba = fl.div b a in
      let b2 = fl.mul b b in
      let b3 = fl.mul b2 b in
      let b4 = fl.mul b2 b2 in
      let q0 = fl.sub b (n 2) in
      let q1 = fl.add (fl.sub (fl.mul (n 2) b2) (fl.mul (n 9) b)) (n 6) in
      let q2 =
        fl.sub (fl.add (fl.sub (fl.mul (n 3) b3) (fl.mul (n 22) b2)) (fl.mul (n 36) b)) (n 12) in
      let q3 =
        fl.add
          (fl.sub (fl.add (fl.sub (fl.mul (n 12) b4) (fl.mul (n 125) b3)) (fl.mul (n 350) b2))
            (fl.mul (n 300) b))
          (n 60) in
      let over = λ (i : ℕ). fl.div (n 1) (fl.mul (n i) a) in
      fl.add (fl.sub a b) (
        fl.mul ba (
          fl.add (n 1) (
            fl.mul (over 2) (
              fl.add q0
                (fl.mul (over 3) (fl.add q1 (fl.mul (over 2) (fl.add q2 (fl.mul (over 5) q3)))))))))

  -- `initial(0, x)`; the code calls LambertW with k = 0 only.
  initial : ℕ → ℕ
  unfolding branchpoint rationalp0 rationalp1 asymptotic
  initial x =
      if fl.lt x (fl.literal "-0.32358170806015724")
      then branchpoint x
      else if fl.lt x (fl.literal "0.14546954290661823")
      then rationalp0 x
      else if fl.lt x (fl.literal "8.706658967856612")
      then rationalp1 x
      else asymptotic x

  fritsch : ℕ → ℕ → ℕ
  fritsch w x =
      let n = λ (i : ℕ). fl.of_int i in
      let z = fl.sub (fl.log (fl.div x w)) w in
      let w1 = fl.add w (n 1) in
      let q = fl.mul (fl.mul (n 2) w1) (fl.add w1 (fl.div (fl.mul (n 2) z) (n 3))) in
      let eps = fl.mul (fl.div z w1) (fl.div (fl.sub q z) (fl.sub q (fl.mul (n 2) z))) in
      fl.mul w (fl.add (n 1) eps)

  pub lambert_w : ℕ → ℕ
  unfolding initial fritsch
  lambert_w x =
      let least = fl.div (fl.literal "-1") fl.e in
      if fl.lt x least || fl.is_nan x
      then fl.nan
      else if fl.eq x (fl.of_int 0)
      then fl.of_int 0
      else if fl.eq x least
      then fl.literal "-1"
      else if fl.is_inf x
      then x
      else fritsch (initial x) x

module _ {F : Type 0} (env : Env F) where
  -- The float of CalcKOpt before its bounds. The int `r` may be negative; as a difference of floats it
  -- is the same number.
  k_estimate : Table F → ℕ → ℕ
  unfolding lambert_w neg
  k_estimate t idx =
      let fl = env.floats in
      let r = fl.sub (fl.of_int 255) (fl.of_int idx) in
      let prob = fl.maximum (fl.mul t.prob_exchange t.arv_rate_store) (fl.literal "0.1") in
      let w2 = fl.log prob in
      let w1 = fl.mul (neg fl (fl.pow (fl.of_int 2) r)) (fl.pow fl.e (neg fl prob)) in
      let nomi = lambert_w fl (fl.mul w1 w2) in
      fl.maximum (fl.of_int 1) (fl.floor (fl.div (neg fl nomi) (fl.log prob)))

  unfoldable pub calc_k_opt : Table F → ℕ → ℕ
  unfolding k_estimate
  calc_k_opt t idx =
      let k_opt = env.floats.to_int (k_estimate t idx) in
      let k_opt' = if ltb k_opt 2 then 2 else k_opt in
      if ltb k_opt' t.bucket_size then t.bucket_size else k_opt'

  -- On ints the code's float minimum is the minimum.
  unfoldable pub calc_beta_opt : Table F → Bucket → ℕ
  calc_beta_opt t br = min br.k t.pool_size

  -- CalcAlphaOpt: `p_not` and `p_query` of the bucket, and alpha. `b_pre` is the bucket before it,
  -- or itself at index 0.
  calc_alpha_opt : Table F → ℕ → Bucket → Bucket → Bucket × ℕ
  unfolding lambert_w neg
  calc_alpha_opt t idx br b_pre =
      let fl = env.floats in
      let one = fl.of_int 1 in
      let pro = fl.mul b_pre.p_not (fl.sub one (fl.div one (fl.of_int b_pre.k))) in
      let k = fl.of_int br.k in
      let p_query = fl.div (fl.mul pro one) k in
      let p_not = fl.sub one p_query in
      let beta = fl.of_int br.beta in
      let pool = fl.of_int t.pool_size in
      let pool_beta = fl.mul pool beta in
      let ln = fl.log p_not in
      let denomi = fl.mul (fl.mul (fl.mul beta k) pool) ln in
      let exponent = fl.add pool_beta (fl.div pool_beta (fl.sub one (fl.pow p_not pool_beta))) in
      let w = lambert_w fl (
        fl.div (neg fl (fl.mul (fl.mul (fl.mul pool (fl.pow p_not exponent)) beta) ln))
          (fl.sub (fl.pow p_not (fl.of_int (t.pool_size * br.beta))) one)) in
      let w2 =
        fl.div (fl.mul (fl.mul beta pool) ln) (fl.sub one (fl.pow p_not (fl.mul beta pool))) in
      let alpha = fl.abs (fl.ceil (fl.div denomi (fl.sub w w2))) in
      let two = fl.of_int 2 in
      (
        record br { p_query = p_query; p_not = fl.mul pro (fl.sub one (fl.div one k)) },
        fl.to_int (fl.ceil (if fl.lt alpha two then two else alpha)),
      )

  -- The parameters of one bucket, set in turn. (`configPool` is the write of `pool_size`.)
  unfoldable pub set_opt_bucket : Table F → ℕ → Bucket → Bucket → Bucket
  unfolding calc_alpha_opt
  set_opt_bucket t idx init_b b_pre =
      let k_opt = calc_k_opt t idx in
      let b1 = record init_b { k = k_opt } in
      let b_opt = calc_beta_opt t b1 in
      let b_opt' = min k_opt (if ltb b_opt 1 then k_opt else b_opt) in
      let b2 = record b1 { beta = b_opt' } in
      let (b3, a_opt) = calc_alpha_opt t idx b2 (if idx == 0 then b2 else b_pre) in
      let a_opt' = if ltb t.pool_size a_opt then t.pool_size else a_opt in
      record b3 { alpha = max 2 a_opt' }

  unfoldable pub set_opt_values : ℕ → Table F → Option (Table F)
  set_opt_values idx t = do
    init_b ← get_elem? t.buckets idx
    b_pre ← get_elem? t.buckets (idx - 1)
    some (record t {
      buckets = update_at idx (λ b. set_opt_bucket t idx b b_pre) t.buckets;
      pool_size = t.bucket_size;
    })
