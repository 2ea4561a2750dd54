-- ===== src/Table/Tracked/Times.antt =====
-- What the table tells of the refreshes recorded.
use kadrtt_test_plan.Base.{
  ℕ, zero, suc, ◌+◌, ◌≤◌, ◌<◌, ◌≡◌, refl, some, ltb, ◌==◌, if◌then◌else◌, length, get_elem?, Map,
  lookup-put, arith, ap, ◌∙◌, inl, inr, Bool-cases,
}
use kadrtt_test_plan.Keyspace.{Bytes, common_prefix_len}
use kadrtt_test_plan.Table.{Env, Table, table_max_common_prefix}
use kadrtt_test_plan.Table.Tracked.{
  refreshed_at, times_from, last_tracked, get_tracked_cpls_for_refresh,
  reset_cpl_refreshed_at_for_id,
}

pub length-times_from : (n i : ℕ) (m : Map ℕ) → length (times_from n i m) ≡ n
unfolding times_from
length-times_from zero i m = refl
length-times_from (suc n) i m = omega (arith, length-times_from n (i + 1) m)

times_from-get :
    (n i j : ℕ) (m : Map ℕ) → j < n → get_elem? (times_from n i m) j ≡ some (refreshed_at (i + j) m)
unfolding times_from
times_from-get zero i j m h = absurd (omega arith)
times_from-get (suc n) i zero m h = ap (λ k. some (refreshed_at k m)) (omega arith)
times_from-get (suc n) i (suc j) m h =
    times_from-get n (i + 1) j m (omega arith) ∙ ap (λ k. some (refreshed_at k m)) (omega arith)

module _ {F : Type 0} (env : Env F) where
  last_tracked-le : (t : Table F) → last_tracked env t ≤ 15
  unfolding last_tracked
  last_tracked-le t = ground arith

  last_tracked-reset :
      (id : Bytes) (time : ℕ) (t : Table F)
      → last_tracked env (reset_cpl_refreshed_at_for_id env id time t) ≡ last_tracked env t
  unfolding last_tracked reset_cpl_refreshed_at_for_id table_max_common_prefix
  last_tracked-reset id time t =
      elim (Bool-cases (ltb 15 (common_prefix_len env.hashing id t.local))) [
        | inl e ↦ rw e refl
        | inr e ↦ rw e refl
      ]

  refreshed_at-reset :
      (id : Bytes) (time : ℕ) (t : Table F) (cpl : ℕ)
      → cpl ≤ 15
      → refreshed_at cpl (reset_cpl_refreshed_at_for_id env id time t).cpl_refreshed_at ≡ (
          if common_prefix_len env.hashing id t.local == cpl
          then time
          else refreshed_at cpl t.cpl_refreshed_at)
  unfolding reset_cpl_refreshed_at_for_id refreshed_at
  refreshed_at-reset id time t cpl h =
      ground
        (arith, lookup-put cpl (common_prefix_len env.hashing id t.local) time t.cpl_refreshed_at)

  tracked-get :
      (t : Table F) (cpl : ℕ)
      → cpl ≤ last_tracked env t
      → get_elem? (get_tracked_cpls_for_refresh env t) cpl
        ≡ some (refreshed_at cpl t.cpl_refreshed_at)
  unfolding get_tracked_cpls_for_refresh
  tracked-get t cpl h =
      times_from-get (last_tracked env t + 1) 0 cpl t.cpl_refreshed_at (omega arith)
      ∙ ap (λ k. some (refreshed_at k t.cpl_refreshed_at)) (omega arith)

  pub length-tracked :
      (t : Table F) → length (get_tracked_cpls_for_refresh env t) ≡ last_tracked env t + 1
  unfolding get_tracked_cpls_for_refresh
  length-tracked t = length-times_from (last_tracked env t + 1) 0 t.cpl_refreshed_at

  -- GetTrackedCplsForRefresh has one time for each prefix length of the table, at least one and 16 at
  -- most; after ResetCplRefreshedAtForID the prefix length of the ID has the new time, if it is
  -- tracked, and every other has the time that it had.
  pub reset-tracked :
      (id : Bytes) (time : ℕ) (t : Table F) (cpl : ℕ)
      → cpl ≤ last_tracked env t
      → (1 ≤ length (get_tracked_cpls_for_refresh env t))
        × (length (get_tracked_cpls_for_refresh env t) ≤ 16)
        × (get_elem?
              (get_tracked_cpls_for_refresh env (reset_cpl_refreshed_at_for_id env id time t))
              cpl
            ≡ (if common_prefix_len env.hashing id t.local == cpl
                then some time
                else get_elem? (get_tracked_cpls_for_refresh env t) cpl))
  reset-tracked id time t cpl h =
      let t' = reset_cpl_refreshed_at_for_id env id time t in
      let here : cpl ≤ last_tracked env t' = rw (last_tracked-reset id time t) h in
      (
        omega (arith, length-tracked t),
        omega (arith, length-tracked t, last_tracked-le t),
        tracked-get t' cpl here
            ∙ ground (
              arith,
              tracked-get t cpl h,
              refreshed_at-reset id time t cpl (omega (arith, h, last_tracked-le t)),
            ),
      )
