-- ===== src/Refresh/Steps.antt =====
-- The refresh of one prefix length, and of those past a gap.
use kadrtt_test_plan.Base.{
  ℕ, zero, suc, ◌+◌, ◌-◌, ◌≤◌, ◌<◌, ◌≡◌, inl, inr, refl, ap, ◌∙◌, Bool, true, false, Option, none,
  some, List, [], ◌∷◌, ◌++◌, leb, length, get_elem?_total, arith, Bool-cases, Option-cases,
}
use kadrtt_test_plan.Table.{Env, Table, n_peers_for_cpl}
use kadrtt_test_plan.Table.Invariant.{IsPlaced}
use kadrtt_test_plan.Refresh.{
  Manager, Call, generate, query, done, RefreshError, State, run_refresh_dht_query, refresh_cpl,
  refresh_cpl_if_eligible, refresh_one, append_error, refresh_past_gap,
}

-- The prefix lengths for which a key was generated, the last first.
unfoldable pub generated : List Call → List ℕ
generated [] = []
generated (generate cpl ∷ cs) = cpl ∷ generated cs
generated (query key ∷ cs) = generated cs
generated (done ∷ cs) = generated cs

-- How often the end of a refresh was signalled.
unfoldable pub signals : List Call → ℕ
signals [] = 0
signals (generate cpl ∷ cs) = signals cs
signals (query key ∷ cs) = signals cs
signals (done ∷ cs) = suc (signals cs)

-- The numbers below `n`, the last first.
unfoldable pub down_from : ℕ → List ℕ
down_from zero = []
down_from (suc n) = n ∷ down_from n

pub n_peers_for_cpl_total :
    {F : Type 0} (env : Env F) (c : ℕ) (t : Table F)
    → 0 < length t.buckets
    → (n : ℕ) × (n_peers_for_cpl env c t ≡ some n)
unfolding n_peers_for_cpl
n_peers_for_cpl_total env c t h = elim (Option-cases (n_peers_for_cpl env c t)) [
  | inr found ↦ found
  | inl e ↦ elim (Bool-cases (leb (length t.buckets - 1) c)) [
    | inl f ↦
        let (b, g) = get_elem?_total (length t.buckets - 1) t.buckets (omega arith) in
        absurd (ground arith)
    | inr f ↦ let (b, g) = get_elem?_total c t.buckets (ground arith) in absurd (ground arith)
  ]
]

module _ {F W : Type 0} (env : Env F) (r : Manager F W) where
  -- A query leaves the table placed, as adding and removing peers does.
  abbrev pub QueryKeeps : Type 0
  QueryKeeps =
      (key : ℕ) (w : W) (t : Table F)
      → IsPlaced env t
      → IsPlaced env (r.refresh_query key w t).table

  -- What the refresh of one prefix length leaves.
  pub record OneDone (force : Bool) (c : ℕ) (s s' : State F W) : Type 0 where
    pub placed : IsPlaced env s'.table
    pub signals_same : signals s'.calls ≡ signals s.calls
    pub one_more : force ≡ true → generated s'.calls ≡ c ∷ generated s.calls

  refresh_cpl-OneDone :
      (force : Bool) (c : ℕ) (s : State F W)
      → QueryKeeps
      → IsPlaced env s.table
      → OneDone force c s (refresh_cpl env r c s).0
  unfolding refresh_cpl run_refresh_dht_query generated signals
  refresh_cpl-OneDone force c s k v = elim (Option-cases (r.refresh_key_gen c s.world).1) [
    | inl e ↦ rw (refresh_cpl, e) (record { placed = v; signals_same = refl; one_more = λ _. refl })
    | inr (key, e) ↦
        rw (refresh_cpl, e)
          (record { placed = k key _ _ v; signals_same = refl; one_more = λ _. refl })
  ]

  pub refresh_one_total :
      (force : Bool) (cs : List ℕ) (c : ℕ) (s : State F W)
      → QueryKeeps
      → c < length cs
      → IsPlaced env s.table
      → (o : State F W × Option RefreshError) × (refresh_one env r force cs c s ≡ some o)
        × OneDone force c s o.0
  unfolding refresh_one refresh_cpl_if_eligible
  refresh_one_total true cs c s k h v =
      (refresh_cpl env r c s, refl, refresh_cpl-OneDone true c s k v)
  refresh_one_total false cs c s k h v =
      let (last, g) = get_elem?_total c cs h in
      elim (Bool-cases (leb (r.now s.world - last) r.refresh_interval)) [
        | inl e ↦ (
          (s, none),
          rw (g, e) refl,
          record { placed = v; signals_same = refl; one_more = λ f. absurd (ground arith) },
        )
        | inr e ↦ (refresh_cpl env r c s, rw (g, e) refl, refresh_cpl-OneDone false c s k v)
      ]

  -- What a run over several prefix lengths leaves: those generated are now all below `m`.
  pub record Ran (force : Bool) (m : ℕ) (base : List ℕ) (s s' : State F W) : Type 0 where
    pub placed : IsPlaced env s'.table
    pub signals_same : signals s'.calls ≡ signals s.calls
    pub all_below : force ≡ true → generated s'.calls ≡ down_from m ++ base

  pub one_more_below :
      (force : Bool) (c : ℕ) (base : List ℕ) (s s' : State F W)
      → OneDone force c s s'
      → (force ≡ true → generated s.calls ≡ down_from c ++ base)
      → (force ≡ true → generated s'.calls ≡ down_from (suc c) ++ base)
  unfolding down_from
  one_more_below force c base s s' d b f = d.one_more f ∙ ap (λ l. c ∷ l) (b f)

  pub refresh_past_gap_total :
      (force : Bool) (cs : List ℕ) (n i : ℕ) (base : List ℕ) (s : State F W)
      (merr : List RefreshError)
      → QueryKeeps
      → i + n ≤ length cs
      → IsPlaced env s.table
      → (force ≡ true → generated s.calls ≡ down_from i ++ base)
      → (o : State F W × List RefreshError) × (refresh_past_gap env r force cs n i s merr ≡ some o)
        × Ran force (i + n) base s o.0
  unfolding refresh_past_gap
  refresh_past_gap_total force cs zero i base s merr k h v b = (
    (s, merr),
    refl,
    record {
      placed = v;
      signals_same = refl;
      all_below = λ f. b f ∙ ap (λ j. down_from j ++ base) (omega arith);
    },
  )
  refresh_past_gap_total force cs (suc n) i base s merr k h v b =
      let (o, e, d) = refresh_one_total force cs i s k (omega arith) v in
      let (o', e', d') =
        refresh_past_gap_total force cs n (i + 1) base o.0 (append_error merr o.1) k (omega arith)
          d.placed
          (λ f.
            one_more_below force i base s o.0 d b f
            ∙ ap (λ j. down_from j ++ base) (omega arith)) in
      (
        o',
        rw e e',
        record {
          placed = d'.placed;
          signals_same = d'.signals_same ∙ d.signals_same;
          all_below = λ f. d'.all_below f ∙ ap (λ j. down_from j ++ base) (omega arith);
        },
      )
