-- ===== src/Refresh/Sweep.antt =====
-- Which prefix lengths doRefresh refreshes, and that it returns.
use kadrtt_test_plan.Base.{
  ℕ, zero, suc, ◌+◌, ◌-◌, ◌*◌, ◌≢◌, ◌≤◌, ◌<◌, ◌≡◌, ◌⊎◌, inl, inr, refl, ap, ◌∙◌, Bool, true, false,
  Option, none, some, List, [], ◌∷◌, ◌++◌, ◌==◌, length, arith, Bool-cases, Option-cases,
}
use kadrtt_test_plan.Table.{Env, n_peers_for_cpl}
use kadrtt_test_plan.Table.Invariant.{IsPlaced}
use kadrtt_test_plan.Table.Tracked.{get_tracked_cpls_for_refresh}
use kadrtt_test_plan.Refresh.{
  Manager, done, RefreshError, context_done, State, run_refresh_dht_query, query_for_self,
  refresh_one, refresh_past_gap, last_cpl, refresh_from, do_refresh,
}
use kadrtt_test_plan.Refresh.Steps.{
  generated, signals, down_from, n_peers_for_cpl_total, QueryKeeps, refresh_one_total,
  one_more_below, refresh_past_gap_total,
}

module _ {F W : Type 0} (env : Env F) (r : Manager F W) where
  -- `n` prefix lengths from `c` on were refreshed one after the other, from one state to the other,
  -- and each refresh failed, or left the table with peers of that prefix length.
  abbrev pub Passed : Bool → List ℕ → ℕ → ℕ → State F W → State F W → Type 0
  Passed force cs zero c s s' = s' ≡ s
  Passed force cs (suc n) c s s' =
      (o : State F W × Option RefreshError) × (refresh_one env r force cs c s ≡ some o)
      × ((o.1 ≢ none) ⊎ ((k : ℕ) × (n_peers_for_cpl env c o.0.table ≡ some (suc k))))
      × Passed force cs n (c + 1) o.0 s'

  -- All the prefix lengths passed: a key was generated for each, and the end is signalled, or the
  -- context is done.
  abbrev WholeFrom :
      Bool → List ℕ → ℕ → ℕ → List ℕ → State F W → State F W × List RefreshError → Type 0
  WholeFrom force cs n c base s o =
      (s' : State F W) × Passed force cs n c s s'
      × (generated o.0.calls ≡ down_from (length cs) ++ base)
      × ((signals o.0.calls ≡ suc (signals s.calls)) ⊎ (o.1 ≡ context_done ∷ []))

  -- The refresh of the prefix length `g`, the first after those that passed, left no peers of it: keys
  -- were generated up to `m`, which is twice the next one or the last tracked, and no end is signalled.
  abbrev GapFrom :
      Bool → List ℕ → ℕ → ℕ → List ℕ → State F W → State F W × List RefreshError → Type 0
  GapFrom force cs n c base s o =
      (g : ℕ) × (i : ℕ) × (c + i ≡ g)
      × (i < n)
      × ((s' : State F W) × Passed force cs i c s s'
          × ((x : State F W × Option RefreshError) × (refresh_one env r force cs g s' ≡ some x)
              × (x.1 ≡ none)
              × (n_peers_for_cpl env g x.0.table ≡ some 0)))
      × ((m : ℕ) × (m ≤ 2 * (g + 1))
          × (m < length cs)
          × ((m ≡ 2 * (g + 1)) ⊎ (suc m ≡ length cs))
          × (generated o.0.calls ≡ down_from (suc m) ++ base))
      × (signals o.0.calls ≡ signals s.calls)

  -- Either end, for a forced refresh.
  abbrev Ends : Bool → List ℕ → ℕ → ℕ → List ℕ → State F W → State F W × List RefreshError → Type 0
  Ends force cs n c base s o =
      force ≡ true → WholeFrom force cs n c base s o ⊎ GapFrom force cs n c base s o

  -- One prefix length more, before the others.
  before-Ends :
      (force : Bool) (cs : List ℕ) (n c : ℕ) (base : List ℕ) (s : State F W)
      (x : State F W × Option RefreshError) (o : State F W × List RefreshError)
      → refresh_one env r force cs c s ≡ some x
      → (x.1 ≢ none) ⊎ ((k : ℕ) × (n_peers_for_cpl env c x.0.table ≡ some (suc k)))
      → signals x.0.calls ≡ signals s.calls
      → Ends force cs n (c + 1) base x.0 o
      → Ends force cs (suc n) c base s o
  before-Ends force cs n c base s x o q p e h f = elim (h f) [
    | inl (s', a, g, inl sig) ↦ inl (s', (x, q, p, a), g, inl (sig ∙ ap suc e))
    | inl (s', a, g, inr d) ↦ inl (s', (x, q, p, a), g, inr d)
    | inr (g, i, at, lt, (s', a, there), keys, sig) ↦
        inr (g, suc i, omega arith, omega arith, (s', (x, q, p, a), there), keys, sig ∙ e)
  ]

  last_cpl_bounds :
      (c n : ℕ)
      → c < n
      → (c ≤ last_cpl c n)
        × (last_cpl c n < n)
        × (last_cpl c n ≤ 2 * (c + 1))
        × ((last_cpl c n ≡ 2 * (c + 1)) ⊎ (suc (last_cpl c n) ≡ n))
  unfolding last_cpl
  last_cpl_bounds c n h = ground arith

  from_failed :
      (force : Bool) (cs : List ℕ) (n c : ℕ) (s : State F W) (merr : List RefreshError)
      (o : State F W × Option RefreshError) (x : RefreshError)
      → refresh_one env r force cs c s ≡ some o
      → o.1 ≡ some x
      → refresh_from env r force cs (suc n) c s merr
        ≡ refresh_from env r force cs n (c + 1) o.0 (merr ++ x ∷ [])
  unfolding refresh_from
  from_failed force cs n c s merr o x e f = rw (refresh_from, e) (rw f refl)

  from_next :
      (force : Bool) (cs : List ℕ) (n c : ℕ) (s : State F W) (merr : List RefreshError)
      (o : State F W × Option RefreshError) (peers : ℕ)
      → refresh_one env r force cs c s ≡ some o
      → o.1 ≡ none
      → n_peers_for_cpl env c o.0.table ≡ some peers
      → (peers == 0) ≡ false
      → refresh_from env r force cs (suc n) c s merr
        ≡ refresh_from env r force cs n (c + 1) o.0 merr
  unfolding refresh_from
  from_next force cs n c s merr o peers e f g h = rw (refresh_from, e) (rw f (rw g (rw h refl)))

  from_gap :
      (force : Bool) (cs : List ℕ) (n c : ℕ) (s : State F W) (merr : List RefreshError)
      (o : State F W × Option RefreshError) (peers : ℕ)
      → refresh_one env r force cs c s ≡ some o
      → o.1 ≡ none
      → n_peers_for_cpl env c o.0.table ≡ some peers
      → (peers == 0) ≡ true
      → refresh_from env r force cs (suc n) c s merr
        ≡ refresh_past_gap env r force cs (last_cpl c (length cs) + 1 - (c + 1)) (c + 1) o.0 merr
  unfolding refresh_from
  from_gap force cs n c s merr o peers e f g h = rw (refresh_from, e) (rw f (rw g (rw h refl)))

  positive :
      (peers : ℕ) {o : Option ℕ}
      → o ≡ some peers
      → (peers == 0) ≡ false
      → (k : ℕ) × (o ≡ some (suc k))
  positive zero e h = absurd (ground arith)
  positive (suc k) e h = (k, e)

  refresh_from_total :
      (force : Bool) (cs : List ℕ) (n c : ℕ) (base : List ℕ) (s : State F W)
      (merr : List RefreshError)
      → QueryKeeps env r
      → c + n ≡ length cs
      → IsPlaced env s.table
      → (force ≡ true → generated s.calls ≡ down_from c ++ base)
      → (o : State F W × List RefreshError) × (refresh_from env r force cs n c s merr ≡ some o)
        × IsPlaced env o.0.table
        × Ends force cs n c base s o
  unfolding refresh_from generated signals
  refresh_from_total force cs zero c base s merr k h v b =
      let w = (r.signal_done s.world).0 in
      elim (Bool-cases (r.signal_done s.world).1) [
        | inl e ↦ (
          (record { world = w; table = s.table; calls = done ∷ s.calls }, merr),
          rw e refl,
          v,
          λ f. inl (s, refl, b f ∙ ap (λ j. down_from j ++ base) (omega arith), inl refl),
        )
        | inr e ↦ (
          (record { world = w; table = s.table; calls = s.calls }, context_done ∷ []),
          rw e refl,
          v,
          λ f. inl (s, refl, b f ∙ ap (λ j. down_from j ++ base) (omega arith), inr refl),
        )
      ]
  refresh_from_total force cs (suc n) c base s merr k h v b =
      let (o, e, d) = refresh_one_total env r force cs c s k (omega arith) v in
      let below : force ≡ true → generated o.0.calls ≡ down_from (c + 1) ++ base = λ f.
        one_more_below env r force c base s o.0 d b f
        ∙ ap (λ j. down_from j ++ base) (omega arith) in
      let go_on = λ (merr' : List RefreshError).
        refresh_from_total force cs n (c + 1) base o.0 merr' k (omega arith) d.placed below in
      elim (Option-cases o.1) [
        | inr (x, failed) ↦
            let (o', e', v', f') = go_on (merr ++ x ∷ []) in
            (
              o',
              from_failed force cs n c s merr o x e failed ∙ e',
              v',
              before-Ends force cs n c base s o o' e (inl (λ q. cc)) d.signals_same f',
            )
        | inl ok ↦
            let (peers, g) = n_peers_for_cpl_total env c o.0.table d.placed.nonempty in
            elim (Bool-cases (peers == 0)) [
              | inr more ↦
                  let (o', e', v', f') = go_on merr in
                  (
                    o',
                    from_next force cs n c s merr o peers e ok g more ∙ e',
                    v',
                    before-Ends force cs n c base s o o' e (inr (positive peers g more))
                        d.signals_same f',
                  )
              | inl gap ↦
                  let (lo, hi, most, which) = last_cpl_bounds c (length cs) (omega arith) in
                  let (o', e', d') =
                    refresh_past_gap_total env r force cs (last_cpl c (length cs) + 1 - (c + 1))
                      (c + 1) base o.0 merr k (omega arith) d.placed below in
                  (
                    o',
                    from_gap force cs n c s merr o peers e ok g gap ∙ e',
                    d'.placed,
                    λ f. inr (
                      c,
                      0,
                      omega arith,
                      omega arith,
                      (s, refl, (o, e, ok, g ∙ ap some (ground arith))),
                      (
                        last_cpl c (length cs),
                        most,
                        hi,
                        which,
                        d'.all_below f ∙ ap (λ j. down_from j ++ base) (omega arith),
                      ),
                      d'.signals_same ∙ d.signals_same,
                    ),
                  )
            ]
      ]

  -- The prefix lengths that are tracked after the query for the node itself.
  abbrev pub tracked_after_self : State F W → List ℕ
  tracked_after_self s = get_tracked_cpls_for_refresh env (query_for_self env r s).0.table

  abbrev pub Whole : State F W → State F W × List RefreshError → Type 0
  Whole s o =
      let cs = tracked_after_self s in
      WholeFrom true cs (length cs) 0 (generated s.calls) (query_for_self env r s).0 o

  abbrev pub Gapped : State F W → State F W × List RefreshError → Type 0
  Gapped s o =
      let cs = tracked_after_self s in
      GapFrom true cs (length cs) 0 (generated s.calls) (query_for_self env r s).0 o

  do_refresh-Ends :
      (force : Bool) (s : State F W)
      → QueryKeeps env r
      → IsPlaced env s.table
      → (o : State F W × List RefreshError) × (do_refresh env r force s ≡ some o)
        × IsPlaced env o.0.table
        × (let cs = tracked_after_self s in
            Ends force cs (length cs) 0 (generated s.calls) (query_for_self env r s).0 o)
  unfolding do_refresh query_for_self run_refresh_dht_query generated signals down_from
  do_refresh-Ends force s k v =
      let (s', merr) = query_for_self env r s in
      let cs = get_tracked_cpls_for_refresh env s'.table in
      refresh_from_total force cs (length cs) 0 (generated s.calls) s' merr k (omega arith)
        (k r.dht_peer_id s.world s.table v) (λ f. refl)

  -- doRefresh returns on a placed table, and leaves it placed, where every query does.
  pub do_refresh_total :
      (force : Bool) (s : State F W)
      → QueryKeeps env r
      → IsPlaced env s.table
      → (o : State F W × List RefreshError) × (do_refresh env r force s ≡ some o)
        × IsPlaced env o.0.table
  do_refresh_total force s k v = let (o, e, v', _) = do_refresh-Ends force s k v in (o, e, v')

  -- A forced refresh of a placed table, where every query leaves it placed, goes through the tracked
  -- prefix lengths from 0 on, as long as the refresh of one fails or leaves peers of that length in
  -- the table. Where all of them do, a key was generated for each in turn, and doRefresh signals its
  -- end or returns the context's error. Else it met a gap, the first length `g` that was refreshed
  -- without an error and has no peers: keys were generated in turn up to length 2(g + 1), or the last
  -- one tracked where that is less, and it does not signal.
  pub do_refresh-generated :
      (s : State F W)
      → QueryKeeps env r
      → IsPlaced env s.table
      → (o : State F W × List RefreshError) × (do_refresh env r true s ≡ some o)
        × (Whole s o ⊎ Gapped s o)
  do_refresh-generated s k v = let (o, e, _, f) = do_refresh-Ends true s k v in (o, e, f refl)
