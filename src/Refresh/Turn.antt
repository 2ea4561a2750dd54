-- ===== src/Refresh/Turn.antt =====
-- One round of the refresh manager's loop: the eviction, the refresh and the answers.
use kadrtt_test_plan.Base.{
  ℕ, ◌-◌, ◌≡◌, inl, inr, refl, ap, ◌∙◌, Bool, true, false, ◌||◌, none, some, List, [], ◌∷◌, ◌++◌,
  map, ltb, Bool-cases, Option-cases,
}
use kadrtt_test_plan.Bucket.{PeerInfo}
use kadrtt_test_plan.Table.{Env, get_peer_infos}
use kadrtt_test_plan.Table.Invariant.{IsPlaced}
use kadrtt_test_plan.Table.Returning.{remove_peer_keeps}
use kadrtt_test_plan.Refresh.{
  Manager, RefreshError, State, do_refresh, evict, TriggerRefreshReq, add_request, add_requests,
  answer_all, turn,
}
use kadrtt_test_plan.Refresh.Steps.{QueryKeeps}
use kadrtt_test_plan.Refresh.Sweep.{do_refresh_total}

-- The channels on which the requests wait, and whether one of them forces the refresh.
unfoldable pub channels : List TriggerRefreshReq → List ℕ
channels [] = []
channels (q ∷ qs) = elim q.resp_ch [ some ch ↦ ch ∷ channels qs | none ↦ channels qs ]

unfoldable pub any_forced : List TriggerRefreshReq → Bool
any_forced [] = false
any_forced (q ∷ qs) = q.force_cpl_refresh || any_forced qs

append_assoc : (xs ys zs : List ℕ) → (xs ++ ys) ++ zs ≡ xs ++ (ys ++ zs)
append_assoc [] ys zs = refl
append_assoc (x ∷ xs) ys zs = ap (λ l. x ∷ l) (append_assoc xs ys zs)

append-nil : (xs : List ℕ) → xs ++ [] ≡ xs
append-nil [] = refl
append-nil (x ∷ xs) = ap (λ l. x ∷ l) (append-nil xs)

or_assoc : (a b c : Bool) → ((a || b) || c) ≡ (a || (b || c))
or_assoc true b c = refl
or_assoc false b c = refl

or_false : (a : Bool) → (a || false) ≡ a
or_false true = refl
or_false false = refl

add_requests-from :
    (qs : List TriggerRefreshReq) (chs : List ℕ) (forced : Bool)
    → add_requests (chs, forced) qs ≡ (chs ++ channels qs, forced || any_forced qs)
unfolding add_requests add_request channels any_forced
add_requests-from [] chs forced = rw (append-nil chs, or_false forced) refl
add_requests-from (q ∷ qs) chs forced = elim (Option-cases q.resp_ch) [
  | inl e ↦
      rw (add_request, e)
        (add_requests-from qs chs (forced || q.force_cpl_refresh)
          ∙ rw (or_assoc forced q.force_cpl_refresh (any_forced qs)) refl)
  | inr (ch, e) ↦
      rw (add_request, e)
        (add_requests-from qs (chs ++ ch ∷ []) (forced || q.force_cpl_refresh)
          ∙ rw
              (
                append_assoc chs (ch ∷ []) (channels qs),
                or_assoc forced q.force_cpl_refresh (any_forced qs),
              )
              refl)
]

answer_all-map :
    {E : Type 0} (chs : List ℕ) (err : E) → answer_all chs err ≡ map (λ ch. (ch, err)) chs
unfolding answer_all
answer_all-map [] err = refl
answer_all-map (ch ∷ chs) err = ap (λ l. (ch, err) ∷ l) (answer_all-map chs err)

module _ {F W : Type 0} (env : Env F) (r : Manager F W) where
  evict_total :
      (ps : List PeerInfo) (s : State F W)
      → IsPlaced env s.table
      → (s' : State F W) × (evict env r ps s ≡ some s') × IsPlaced env s'.table
  unfolding evict
  evict_total [] s v = (s, refl, v)
  evict_total (p ∷ ps) s v =
      let late = r.now s.world - p.last_successful_outbound_query_at in
      let w = (r.connect p.id s.world).0 in
      elim (Bool-cases (ltb r.successful_outbound_query_grace_period late)) [
        | inr e ↦ let (s', g, v') = evict_total ps s v in (s', rw (evict, e) g, v')
        | inl e ↦ elim (Bool-cases (r.connect p.id s.world).1) [
          | inl f ↦
              let (s', g, v') = evict_total ps (record s { world = w }) v in
              (s', rw (evict, e) (rw f g), v')
          | inr f ↦
              let (o, removed, placed) = remove_peer_keeps env p.id s.table v in
              let (s', g, v') = evict_total ps (record s { world = w; table = o.0 }) placed in
              (s', rw (evict, e) (rw f (rw removed g)), v')
        ]
      ]

  -- One round of the loop returns on a placed table, and leaves it placed, where every query does;
  -- the refresh is forced if one of the requests asks for that, and each request that waits gets the
  -- errors of this one refresh, in the order of the requests.
  pub turn_total :
      (requests : List TriggerRefreshReq) (s : State F W)
      → QueryKeeps env r
      → IsPlaced env s.table
      → (s1 : State F W) × (s2 : State F W) × (merr : List RefreshError) × (evict env r
            (get_peer_infos s.table)
            s
          ≡ some s1)
        × (do_refresh env r (any_forced requests) s1 ≡ some (s2, merr))
        × (turn env r requests s ≡ some (s2, map (λ ch. (ch, merr)) (channels requests)))
        × IsPlaced env s2.table
  unfolding turn
  turn_total requests s k v =
      let (s1, e1, v1) = evict_total (get_peer_infos s.table) s v in
      let ((s2, merr), e2, v2) = do_refresh_total env r (any_forced requests) s1 k v1 in
      (
        s1,
        s2,
        merr,
        e1,
        e2,
        rw (add_requests-from requests [] false)
            (rw e1 (rw e2 (ap (λ l. some (s2, l)) (answer_all-map (channels requests) merr)))),
        v2,
      )
