-- ===== src/Table/Marks.antt =====
-- Writes of the fields of peers: MarkAllPeersIrreplaceable of table.go keeps the table placed.
use kadrtt_test_plan.Base.{
  ℕ, suc, ◌≤◌, ◌≡◌, refl, ap, inl, inr, false, List, [], ◌∷◌, map, ◌==◌, All, Bool-cases,
  length-map,
}
use kadrtt_test_plan.Keyspace.{PeerId}
use kadrtt_test_plan.Bucket.{PeerInfo, Bucket, update_peer_in, update_all_with}
use kadrtt_test_plan.Table.{Env, Table, mark_all_peers_irreplaceable}
use kadrtt_test_plan.Table.Placement.{Placed, refs}
use kadrtt_test_plan.Table.Invariant.{prefix_of, IsPlaced}

pub update_peer_in-All :
    (P : PeerInfo → Type 0) (p : PeerId) (f : PeerInfo → PeerInfo) (xs : List PeerInfo)
    → ((x : PeerInfo) → P x → P (f x))
    → All P xs
    → All P (update_peer_in p f xs)
unfolding update_peer_in
update_peer_in-All P p f [] k a = tt
update_peer_in-All P p f (x ∷ xs) k a = elim (Bool-cases (x.id == p)) [
  | inl e ↦ rw e (k x a.0, a.1)
  | inr e ↦ rw e (a.0, update_peer_in-All P p f xs k a.1)
]

-- Every entry is rewritten, and keeps its prefix.
map-All :
    (P : PeerInfo → Type 0) (f : PeerInfo → PeerInfo) (xs : List PeerInfo)
    → ((x : PeerInfo) → P x → P (f x))
    → All P xs
    → All P (map f xs)
map-All P f [] k a = tt
map-All P f (x ∷ xs) k a = (k x a.0, map-All P f xs k a.1)

map-Placed :
    (c : PeerInfo → ℕ) (f : PeerInfo → PeerInfo) (i : ℕ) (bs : List Bucket)
    → ((P : ℕ → Type 0) (x : PeerInfo) → P (c x) → P (c (f x)))
    → Placed c i bs
    → Placed c i (map (update_all_with f) bs)
unfolding update_all_with
map-Placed c f i [] k p = tt
map-Placed c f i (b ∷ []) k p = map-All (λ x. i ≤ c x) f b.list (k (λ n. i ≤ n)) p
map-Placed c f i (b ∷ b' ∷ bs) k p =
    (map-All (λ x. c x ≡ i) f b.list (k (λ n. n ≡ i)) p.0, map-Placed c f (suc i) (b' ∷ bs) k p.1)

map-refs :
    (f : PeerInfo → PeerInfo) (bs : List Bucket) → refs (map (update_all_with f) bs) ≡ refs bs
unfolding update_all_with
map-refs f [] = refl
map-refs f (b ∷ bs) = ap (◌∷◌ b.ref) (map-refs f bs)

module _ {F : Type 0} (env : Env F) where
  pub mark_all_peers_irreplaceable-IsPlaced :
      (t : Table F) → IsPlaced env t → IsPlaced env (mark_all_peers_irreplaceable t)
  unfolding mark_all_peers_irreplaceable
  mark_all_peers_irreplaceable-IsPlaced t v =
      let f = λ (p : PeerInfo). record p { replaceable = false } in
      record {
        nonempty = rw (length-map (update_all_with f) t.buckets) v.nonempty;
        placed = map-Placed (prefix_of env t) f 0 t.buckets (λ P x h. h) v.placed;
        apart = rw (map-refs f t.buckets) v.apart;
        fresh = rw (map-refs f t.buckets) v.fresh;
      }
