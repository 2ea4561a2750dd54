-- ===== src/Dual.antt =====
-- The dual DHT: dht/go-libp2p-kad-dht/dual/dual.go. The two DHTs are what they answer; `count` is not
-- negative, and a provider is its peer.
pub mod Merging
use kadrtt_test_plan.Base.{
  ℕ, zero, suc, ◌-◌, ◌≡◌, Bool, true, false, ◌&&◌, ◌||◌, Option, none, some, List, [], ◌∷◌, ◌++◌,
  ltb, ◌==◌, if◌then◌else◌,
}
use kadrtt_test_plan.Keyspace.{PeerId}

-- An error by its identity, and `none` for nil.
abbrev pub DualError : Type 0
DualError = Option ℕ

unfoldable pub is_same_error : DualError → DualError → Bool
is_same_error none none = true
is_same_error (some m) (some n) = m == n
is_same_error _ _ = false

-- `lookup_failure` is kb.ErrLookupFailure, and `append` multierror.Append.
unfoldable pub combine_errors :
    ℕ → (DualError → DualError → DualError) → DualError → DualError → DualError
combine_errors lookup_failure append erra errb =
    if is_same_error erra errb
    then erra
    else if is_same_error erra (some lookup_failure)
    then errb
    else if is_same_error errb (some lookup_failure)
    then erra
    else append erra errb

-- Provide and PutValue go to one of the two.
unfoldable pub active_of : {A : Type 0} → ℕ → A → A → A
active_of wan_size wan lan = if ltb 0 wan_size then wan else lan

-- A value, or an error.
pub data Got : Type 0 where
  value : ℕ → Got
  failed : DualError → Got

unfoldable pub get_value : ℕ → (DualError → DualError → DualError) → Got → Got → Got
get_value lookup_failure append (value v) lan = value v
get_value lookup_failure append (failed e) (value w) = value w
get_value lookup_failure append (failed e) (failed f) =
    failed (combine_errors lookup_failure append e f)

-- The addresses of both, each once; Go ranges over them in some order.
unfoldable pub is_among : ℕ → List ℕ → Bool
is_among a [] = false
is_among a (b ∷ bs) = let rest = is_among a bs in if b == a then true else rest

unfoldable pub add_all : List ℕ → List ℕ → List ℕ
add_all seen [] = seen
add_all seen (a ∷ addrs) = add_all (if is_among a seen then seen else seen ++ a ∷ []) addrs

unfoldable pub combine_addrs : List ℕ → List ℕ → List ℕ
combine_addrs [] lan = lan
combine_addrs (a ∷ wan) [] = a ∷ wan
combine_addrs (a ∷ wan) (b ∷ lan) = add_all (add_all [] (a ∷ wan)) (b ∷ lan)

-- No error where one of the two succeeded.
unfoldable pub find_peer :
    ℕ
    → (DualError → DualError → DualError)
    → List ℕ
    → DualError
    → List ℕ
    → DualError
    → List ℕ × DualError
find_peer lookup_failure append wan_addrs wan_err lan_addrs lan_err = (
  combine_addrs wan_addrs lan_addrs,
  if is_same_error wan_err none || is_same_error lan_err none
      then none
      else combine_errors lookup_failure append wan_err lan_err,
)

-- What the loop of FindProvidersAsync reads next: a provider or the close of a channel, or the end
-- of the context while it writes. An event of a query changes nothing that is sent.
pub data Arrival : Type 0 where
  from_wan from_lan : Option PeerId → Arrival
  context_over : Arrival

pub record Merge : Type 0 where
  pub found : List PeerId
  pub count : ℕ
  pub zero_count : Bool
  pub wan_open : Bool
  pub lan_open : Bool
  pub over : Bool
  pub sent : List PeerId

unfoldable pub start_merge : ℕ → Merge
start_merge count = record {
  found = [];
  count = count;
  zero_count = count == 0;
  wan_open = true;
  lan_open = true;
  over = false;
  sent = [];
}

-- The loop's condition.
unfoldable pub goes_on : Merge → Bool
goes_on m = if m.over then false else (m.zero_count || ltb 0 m.count) && (m.wan_open || m.lan_open)

unfoldable pub offer : PeerId → Merge → Merge
offer p m =
    if is_among p m.found
    then m
    else record m { found = m.found ++ p ∷ []; count = m.count - 1; sent = m.sent ++ p ∷ [] }

-- A closed channel is nil, from which nothing is read.
unfoldable pub arrive : Arrival → Merge → Merge
arrive (from_wan none) m = record m { wan_open = false }
arrive (from_wan (some p)) m = if m.wan_open then offer p m else m
arrive (from_lan none) m = record m { lan_open = false }
arrive (from_lan (some p)) m = if m.lan_open then offer p m else m
arrive context_over m = record m { over = true }

unfoldable pub merge : List Arrival → Merge → Merge
merge [] m = m
merge (a ∷ rest) m = if goes_on m then merge rest (arrive a m) else m
