-- ===== src/Filters/Routers.antt =====
-- The age of the router that getCachedRouter gives.
use kadrtt_test_plan.Base.{ℕ, ◌+◌, ◌≤◌, ◌≡◌, ◌⊎◌, Option, none}
use kadrtt_test_plan.Filters.{RouterCache, router_cache_time}

-- The cache has no router, and is past, or one that netroute.New gave at a time no later than the
-- one given, until the cache time after it.
pub record IsRecent {R : Type 0} (make : ℕ → Option R) (now : ℕ) (c : RouterCache R) : Type 0 where
  pub age :
      ((c.router ≡ none) × (c.expires ≡ 0))
      ⊎ ((t : ℕ) × (c.router ≡ make t) × (c.expires ≡ t + router_cache_time) × (t ≤ now))
