-- ===== src/Bridge/Limiter.antt =====
-- main.go: `connectionLimiter`, a channel of empty structs used as a semaphore.
use argonaut.Prelude.{ℕ, suc, zero, Bool, true, false, Option, none, some, ltb, if◌then◌else◌}

-- Of the channel, its length and its capacity.
pub record ConnectionLimiter : Type 0 where
  pub held : ℕ
  pub capacity : ℕ

abbrev pub new_connection_limiter : ℕ → ConnectionLimiter
new_connection_limiter max = record { held = 0; capacity = max }

-- The send of the `select` is taken where the channel has room, else `default` is.
unfoldable pub try_acquire : ConnectionLimiter → ConnectionLimiter × Bool
try_acquire l = if ltb l.held l.capacity then (record l { held = suc l.held }, true) else (l, false)

-- The receive; none where it blocks.
unfoldable pub release : ConnectionLimiter → Option ConnectionLimiter
release l = elim l.held [ zero ↦ none | suc n ↦ some (record l { held = n }) ]
