-- ===== src/Timeout.antt =====
-- Work raced against a timer: `_get` of src/lib/cache.ts, `withTimeout` of
-- src/lib/loaders/helpers.ts, and src/lib/rateLimiter.ts. Each handler is a function on the state
-- of one call, and the order in which the runtime runs the handlers is a step relation: a timer
-- fires at most once and never after it was cleared, and a client answers at most once.
pub mod Cache
pub mod Loader
pub mod RateLimiter
pub mod Once
pub mod Ends
pub mod Limits
mod Tests
use metaphysics.Common.{List, [], ◌∷◌, Option, none, some, Bool, true, false}

-- What a handler calls on its promise.
pub data Settle (A E : Type 0) : Type 0 where
  resolve : A → Settle A E
  reject : E → Settle A E

-- A promise keeps the first of the calls; later ones have no effect.
pub data Promise (A E : Type 0) : Type 0 where
  pending : Promise A E
  resolved : A → Promise A E
  rejected : E → Promise A E

abbrev pub settle : {A E : Type 0} → Promise A E → Settle A E → Promise A E
settle pending (resolve a) = resolved a
settle pending (reject e) = rejected e
settle (resolved a) call = resolved a
settle (rejected e) call = rejected e
