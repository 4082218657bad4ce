-- ===== src/Timeout/RateLimiter.antt =====
-- src/lib/rateLimiter.ts, where the limiter is on. The limiter's package calls either the handler
-- of a hit or `next` once for each request.
use metaphysics.Common.{ℕ, ◌+◌, ◌≡◌, Bool, true, false}
use metaphysics.Timeout.{Promise, pending, resolved, rejected, settle, Settle, resolve, reject}

-- `sent` counts the responses of status 429, and `nexts` the calls of `next()`.
pub record Middleware : Type 0 where
  pub armed : Bool
  pub limiting : Bool
  pub promise : Promise (Unit {0}) (Unit {0})
  pub sent : ℕ
  pub nexts : ℕ

abbrev pub start : Middleware
start = record { armed = true; limiting = true; promise = pending; sent = 0; nexts = 0 }

-- Settling the promise ends the `await`, and `finally` calls `next()`; a promise that is settled
-- already ended it before.
unfoldable pub settle_and_next : Settle (Unit {0}) (Unit {0}) → Middleware → Middleware
settle_and_next call s = elim s.promise [
  | pending ↦ record s { promise = settle pending call; nexts = s.nexts + 1 }
  | resolved a ↦ s
  | rejected e ↦ s
]

unfoldable pub on_timeout : Middleware → Middleware
unfolding settle_and_next
on_timeout s = settle_and_next (reject tt) (record s { armed = false })

-- `resetTimer`
abbrev pub reset_timer : Middleware → Middleware
reset_timer s = record s { armed = false }

unfoldable pub rate_limit_hit : Middleware → Middleware
rate_limit_hit s = record (reset_timer s) { limiting = false; sent = s.sent + 1 }

unfoldable pub request_allowed : Middleware → Middleware
unfolding settle_and_next
request_allowed s = settle_and_next (resolve tt) (record (reset_timer s) { limiting = false })

pub data Step : Middleware → Middleware → Type 0 where
  fire : (s : Middleware) → s.armed ≡ true → Step s (on_timeout s)
  hit : (s : Middleware) → s.limiting ≡ true → Step s (rate_limit_hit s)
  allowed : (s : Middleware) → s.limiting ≡ true → Step s (request_allowed s)

pub data Reach : Middleware → Type 0 where
  here : Reach start
  next : {s t : Middleware} → Reach s → Step s t → Reach t
