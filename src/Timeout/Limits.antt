-- ===== src/Timeout/Limits.antt =====
-- What the rate limiter does with a request, in every order of events.
use metaphysics.Common.{◌+◌, ◌≤◌, ◌≡◌, Bool, true, false, arith}
use metaphysics.Timeout.{Promise, pending, resolved, rejected}
use metaphysics.Timeout.RateLimiter.{
  Middleware, start, on_timeout, rate_limit_hit, request_allowed, Step, fire, hit, allowed, Reach,
  here, next,
}

abbrev is_pending : Promise (Unit {0}) (Unit {0}) → Bool
is_pending pending = true
is_pending _ = false

-- The promise was rejected, which only the timer does.
abbrev pub timed_out : Promise (Unit {0}) (Unit {0}) → Bool
timed_out pending = false
timed_out (resolved a) = false
timed_out (rejected e) = true

record Inv (s : Middleware) : Type 0 where
  nexts_pending : is_pending s.promise ≡ true → s.nexts ≡ 0
  nexts_settled : is_pending s.promise ≡ false → s.nexts ≡ 1
  armed_pending :
      s.armed ≡ true → (is_pending s.promise ≡ true) × (s.sent ≡ 0) × (s.limiting ≡ true)
  limiting_unsent : s.limiting ≡ true → s.sent ≡ 0
  sent_once : s.sent ≤ 1
  both_late : s.sent + s.nexts ≡ 2 → timed_out s.promise ≡ true
  late_settled : s.armed ≡ false → s.limiting ≡ true → timed_out s.promise ≡ true
  handled : s.nexts + s.sent ≡ 0 → s.armed ≡ true

start-Inv : Inv start
start-Inv = ground arith

Step-Inv : {s t : Middleware} → Step s t → Inv s → Inv t
unfolding on_timeout rate_limit_hit request_allowed
Step-Inv (fire s h) i = ground arith
Step-Inv (hit s h) i = ground arith
Step-Inv (allowed s h) i = ground arith

Reach-Inv : {s : Middleware} → Reach s → Inv s
Reach-Inv here = start-Inv
Reach-Inv (next r st) = Step-Inv st (Reach-Inv r)

-- Whatever the order of events, `next()` is called at most once and at most one response of status
-- 429 is sent; both happen only if the timer fired first; and while neither happened, the timer is
-- still to come.
pub rate_limiter_once :
    {s : Middleware}
    → Reach s
    → (s.nexts ≤ 1)
      × (s.sent ≤ 1)
      × (s.sent + s.nexts ≡ 2 → timed_out s.promise ≡ true)
      × (s.nexts + s.sent ≡ 0 → s.armed ≡ true)
rate_limiter_once r = let i = Reach-Inv r in ground arith

-- A request that was let through by the timeout, and that the limiter then hits, is both passed on
-- and answered with status 429.
pub late_hit_answers_twice :
    {s : Middleware}
    → Reach s
    → s.armed ≡ false
    → s.limiting ≡ true
    → ((rate_limit_hit s).nexts ≡ 1) × ((rate_limit_hit s).sent ≡ 1)
unfolding rate_limit_hit
late_hit_answers_twice r h k = let i = Reach-Inv r in ground arith
