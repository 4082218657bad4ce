-- ===== src/Timeout/Tests.antt =====
-- Races on concrete schedules.
use metaphysics.Common.{ℕ, ◌+◌, ◌≤◌, ◌≡◌, refl, ◌⊎◌, true, false, [], length, is_some}
use metaphysics.Timeout.Cache
use metaphysics.Timeout.Cache.{Get}
use metaphysics.Timeout.Loader
use metaphysics.Timeout.Loader.{Race}
use metaphysics.Timeout.RateLimiter
use metaphysics.Timeout.RateLimiter.{Middleware}
use metaphysics.Timeout.Once.{get_settles_once, resolves, with_timeout_settles_once}
use metaphysics.Timeout.Ends.{Steps, started, then_next, get_ends}
use metaphysics.Timeout.Limits.{timed_out, rate_limiter_once, late_hit_answers_twice}

-- The timer fires, then the client answers with data.
abbrev late_read : Get ℕ
late_read = Cache.on_reply (Cache.plain 7) (Cache.on_timeout Cache.start)

late_read_reached : Cache.Reach late_read
unfolding Cache.on_timeout
late_read_reached =
    Cache.next (Cache.next Cache.here (Cache.fire Cache.start refl))
      (Cache.reply (Cache.on_timeout Cache.start) (Cache.plain 7) refl)

get_settles_once_example :
    (length late_read.calls ≤ 1)
    × (late_read.calls ≡ [] → (late_read.armed ≡ true) ⊎ (late_read.inflating ≡ true))
get_settles_once_example = get_settles_once late_read_reached

abbrev late_load : Race ℕ ℕ
late_load = Loader.on_complete 7 (Loader.on_timeout Loader.start)

late_load_reached : Loader.Reach late_load
unfolding Loader.on_timeout
late_load_reached =
    Loader.next (Loader.next Loader.here (Loader.fire Loader.start refl))
      (Loader.complete (Loader.on_timeout Loader.start) 7 refl)

with_timeout_settles_once_example :
    (length late_load.calls ≤ 1)
    × (is_some late_load.value ≡ resolves late_load.calls)
    × (late_load.calls ≡ [] → late_load.armed ≡ true)
with_timeout_settles_once_example = with_timeout_settles_once late_load_reached

late_read-Steps : Steps 2 late_read
unfolding Cache.on_timeout
late_read-Steps =
    then_next (then_next started (Cache.fire Cache.start refl))
      (Cache.reply (Cache.on_timeout Cache.start) (Cache.plain 7) refl)

get_ends_example : (2 ≤ 2) × ((length late_read.calls ≡ 1) ⊎ ((t : Get ℕ) × Cache.Step late_read t))
get_ends_example = get_ends late_read-Steps

abbrev timed : Middleware
timed = RateLimiter.on_timeout RateLimiter.start

timed_reached : RateLimiter.Reach timed
timed_reached = RateLimiter.next RateLimiter.here (RateLimiter.fire RateLimiter.start refl)

rate_limiter_once_example :
    (timed.nexts ≤ 1)
    × (timed.sent ≤ 1)
    × (timed.sent + timed.nexts ≡ 2 → timed_out timed.promise ≡ true)
    × (timed.nexts + timed.sent ≡ 0 → timed.armed ≡ true)
rate_limiter_once_example = rate_limiter_once timed_reached

disarmed : timed.armed ≡ false
unfolding RateLimiter.on_timeout
disarmed = refl

still_limiting : timed.limiting ≡ true
unfolding RateLimiter.on_timeout
still_limiting = refl

late_hit_answers_twice_example :
    ((RateLimiter.rate_limit_hit timed).nexts ≡ 1) × ((RateLimiter.rate_limit_hit timed).sent ≡ 1)
late_hit_answers_twice_example = late_hit_answers_twice timed_reached disarmed still_limiting
