-- ===== src/Timeout/Once.antt =====
-- A read of the cache and a loader with a timeout settle their promise once.
use metaphysics.Common.{
  is_some, ◌≤◌, ◌≡◌, ◌⊎◌, Bool, true, false, none, some, List, [], ◌∷◌, arith, length,
}
use metaphysics.Timeout.{Settle, resolve, reject}
use metaphysics.Timeout.Cache
use metaphysics.Timeout.Cache.{
  Get, on_timeout, on_reply, on_inflated, Reply, failed, absent, compressed, plain, ReadError,
}
use metaphysics.Timeout.Loader
use metaphysics.Timeout.Loader.{Race}

-- The number of ways that are left in which the promise can be settled, with the calls made, is
-- one; and what belongs to it.
pub record OneSettles {A : Type 0} (s : Get A) : Type 0 where
  pub open_way :
      ((s.calls ≡ [])
        × (s.armed ≡ true)
        × (s.timeout_id ≡ true)
        × (s.inflating ≡ false)
        × (s.asking ≡ true))
      ⊎ ((s.calls ≡ []) × (s.armed ≡ false) × (s.inflating ≡ true) × (s.asking ≡ false))
      ⊎ ((length s.calls ≡ 1)
          × (s.armed ≡ false)
          × (s.inflating ≡ false)
          × ((s.asking ≡ false) ⊎ (s.timeout_id ≡ false)))

start-OneSettles : {A : Type 0} → OneSettles (Cache.start {A = A})
start-OneSettles = ground arith

Step-OneSettles : {A : Type 0} {s t : Get A} → Cache.Step s t → OneSettles s → OneSettles t
unfolding on_timeout on_reply on_inflated
Step-OneSettles (Cache.fire s h) i = ground arith
Step-OneSettles (Cache.reply s failed h) i = ground arith
Step-OneSettles (Cache.reply s absent h) i = ground arith
Step-OneSettles (Cache.reply s compressed h) i = ground arith
Step-OneSettles (Cache.reply s (plain a) h) i = ground arith
Step-OneSettles (Cache.inflated s none h) i = ground arith
Step-OneSettles (Cache.inflated s (some a) h) i = ground arith

pub Reach-OneSettles : {A : Type 0} {s : Get A} → Cache.Reach s → OneSettles s
Reach-OneSettles Cache.here = start-OneSettles
Reach-OneSettles (Cache.next r st) = Step-OneSettles st (Reach-OneSettles r)

-- Whatever the order of events, a read of the cache calls resolve or reject at most once, and
-- while it has called neither, the timer or the decompression is still to come.
pub get_settles_once :
    {A : Type 0} {s : Get A}
    → Cache.Reach s
    → (length s.calls ≤ 1) × ((s.calls ≡ []) → (s.armed ≡ true) ⊎ (s.inflating ≡ true))
get_settles_once r = let i = Reach-OneSettles r in ground arith

-- The last call resolves.
abbrev pub resolves : {A E : Type 0} → List (Settle A E) → Bool
resolves [] = false
resolves (resolve a ∷ calls) = true
resolves (reject e ∷ calls) = false

-- The state of `withTimeout`: open, or settled with a value exactly if it resolved.
pub record OneWins {A E : Type 0} (s : Race A E) : Type 0 where
  pub status :
      ((s.calls ≡ []) × (s.value ≡ none) × (s.armed ≡ true) × (s.timeout_id ≡ true))
      ⊎ ((length s.calls ≡ 1)
          × (is_some s.value ≡ resolves s.calls)
          × (s.armed ≡ false)
          × ((s.loading ≡ false) ⊎ (s.timeout_id ≡ false)))

Step-OneWins : {A E : Type 0} {s t : Race A E} → Loader.Step s t → OneWins s → OneWins t
unfolding Loader.on_timeout Loader.on_complete Loader.on_error
Step-OneWins (Loader.fire s h) i = ground arith
Step-OneWins (Loader.complete s a h) i = ground arith
Step-OneWins (Loader.fail s e h) i = ground arith

pub Reach-OneWins : {A E : Type 0} {s : Race A E} → Loader.Reach s → OneWins s
Reach-OneWins Loader.here = ground arith
Reach-OneWins (Loader.next r st) = Step-OneWins st (Reach-OneWins r)

-- Whatever the order of events, `withTimeout` calls resolve or reject at most once; it has a value
-- exactly if it resolved, so an answer that comes after the timeout is dropped; and while it has
-- called neither, the timer is still to come.
pub with_timeout_settles_once :
    {A E : Type 0} {s : Race A E}
    → Loader.Reach s
    → (length s.calls ≤ 1)
      × (is_some s.value ≡ resolves s.calls)
      × ((s.calls ≡ []) → s.armed ≡ true)
with_timeout_settles_once r = let i = Reach-OneWins r in ground arith
