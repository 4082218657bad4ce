-- ===== src/Timeout/Ends.antt =====
-- A read of the cache and a loader with a timeout end: after a few events they have settled their
-- promise.
use metaphysics.Common.{
  ℕ, zero, suc, ◌+◌, ◌≤◌, ◌≡◌, ◌⊎◌, ◌||◌, inl, inr, Bool, none, some, arith, length, if◌then◌else◌,
}
use metaphysics.Timeout.Cache
use metaphysics.Timeout.Cache.{
  Get, on_timeout, on_reply, on_inflated, Reply, failed, absent, compressed, plain, ReadError,
}
use metaphysics.Timeout.Once.{OneSettles, Reach-OneSettles}

-- A run of `n` events from the start.
pub data Steps {A : Type 0} : ℕ → Get A → Type 0 where
  started : Steps zero Cache.start
  then_next : {n : ℕ} {s t : Get A} → Steps n s → Cache.Step s t → Steps (suc n) t

Steps-Reach : {A : Type 0} {n : ℕ} {s : Get A} → Steps n s → Cache.Reach s
Steps-Reach started = Cache.here
Steps-Reach (then_next r st) = Cache.next (Steps-Reach r) st

abbrev bit : Bool → ℕ
bit b = if b then 1 else 0

-- How many events a state still allows at most: the client's answer, and a timer or an inflation.
abbrev allowed_events : {A : Type 0} → Get A → ℕ
allowed_events s = bit s.asking + bit (s.armed || s.inflating)

Step-fewer :
    {A : Type 0} {s t : Get A}
    → Cache.Step s t
    → OneSettles s
    → suc (allowed_events t) ≤ allowed_events s
unfolding on_timeout on_reply on_inflated
Step-fewer (Cache.fire s h) i = ground arith
Step-fewer (Cache.reply s failed h) i = ground arith
Step-fewer (Cache.reply s absent h) i = ground arith
Step-fewer (Cache.reply s compressed h) i = ground arith
Step-fewer (Cache.reply s (plain a) h) i = ground arith
Step-fewer (Cache.inflated s none h) i = ground arith
Step-fewer (Cache.inflated s (some a) h) i = ground arith

Steps-bound : {A : Type 0} {n : ℕ} {s : Get A} → Steps n s → n + allowed_events s ≤ 2
Steps-bound started = omega arith
Steps-bound (then_next r st) =
    let fewer = Step-fewer st (Reach-OneSettles (Steps-Reach r)) in
    let bound = Steps-bound r in omega arith

settled_or_next :
    {A : Type 0} {s : Get A} → OneSettles s → (length s.calls ≡ 1) ⊎ ((t : Get A) × Cache.Step s t)
settled_or_next {s = s} i = elim i.open_way [
  | inl (calls, armed, id, inflating, asking) ↦ inr (on_timeout s, Cache.fire s armed)
  | inr more ↦ elim more [
    | inl (calls, armed, inflating, asking) ↦
        inr (on_inflated none s, Cache.inflated s none inflating)
    | inr (settled, armed, inflating, asking) ↦ inl settled
  ]
]

-- Whatever the order of events, at most two of them happen to a read of the cache, and as long as
-- it has not called resolve or reject once, another is to come.
pub get_ends :
    {A : Type 0} {n : ℕ} {s : Get A}
    → Steps n s
    → (n ≤ 2) × ((length s.calls ≡ 1) ⊎ ((t : Get A) × Cache.Step s t))
get_ends r =
    (let bound = Steps-bound r in omega arith, settled_or_next (Reach-OneSettles (Steps-Reach r)))
