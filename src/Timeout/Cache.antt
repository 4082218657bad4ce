-- ===== src/Timeout/Cache.antt =====
-- `_get` of src/lib/cache.ts. The memcached client, zlib and JSON are parameters of the steps: what
-- they answer is the argument of a handler. Data that the client or zlib returns is JSON, which is
-- what `_set` stores, so `JSON.parse` does not throw.
use metaphysics.Common.{
  ℕ, ◌+◌, ◌≡◌, Bool, true, false, Option, none, some, List, [], ◌∷◌, if◌then◌else◌,
}
use metaphysics.Timeout.{Settle, resolve, reject}

-- Why a read is rejected; a miss has no reason.
pub data ReadError : Type 0 where
  timeout miss : ReadError
  client_error inflate_error : ReadError

-- `timeout_id` is the variable, and `armed` whether the runtime still has the timer. `calls` are
-- the calls of resolve and reject, the last one first.
pub record Get (A : Type 0) : Type 0 where
  pub timeout_id : Bool
  pub armed : Bool
  pub asking : Bool
  pub inflating : Bool
  pub timeouts : ℕ
  pub calls : List (Settle A ReadError)

-- After the timer is set and the client is asked.
abbrev pub start : {A : Type 0} → Get A
start = record {
  timeout_id = true;
  armed = true;
  asking = true;
  inflating = false;
  timeouts = 0;
  calls = [];
}

-- The handler of the timer.
unfoldable pub on_timeout : {A : Type 0} → Get A → Get A
on_timeout s = record s {
  timeout_id = false;
  armed = false;
  timeouts = s.timeouts + 1;
  calls = reject ReadError.timeout ∷ s.calls;
}

-- What the client answers: an error, no data, or data; without compression the data is parsed
-- at once.
pub data Reply (A : Type 0) : Type 0 where
  failed absent compressed : Reply A
  plain : A → Reply A

unfoldable pub on_data : {A : Type 0} → Reply A → Get A → Get A
on_data failed s = record s { calls = reject ReadError.client_error ∷ s.calls }
on_data absent s = record s { calls = reject ReadError.miss ∷ s.calls }
on_data compressed s = record s { inflating = true }
on_data (plain a) s = record s { calls = resolve a ∷ s.calls }

-- The callback of `client.get`: nothing once the timer has fired.
unfoldable pub on_reply : {A : Type 0} → Reply A → Get A → Get A
unfolding on_data
on_reply reply s =
    let answered = record s { asking = false } in
    if s.timeout_id then on_data reply (record answered { armed = false }) else answered

-- The callback of `zlib.inflate`: `none` is an error.
unfoldable pub on_inflated : {A : Type 0} → Option A → Get A → Get A
on_inflated none s = record s {
  inflating = false;
  calls = reject ReadError.inflate_error ∷ s.calls;
}
on_inflated (some a) s = record s { inflating = false; calls = resolve a ∷ s.calls }

pub data Step {A : Type 0} : Get A → Get A → Type 0 where
  fire : (s : Get A) → s.armed ≡ true → Step s (on_timeout s)
  reply : (s : Get A) (r : Reply A) → s.asking ≡ true → Step s (on_reply r s)
  inflated : (s : Get A) (r : Option A) → s.inflating ≡ true → Step s (on_inflated r s)

pub data Reach {A : Type 0} : Get A → Type 0 where
  here : Reach start
  next : {s t : Get A} → Reach s → Step s t → Reach t
