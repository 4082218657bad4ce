-- ===== src/Timeout/Loader.antt =====
-- `withTimeout` of src/lib/loaders/helpers.ts.
use metaphysics.Common.{◌≡◌, Bool, true, false, Option, none, some, List, [], ◌∷◌, if◌then◌else◌}
use metaphysics.Timeout.{Settle, resolve, reject}

-- `none` as a reason is the error of the timeout.
pub record Race (A E : Type 0) : Type 0 where
  pub timeout_id : Bool
  pub armed : Bool
  pub loading : Bool
  pub value : Option A
  pub calls : List (Settle (Unit {0}) (Option E))

abbrev pub start : {A E : Type 0} → Race A E
start = record { timeout_id = true; armed = true; loading = true; value = none; calls = [] }

unfoldable pub on_timeout : {A E : Type 0} → Race A E → Race A E
on_timeout s = record s { timeout_id = false; armed = false; calls = reject none ∷ s.calls }

unfoldable pub on_complete : {A E : Type 0} → A → Race A E → Race A E
on_complete a s =
    let done = record s { loading = false } in
    if s.timeout_id
    then record done { armed = false; value = some a; calls = resolve tt ∷ s.calls }
    else done

unfoldable pub on_error : {A E : Type 0} → E → Race A E → Race A E
on_error e s =
    let done = record s { loading = false } in
    if s.timeout_id then record done { armed = false; calls = reject (some e) ∷ s.calls } else done

pub data Step {A E : Type 0} : Race A E → Race A E → Type 0 where
  fire : (s : Race A E) → s.armed ≡ true → Step s (on_timeout s)
  complete : (s : Race A E) (a : A) → s.loading ≡ true → Step s (on_complete a s)
  fail : (s : Race A E) (e : E) → s.loading ≡ true → Step s (on_error e s)

pub data Reach {A E : Type 0} : Race A E → Type 0 where
  here : Reach start
  next : {s t : Race A E} → Reach s → Step s t → Reach t
