-- ===== src/AllPages.antt =====
-- All pages of a list: src/lib/all.ts.
-- A loader is a parameter: it answers a request, or rejects with `none`. The path and the options
-- that are handed on to it are a part of it, and the parameters that the code does not read are
-- `rest`, of type `R`; `D` is the type of the elements.
mod Whole
mod Followed
mod Tests
use Prim.Native.Char.{code}
use Prim.Native.String
use metaphysics.Common.{
  ℕ, zero, suc, ◌+◌, ◌-◌, ◌*◌, String, Bool, true, false, Option, none, some, List, [], ◌∷◌, ◌++◌,
  if◌then◌else◌, ◌==◌, leb, ◌&&◌, non_empty, or_else, ◌>>=◌, trim_start,
}
use mathlib.Core.Option
use metaphysics.Errors.{number_at}
use metaphysics.Pagination.{ceil_div}

-- The given params: `size` may be missing.
pub record Params (R : Type 0) : Type 0 where
  pub size : Option ℕ
  pub rest : R

pub record Request (R : Type 0) : Type 0 where
  pub page : ℕ
  pub size : ℕ
  pub counts : Bool
  pub rest : R

-- A response: the header x-total-count, and the elements of the body.
pub record Response (D : Type 0) : Type 0 where
  pub total_count : Option String
  pub body : List D

-- The number after a sign: below zero is as good as no number.
abbrev pub signed_number : String → Option ℕ
signed_number String.[] = none
signed_number (String.◌∷◌ c s) =
    if code c == b'-'
    then none
    else if code c == b'+'
    then number_at none s
    else number_at none (String.◌∷◌ c s)

-- `parseInt(header || "0", 10)`; a number below zero or NaN is `none`, and either means no pages.
unfoldable pub parse_count : Option String → Option ℕ
unfolding trim_start
parse_count none = some 0
parse_count (some header) = if non_empty header then signed_number (trim_start header) else some 0

-- `times(Math.ceil(count / size))`: at size 0 the quotient is Infinity or NaN, where `times` makes
-- no calls.
unfoldable pub page_count : Option ℕ → ℕ → ℕ
unfolding ceil_div
page_count none size = 0
page_count (some count) zero = 0
page_count (some count) (suc s) = ceil_div count (suc s)

abbrev pub size_of : {R : Type 0} → Params R → ℕ
size_of params = or_else params.size 25

abbrev pub count_request : {R : Type 0} → Params R → Request R
count_request params = record { page = 1; size = 0; counts = true; rest = params.rest }

abbrev pub page_request : {R : Type 0} → Params R → ℕ → Request R
page_request params i = record {
  page = i + 1;
  size = size_of params;
  counts = false;
  rest = params.rest;
}

-- The bodies of `n` pages from the page of index `i`, one after the other; one rejected request
-- rejects all.
abbrev pub bodies_from :
    {R D : Type 0} → (Request R → Option (Response D)) → Params R → ℕ → ℕ → Option (List D)
bodies_from loader params i zero = some []
bodies_from loader params i (suc n) = do
  response ← loader (page_request params i)
  rest ← bodies_from loader params (i + 1) n
  some (response.body ++ rest)

unfoldable pub all_via_loader :
    {R D : Type 0} → (Request R → Option (Response D)) → Params R → Option (List D)
unfolding page_count parse_count
all_via_loader loader params = do
  response ← loader (count_request params)
  bodies_from loader params 0 (page_count (parse_count response.total_count) (size_of params))
