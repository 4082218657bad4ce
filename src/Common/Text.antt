-- ===== src/Common/Text.antt =====
-- Text: the operations of JavaScript strings that the program uses. A text is walked by code point.
use Prim.Native.Char.{code}
use Prim.Native.String
use Prim.Native.String.{String}
use Prim.Native.Nat.{ℕ, zero, suc, ◌/◌, ◌%◌}
use mathlib.Core.Bool.{Bool, true, false, not, ◌&&◌, ◌||◌}
use mathlib.Core.Option.{Option, none, some}
use mathlib.Core.List.{List, [], ◌∷◌, ◌++◌}
use metaphysics.Common.Tests.{if◌then◌else◌, ◌==◌, ltb, leb, or_else}
use metaphysics.Common.Lists.{get_elem?}
pub use text.Mathlib.Text.{◌==◌ as str_eq}
use text.Mathlib.TextLemmas.{cons-append}
use mathlib.Core.Path.{◌≡◌, refl}
use text.Mathlib.Text.{starts_with as text_starts_with, find?}
pub use text.Mathlib.TextEquality.{eq_iff}

-- Concatenation, as in a template literal.
infixr 60 ◌<>◌
abbrev pub ◌<>◌ : String → String → String
s <> t = String.◌++◌ s t

-- A string is truthy unless it is empty.
abbrev pub non_empty : String → Bool
non_empty String.[] = false
non_empty (String.◌∷◌ c s) = true

-- `none` is null or undefined.
abbrev pub is_truthy : Option String → Bool
is_truthy none = false
is_truthy (some s) = non_empty s

-- `a || b`, where both may be missing
abbrev pub or_text : Option String → Option String → Option String
or_text none b = b
or_text (some s) b = if non_empty s then some s else b

-- A value in a template literal.
abbrev pub shown : Option String → String
shown none = "undefined"
shown (some s) = s

-- `xs.join(by)`
abbrev pub join : String → List String → String
join by [] = ""
join by (x ∷ []) = x
join by (x ∷ y ∷ xs) = x <> (by <> join by (y ∷ xs))

-- `xs.includes(x)`
abbrev pub includes : List String → String → Bool
includes [] x = false
includes (y ∷ ys) x = str_eq y x || includes ys x

-- lodash's `uniq`
abbrev pub uniq_onto : List String → List String → List String
uniq_onto seen [] = seen
uniq_onto seen (x ∷ xs) = uniq_onto (if includes seen x then seen else seen ++ (x ∷ [])) xs

abbrev pub uniq : List String → List String
uniq xs = uniq_onto [] xs

-- No text is listed twice.
abbrev pub Distinct : List String → Type 0
Distinct [] = Unit
Distinct (x ∷ xs) = (includes xs x ≡ false) × Distinct xs

-- lodash's `uniqBy`, after the keys that are seen: the first element of each key stays.
abbrev pub uniq_by : {A : Type 0} → (A → String) → List String → List A → List A
uniq_by key seen [] = []
uniq_by key seen (x ∷ xs) =
    let fresh = x ∷ uniq_by key (key x ∷ seen) xs in
    let others = uniq_by key seen xs in if includes seen (key x) then others else fresh

-- `s.split(c)` for one character c
split_from : ℕ → String → String → List String
split_from sep cur String.[] = cur ∷ []
split_from sep cur (String.◌∷◌ c s) =
    let closed = cur ∷ split_from sep "" s in
    let longer = split_from sep (cur <> String.◌∷◌ c String.[]) s in
    if code c == sep then closed else longer

unfoldable pub split : ℕ → String → List String
unfolding split_from
split sep s = split_from sep "" s

-- The white space that `trim` removes.
is_space : ℕ → Bool
is_space c =
    c == 32
    || ((leb 9 c && leb c 13)
        || (c == 160
            || (c == 5760
                || ((leb 8192 c && leb c 8202)
                    || (c == 8232
                        || (c == 8233
                            || (c == 8239 || (c == 8287 || (c == 12288 || c == 65279)))))))))

unfoldable pub trim_start : String → String
unfolding is_space
trim_start String.[] = ""
trim_start (String.◌∷◌ c s) =
    let rest = trim_start s in if is_space (code c) then rest else String.◌∷◌ c s

trim_end : String → String
unfolding is_space
trim_end String.[] = ""
trim_end (String.◌∷◌ c s) =
    let rest = trim_end s in
    if is_space (code c) && not (non_empty rest) then "" else String.◌∷◌ c rest

-- `s.trim()`
unfoldable pub trim : String → String
unfolding trim_start trim_end
trim s = trim_end (trim_start s)

digit : ℕ → String
digit n = or_else (get_elem? ("0" ∷ "1" ∷ "2" ∷ "3" ∷ "4" ∷ "5" ∷ "6" ∷ "7" ∷ "8" ∷ "9" ∷ []) n) ""

-- The digits of `n` before `tail`; `n` is less than ten to the fuel.
digits_before : ℕ → ℕ → String → String
unfolding digit
digits_before zero n tail = tail
digits_before (suc fuel) n tail =
    let longer = digits_before fuel (n / 10) (digit (n % 10) <> tail) in
    if ltb n 10 then digit n <> tail else longer

-- A natural number in a template literal.
unfoldable pub decimal : ℕ → String
unfolding digits_before
decimal n = digits_before (suc n) n ""

-- `s.includes(t)`
abbrev pub has_text : String → String → Bool
has_text s t = elim (find? s t) [ none ↦ false | some i ↦ true ]

-- `s.startsWith(t)`
abbrev pub starts_with : String → String → Bool
starts_with s t = text_starts_with s t

pub non_empty-append : (s t : String) → non_empty s ≡ true → non_empty (s <> t) ≡ true
non_empty-append String.[] t h = cc
non_empty-append (String.◌∷◌ c s) t h = rw cons-append refl
