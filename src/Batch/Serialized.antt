-- ===== src/Batch/Serialized.antt =====
-- Serialized parameters tell which parameters they are made of: they can be read back, up to order.
use Prim.Native.Char.{Char, code}
use package.text.Mathlib.TextLemmas.{nil-append, cons-append}
use mathlib.Core.Bool.{false≢true}
use mathlib.Core.List.{Perm}
use mathlib.Core.List.Perm
use metaphysics.Common.{
  ℕ, String, Bool, true, false, not, ◌&&◌, List, [], ◌∷◌, map, ◌==◌, ◌≡◌, refl, ap, ◌∙◌, arith,
  if◌then◌else◌, ◌<>◌, join, keep, non_empty, All, Bool-cases, inl, inr,
}
use metaphysics.Batch.{goes_before, insert_text, sort_texts, serialize_params}

abbrev pub has_no : ℕ → String → Bool
has_no sep String.[] = true
has_no sep (String.◌∷◌ c s) = not (code c == sep) && has_no sep s

-- Names without `=` and `&`, and values without `&`.
abbrev pub PlainParams : List (String × String) → Type 0
PlainParams params =
    All
      (λ (entry : String × String).
        (has_no b'=' entry.0 ≡ true) × (has_no b'&' entry.0 ≡ true) × (has_no b'&' entry.1 ≡ true))
      params

abbrev entry_text : String × String → String
entry_text entry = entry.0 <> ("=" <> entry.1)

abbrev prepend : Char → List String → List String
prepend c [] = String.◌∷◌ c String.[] ∷ []
prepend c (p ∷ ps) = String.◌∷◌ c p ∷ ps

-- What stands between the ampersands, and around the first equals sign.
abbrev pieces : String → List String
pieces String.[] = "" ∷ []
pieces (String.◌∷◌ c s) =
    let rest = pieces s in if code c == b'&' then "" ∷ rest else prepend c rest

abbrev entry_read : String → String × String
entry_read String.[] = ("", "")
entry_read (String.◌∷◌ c s) =
    let rest = entry_read s in if code c == b'=' then ("", s) else (String.◌∷◌ c rest.0, rest.1)

unfoldable pub read_params : String → List (String × String)
read_params s = map entry_read (keep non_empty (pieces s))

sign_append : (c : Char) (s : String) → String.◌∷◌ c String.[] <> s ≡ String.◌∷◌ c s
sign_append c s = cons-append c String.[] s ∙ ap (String.◌∷◌ c) (nil-append s)

has_no-append :
    (sep : ℕ) (s t : String)
    → has_no sep s ≡ true
    → has_no sep t ≡ true
    → has_no sep (s <> t) ≡ true
has_no-append sep String.[] t h k = ap (has_no sep) (nil-append t) ∙ k
has_no-append sep (String.◌∷◌ c s) t h k =
    ap (has_no sep) (cons-append c s t) ∙ ground (arith, has_no-append sep s t)

pieces-whole : (s : String) → has_no b'&' s ≡ true → pieces s ≡ s ∷ []
pieces-whole String.[] h = refl
pieces-whole (String.◌∷◌ c s) h = elim (Bool-cases (code c == b'&')) [
  | inl e ↦ absurd (false≢true (rw e at h))
  | inr e ↦ rw (e, pieces-whole s (rw e at h)) refl
]

no_sign :
    (sep : ℕ) (c : Char) (s : String)
    → has_no sep (String.◌∷◌ c s) ≡ true
    → ((code c == sep) ≡ false) × (has_no sep s ≡ true)
no_sign sep c s h = elim (Bool-cases (code c == sep)) [
  | inl e ↦ absurd (false≢true (rw e at h))
  | inr e ↦ (e, rw e at h)
]

pieces-cons :
    (c : Char) (s t : String) (ps : List String)
    → (code c == b'&') ≡ false
    → pieces s ≡ t ∷ ps
    → pieces (String.◌∷◌ c s) ≡ String.◌∷◌ c t ∷ ps
pieces-cons c s t ps e h = rw (e, h) refl

entry_read-cons :
    (c : Char) (s name value : String)
    → (code c == b'=') ≡ false
    → entry_read s ≡ (name, value)
    → entry_read (String.◌∷◌ c s) ≡ (String.◌∷◌ c name, value)
entry_read-cons c s name value e h = rw (e, h) refl

pieces-append : (s t : String) → has_no b'&' s ≡ true → pieces (s <> ("&" <> t)) ≡ s ∷ pieces t
pieces-append String.[] t h = ap pieces (nil-append ("&" <> t) ∙ sign_append "&" t)
pieces-append (String.◌∷◌ c s) t h =
    let plain = no_sign b'&' c s h in
    ap pieces (cons-append c s ("&" <> t))
    ∙ pieces-cons c (s <> ("&" <> t)) s (pieces t) plain.0 (pieces-append s t plain.1)

entry_read-text :
    (name value : String)
    → has_no b'=' name ≡ true
    → entry_read (name <> ("=" <> value)) ≡ (name, value)
entry_read-text String.[] value h =
    ap entry_read (nil-append ("=" <> value) ∙ sign_append "=" value)
entry_read-text (String.◌∷◌ c name) value h =
    let plain = no_sign b'=' c name h in
    ap entry_read (cons-append c name ("=" <> value))
    ∙ entry_read-cons c (name <> ("=" <> value)) name value plain.0
        (entry_read-text name value plain.1)

-- The text of a plain entry.
abbrev IsEntryText : String → Type 0
IsEntryText t = (has_no b'&' t ≡ true) × (non_empty t ≡ true)

pieces-join :
    (t : String) (ts : List String) → All IsEntryText (t ∷ ts) → pieces (join "&" (t ∷ ts)) ≡ t ∷ ts
pieces-join t [] (h, _) = pieces-whole t h.0
pieces-join t (u ∷ ts) (h, hs) =
    pieces-append t (join "&" (u ∷ ts)) h.0 ∙ ap (λ (l : List String). t ∷ l) (pieces-join u ts hs)

keep-entries : (ts : List String) → All IsEntryText ts → keep non_empty ts ≡ ts
keep-entries [] h = refl
keep-entries (t ∷ ts) (h, hs) = rw (h.1) (ap (λ (l : List String). t ∷ l) (keep-entries ts hs))

kept_pieces : (ts : List String) → All IsEntryText ts → keep non_empty (pieces (join "&" ts)) ≡ ts
kept_pieces [] h = refl
kept_pieces (t ∷ ts) h = ap (keep non_empty) (pieces-join t ts h) ∙ keep-entries (t ∷ ts) h

insert-All :
    (t : String) (ts : List String)
    → IsEntryText t
    → All IsEntryText ts
    → All IsEntryText (insert_text t ts)
insert-All t [] h hs = (h, tt)
insert-All t (u ∷ ts) h (k, hs) = elim (Bool-cases (goes_before t u)) [
  | inl e ↦ rw e (h, (k, hs))
  | inr e ↦ rw e (k, insert-All t ts h hs)
]

insert-perm : (t : String) (ts : List String) → Perm (insert_text t ts) (t ∷ ts)
insert-perm t [] = Perm.refl _
insert-perm t (u ∷ ts) = elim (Bool-cases (goes_before t u)) [
  | inl e ↦ rw e (Perm.refl _)
  | inr e ↦ rw e (Perm.trans (Perm.cons u (insert-perm t ts)) (Perm.swap t u ts))
]

non_empty-sign : (s t : String) → non_empty (s <> ("=" <> t)) ≡ true
non_empty-sign String.[] t = ap non_empty (nil-append ("=" <> t) ∙ sign_append "=" t)
non_empty-sign (String.◌∷◌ c s) t = ap non_empty (cons-append c s ("=" <> t))

entry_text-IsEntryText :
    (entry : String × String)
    → (has_no b'=' entry.0 ≡ true) × (has_no b'&' entry.0 ≡ true) × (has_no b'&' entry.1 ≡ true)
    → IsEntryText (entry_text entry)
entry_text-IsEntryText entry (e, n, v) = (
  has_no-append b'&' entry.0 ("=" <> entry.1) n (has_no-append b'&' "=" entry.1 refl v),
  non_empty-sign entry.0 entry.1,
)

texts-All :
    (params : List (String × String))
    → PlainParams params
    → All IsEntryText (sort_texts (map entry_text params))
texts-All [] h = tt
texts-All (entry ∷ params) (h, hs) =
    insert-All (entry_text entry) (sort_texts (map entry_text params))
      (entry_text-IsEntryText entry h) (texts-All params hs)

sort-perm : (ts : List String) → Perm (sort_texts ts) ts
sort-perm [] = Perm.refl _
sort-perm (t ∷ ts) = Perm.trans (insert-perm t (sort_texts ts)) (Perm.cons t (sort-perm ts))

entries_of-texts :
    (params : List (String × String))
    → PlainParams params
    → map entry_read (map entry_text params) ≡ params
entries_of-texts [] h = refl
entries_of-texts ((name, value) ∷ params) (h, hs) =
    rw (entry_read-text name value h.0, entries_of-texts params hs) refl

-- Of plain parameters, what is read is the parameters, in some order.
pub read_params-serialize :
    (params : List (String × String))
    → PlainParams params
    → Perm (read_params (serialize_params params)) params
unfolding read_params serialize_params
read_params-serialize params h =
    rw (kept_pieces (sort_texts (map entry_text params)) (texts-All params h)) (
      Perm.trans (Perm.map entry_read (sort-perm (map entry_text params)))
        (rw (entries_of-texts params h) (Perm.refl params)))
