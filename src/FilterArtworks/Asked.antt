-- ===== src/FilterArtworks/Asked.antt =====
-- The aggregations that are asked for: the total is always among them.
use metaphysics.Common.{
  ℕ, String, Bool, true, ◌||◌, ◌&&◌, Option, List, [], ◌∷◌, ◌++◌, ◌≡◌, refl, ap, inl, inr,
  Bool-cases, str_eq, includes, keep, eq_iff,
}
use metaphysics.Common.Json.{Fields, lookup}
use metaphysics.Pagination.Args.{ConnectionOptions}
use metaphysics.FilterArtworks.Query.{
  texts_of, with_total, gravity_fields, with_unpublished, requested_authorized_filters,
  filter_query,
}
use metaphysics.FilterArtworks.Public.{or-true, is_not_followed}

includes-last : (xs : List String) (x : String) → includes (xs ++ (x ∷ [])) x ≡ true
includes-last [] x = rw ((eq_iff x x).1 refl) refl
includes-last (y ∷ xs) x = rw (includes-last xs x) (or-true (str_eq y x))

with_total-total : (xs : List String) → includes (with_total xs) "total" ≡ true
unfolding with_total
with_total-total xs = elim (Bool-cases (includes xs "total")) [
  | inl e ↦ rw e e
  | inr e ↦ rw e (includes-last xs "total")
]

keep-total :
    (xs : List String)
    → includes xs "total" ≡ true
    → includes (keep is_not_followed xs) "total" ≡ true
keep-total [] e = e
keep-total (x ∷ xs) e = elim (Bool-cases (str_eq x "total")) [
  | inl t ↦
      let other = ap (λ (s : String). str_eq s "followed_artists") ((eq_iff x "total").0 t) in
      rw (other, t) refl
  | inr t ↦
      let rest = keep-total xs (rw t at e) in
      elim (Bool-cases (str_eq x "followed_artists")) [ inl f ↦ rw f rest | inr f ↦ rw (f, t) rest ]
]

pub filter_query-total :
    (get_paging_parameters : ConnectionOptions Fields → Option ℕ × ℕ) (has_authenticated : Bool)
    (options added : Fields)
    → includes
        (filter_query get_paging_parameters has_authenticated options added).aggregations
        "total"
      ≡ true
unfolding filter_query
filter_query-total get_paging_parameters has_authenticated options added =
    let xs = texts_of (lookup "aggregations" options) in
    let total = with_total-total xs in
    let personal =
      includes xs "followed_artists"
      || requested_authorized_filters options (with_unpublished (gravity_fields options added)) in
    elim (Bool-cases (personal && has_authenticated)) [
      | inl a ↦ rw a total
      | inr a ↦ elim (Bool-cases personal) [
        | inl p ↦ rw (a, p) (keep-total (with_total xs) total)
        | inr p ↦ rw (a, p) total
      ]
    ]
