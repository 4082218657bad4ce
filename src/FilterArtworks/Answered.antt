-- ===== src/FilterArtworks/Answered.antt =====
-- Requests that are answered with a connection.
use mathlib.Core.Bool.{false≢true}
use native.Mathlib.Nat.{mul-le-mul_right}
use mathlib.Core.Option.{some-injective, none-ne-some}
use metaphysics.Common.{
  ℕ, zero, suc, ◌*◌, ◌≤◌, Bool, true, false, Option, none, some, ◌≡◌, refl, sym, ap, ◌∙◌, arith,
  inl, inr, Option-cases, if◌then◌else◌,
}
use metaphysics.Common.Json.{Fields}
use metaphysics.Pagination.{compute_total_pages, page_number_cap}
use metaphysics.FilterArtworks.{filter_options}
use metaphysics.FilterArtworks.Checks.{refusal}
use metaphysics.FilterArtworks.Query.{filter_query}
use metaphysics.FilterArtworks.Connection.{
  Found, Services, FilterConnection, connected, array_length, connection_with, connection,
  connection_of, fetched, filter_artworks,
}

total_pages_cap :
    (total size pages : ℕ)
    → compute_total_pages total size (some page_number_cap) ≡ some pages
    → pages ≤ 100
unfolding compute_total_pages
total_pages_cap zero zero pages e = absurd (none-ne-some _ e)
total_pages_cap (suc total) zero pages e = let same = some-injective _ _ e in omega (arith, same)
total_pages_cap total (suc size) pages e = let same = some-injective _ _ e in omega (arith, same)

if-false : {A : Type 0} (b : Bool) (x y : A) → b ≡ false → (if b then x else y) ≡ y
if-false true x y e = absurd (false≢true (sym e))
if-false false x y e = refl

-- The length that is passed on to the package is at most the total, and at most a hundred pages.
abbrev pub IsCapped : ℕ → Option ℕ → Option ℕ → Type 0
IsCapped total (some size) (some n) = (n ≤ total) × (n ≤ 100 * size)
IsCapped total _ _ = Unit

module _ (services : Services) where
  array_length-IsCapped :
      (total : ℕ) (size : Option ℕ) → IsCapped total size (array_length services total size)
  unfolding array_length
  array_length-IsCapped total none = tt
  array_length-IsCapped total (some size) =
      elim (Option-cases (compute_total_pages total size (some page_number_cap))) [
        | inl e ↦ rw e tt
        | inr (pages, e) ↦
            let cap = total_pages_cap total size pages e in
            let pages_size = mul-le-mul_right size cap in
            rw e (omega (arith, pages_size), omega (arith, pages_size))
      ]

  -- A request outside the CMS whose arguments pass the checks, and whose search answers works and a
  -- total, is answered with a connection of these works and this total, whose length is at most the
  -- total and at most that of a hundred pages.
  pub filter_artworks-answers :
      (root : Fields) (input : Option Fields) (added : Fields) (found : Found) (total : ℕ)
      → let options = filter_options root input in
        let query =
          filter_query services.get_paging_parameters services.has_authenticated_loader options
            added in
        refusal options ≡ none
        → services.is_cms_request ≡ false
        → services.search query ≡ some found
        → found.total ≡ some total
        → (c : FilterConnection) × (filter_artworks services root input added true ≡ connected c)
          × (c.hits ≡ found.hits)
          × (c.total ≡ total)
          × IsCapped total query.gravity.size c.array_length
  unfolding filter_artworks fetched connection connection_with
  filter_artworks-answers root input added found total r cms s t =
      let options = filter_options root input in
      let query =
        filter_query services.get_paging_parameters services.has_authenticated_loader options
          added in
      let checked : filter_artworks services root input added true ≡ fetched services input query =
        rw (filter_artworks, r) refl in
      let searched : fetched services input query ≡ connection_of services query (some found) =
        if-false services.is_cms_request _ _ cms ∙ ap (connection_of services query) s in
      let answered : connection services query found
          ≡ connected (connection_with services query found total) =
        rw (connection, t) refl in
      (
        connection_with services query found total,
        checked ∙ (searched ∙ answered),
        refl,
        refl,
        array_length-IsCapped total query.gravity.size,
      )
