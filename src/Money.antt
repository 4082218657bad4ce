-- ===== src/Money.antt =====
-- Price texts: src/lib/moneyHelpers.ts.
-- The table of the currencies by code, whatever its case, and what numeral prints of an amount in a
-- format are parameters. An amount is a quotient of two numbers.
use metaphysics.Common.{
  ℕ, ◌+◌, ◌*◌, ◌/◌, String, Bool, Option, none, some, List, [], ◌∷◌, if◌then◌else◌, includes,
  is_truthy, or_else, ◌<>◌,
}

pub record Currency : Type 0 where
  pub symbol : String
  pub disambiguate_symbol : Option String
  pub subunit_to_unit : ℕ

pub record Amount : Type 0 where
  pub numerator : ℕ
  pub denominator : ℕ

abbrev pub symbol_only : List String
symbol_only = "GBP" ∷ "EUR" ∷ "MYR" ∷ []

module _ (currencies : String → Option Currency) (numeral : Amount → String → String) where
  unfoldable pub currency_prefix : String → String
  currency_prefix currency = elim (currencies currency) [
    | none ↦ ""
    | some c ↦
        if includes symbol_only currency
        then c.symbol
        else if is_truthy c.disambiguate_symbol
        then or_else c.disambiguate_symbol ""
        else currency <> (" " <> c.symbol)
  ]

  -- The nearest whole number of units, a half rounded up.
  abbrev pub rounded : ℕ → ℕ → ℕ
  rounded cents unit = (2 * cents + unit) / (2 * unit)

  -- `none` is the exception at an unknown currency.
  unfoldable pub price_amount : ℕ → String → String → Bool → Option String
  price_amount cents currency format exact = elim (currencies currency) [
    | none ↦ none
    | some c ↦ some (
        numeral
          (if exact
            then record { numerator = cents; denominator = c.subunit_to_unit }
            else record { numerator = rounded cents c.subunit_to_unit; denominator = 1 })
          format)
  ]

  unfoldable pub price_display_text : ℕ → String → String → Bool → Option String
  unfolding price_amount currency_prefix
  price_display_text cents currency format exact = elim (price_amount cents currency format exact) [
    | none ↦ none
    | some amount ↦ some (currency_prefix currency <> amount)
  ]
