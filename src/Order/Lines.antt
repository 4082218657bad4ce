-- ===== src/Order/Lines.antt =====
-- What the pricing breakdown promises: its lines, and that orders and their offers agree.
use metaphysics.Common.{
  ℕ, String, ◌≡◌, refl, ◌⊎◌, inl, inr, not, Option, none, some, List, [], ◌∷◌, map, is_some, All,
  drop,
}
use metaphysics.Order.{OrderJson, OfferJson}
use metaphysics.Order.Pricing.{
  LineType, PriceLine, amount_of, fallback, resolve_order_pricing_breakdown_lines,
  resolve_offer_pricing_breakdown_lines,
}

-- A line with an amount or a text in place of it, never both. A subtotal has no such text.
abbrev pub IsComplete : {Money : Type 0} → PriceLine Money → Type 0
IsComplete l =
    ((l.typename ≡ LineType.subtotal_line) × (l.amount_fallback_text ≡ none))
    ⊎ (is_some l.amount ≡ not (is_some l.amount_fallback_text))

-- A line without its name.
abbrev pub but_name : {Money : Type 0} → PriceLine Money → LineType × Option Money × Option String
but_name l = (l.typename, l.amount, l.amount_fallback_text)

abbrev pub line_types : List LineType
line_types =
    LineType.subtotal_line ∷ LineType.shipping_line ∷ LineType.tax_line ∷ LineType.total_line ∷ []

module _ {Money : Type 0} (resolve_money : ℕ → String → Money) where
  shown :
      (total : Option ℕ) (currency text : String)
      → is_some (amount_of resolve_money total currency) ≡ not (is_some (fallback total text))
  shown none currency text = refl
  shown (some n) currency text = refl

  -- An order has the four lines in this order, and each but the subtotal shows either an amount or
  -- the text that stands for it.
  pub order_lines-IsComplete :
      (o : OrderJson)
      → (map
            (λ (l : PriceLine Money). l.typename)
            (resolve_order_pricing_breakdown_lines resolve_money o)
          ≡ line_types)
        × All IsComplete (resolve_order_pricing_breakdown_lines resolve_money o)
  unfolding resolve_order_pricing_breakdown_lines
  order_lines-IsComplete o = (
    refl,
    (
      inl (refl, refl),
      (
        inr (shown o.shipping_total_cents o.currency_code _),
        (
          inr (shown o.tax_total_cents o.currency_code _),
          (inr (shown o.buyer_total_cents o.currency_code _), tt),
        ),
      ),
    ),
  )

  -- An offer with the currency, the totals and the kind of shipping of an order has the tax and
  -- total lines of the order, and the shipping line of the order but for its name.
  pub offer_lines-order_lines :
      (offer : OfferJson) (o : OrderJson)
      → offer.currency_code ≡ o.currency_code
      → offer.shipping_total_cents ≡ o.shipping_total_cents
      → offer.tax_total_cents ≡ o.tax_total_cents
      → offer.buyer_total_cents ≡ o.buyer_total_cents
      → offer.selected_fulfillment_option_type ≡ o.selected_fulfillment_option
      → (drop 2 (resolve_offer_pricing_breakdown_lines resolve_money offer)
          ≡ drop 2 (resolve_order_pricing_breakdown_lines resolve_money o))
        × (map but_name (drop 1 (resolve_offer_pricing_breakdown_lines resolve_money offer))
            ≡ map but_name (drop 1 (resolve_order_pricing_breakdown_lines resolve_money o)))
  unfolding resolve_order_pricing_breakdown_lines resolve_offer_pricing_breakdown_lines
  offer_lines-order_lines offer o a b c d e = (simp (a, b, c, d, e), simp (a, b, c, d, e))
