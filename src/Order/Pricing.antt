-- ===== src/Order/Pricing.antt =====
-- The pricing breakdown of orders and offers: src/schema/v2/order/types/PricingBreakdownLines.ts.
-- `resolveMoney` is a parameter: of an amount of cents and a currency it gives the promise of a
-- `Money`.
use metaphysics.Common.{
  ℕ, String, Bool, true, false, ◌&&◌, Option, none, some, List, [], ◌∷◌, ◌==◌, if◌then◌else◌,
}
use metaphysics.Order.{Mode, Source, Participant, FulfillmentType, BuyerState, OrderJson, OfferJson}

pub data LineType : Type 0 where
  shipping_line tax_line subtotal_line total_line : LineType

-- `ResolvedPriceLineData`
pub record PriceLine (Money : Type 0) : Type 0 where
  pub typename : LineType
  pub display_name : String
  pub amount : Option Money
  pub amount_fallback_text : Option String

abbrev pub is_negotiation_completed : Option BuyerState → Bool
is_negotiation_completed none = false
is_negotiation_completed (some BuyerState.payment_failed) = true
is_negotiation_completed (some BuyerState.processing_payment) = true
is_negotiation_completed (some BuyerState.processing_offline_payment) = true
is_negotiation_completed (some BuyerState.approved) = true
is_negotiation_completed (some BuyerState.shipped) = true
is_negotiation_completed (some BuyerState.completed) = true
is_negotiation_completed (some BuyerState.refunded) = true
is_negotiation_completed (some BuyerState.canceled) = true
is_negotiation_completed (some _) = false

abbrev pub is_partner_offer : Source → Bool
is_partner_offer Source.partner_offer = true
is_partner_offer _ = false

abbrev pub is_incomplete : Option BuyerState → Bool
is_incomplete none = false
is_incomplete (some BuyerState.incomplete) = true
is_incomplete (some _) = false

abbrev pub offer_name : Option Participant → String
offer_name none = "Price"
offer_name (some Participant.buyer) = "Your offer"
offer_name (some Participant.seller) = "Gallery offer"
offer_name (some Participant.other) = "Price"

abbrev pub subtotal_name : Mode → OrderJson → String
subtotal_name Mode.buy order =
    if is_partner_offer order.source && is_incomplete order.buyer_state
    then "Gallery offer"
    else "Price"
subtotal_name Mode.offer order =
    if is_negotiation_completed order.buyer_state then "Price" else offer_name order.last_offer_from
subtotal_name Mode.other order = "Price"

unfoldable pub get_subtotal_display_name : OrderJson → String
get_subtotal_display_name order = subtotal_name order.mode order

abbrev pub is_zero : Option ℕ → Bool
is_zero none = false
is_zero (some n) = n == 0

-- The `switch` on the type of the selected option, which is "shipping_tbd" where none is selected.
unfoldable pub shipping_display_name : Option FulfillmentType → Option ℕ → String
shipping_display_name none total = "Shipping"
shipping_display_name (some FulfillmentType.pickup) total = "Pickup"
shipping_display_name (some FulfillmentType.artsy_standard) total = "Standard shipping"
shipping_display_name (some FulfillmentType.artsy_express) total = "Express shipping"
shipping_display_name (some FulfillmentType.artsy_white_glove) total = "White glove shipping"
shipping_display_name (some FulfillmentType.domestic_flat) total =
    if is_zero total then "Free shipping" else "Flat rate shipping"
shipping_display_name (some FulfillmentType.international_flat) total =
    if is_zero total then "Free shipping" else "Flat rate shipping"
shipping_display_name (some _) total = "Shipping"

abbrev pub is_tbd : Option FulfillmentType → Bool
is_tbd none = false
is_tbd (some FulfillmentType.shipping_tbd) = true
is_tbd (some _) = false

-- The text that stands for a missing total.
abbrev pub fallback : Option ℕ → String → Option String
fallback none text = some text
fallback (some cents) text = none

module _ {Money : Type 0} (resolve_money : ℕ → String → Money) where
  abbrev pub amount_of : Option ℕ → String → Option Money
  amount_of none currency_code = none
  amount_of (some cents) currency_code = some (resolve_money cents currency_code)

  abbrev pub line : LineType → String → Option Money → Option String → PriceLine Money
  line typename display_name amount amount_fallback_text = record {
    typename = typename;
    display_name = display_name;
    amount = amount;
    amount_fallback_text = amount_fallback_text;
  }

  unfoldable pub resolve_order_pricing_breakdown_lines : OrderJson → List (PriceLine Money)
  unfolding get_subtotal_display_name shipping_display_name
  resolve_order_pricing_breakdown_lines order =
      let currency = order.currency_code in
      let option = order.selected_fulfillment_option in
      line LineType.subtotal_line (get_subtotal_display_name order)
        (amount_of order.items_total_cents currency) none
      ∷ line LineType.shipping_line (shipping_display_name option order.shipping_total_cents)
          (amount_of order.shipping_total_cents currency)
          (fallback order.shipping_total_cents
            (if is_tbd option then "To be confirmed by seller" else "Calculated in next steps"))
      ∷ line LineType.tax_line "Tax" (amount_of order.tax_total_cents currency) (
          fallback order.tax_total_cents
            (if is_tbd option then "Calculated after shipping" else "Calculated in next steps"))
      ∷ line LineType.total_line "Total" (amount_of order.buyer_total_cents currency)
          (fallback order.buyer_total_cents "Waiting for final costs")
      ∷ []

  abbrev pub is_buyer : Participant → Bool
  is_buyer Participant.buyer = true
  is_buyer _ = false

  unfoldable pub resolve_offer_pricing_breakdown_lines : OfferJson → List (PriceLine Money)
  resolve_offer_pricing_breakdown_lines offer =
      let currency = offer.currency_code in
      let option = offer.selected_fulfillment_option_type in
      line LineType.subtotal_line
        (if is_buyer offer.from_participant then "Your offer" else "Gallery offer")
        (amount_of offer.amount_cents currency) none
      ∷ line LineType.shipping_line "Shipping" (amount_of offer.shipping_total_cents currency) (
          fallback offer.shipping_total_cents
            (if is_tbd option then "To be confirmed by seller" else "Calculated in next steps"))
      ∷ line LineType.tax_line "Tax" (amount_of offer.tax_total_cents currency) (
          fallback offer.tax_total_cents
            (if is_tbd option then "Calculated after shipping" else "Calculated in next steps"))
      ∷ line LineType.total_line "Total" (amount_of offer.buyer_total_cents currency)
          (fallback offer.buyer_total_cents "Waiting for final costs")
      ∷ []
