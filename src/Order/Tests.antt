-- ===== src/Order/Tests.antt =====
-- Display texts and pricing lines of concrete orders.
use metaphysics.Common.{ℕ, String, ◌≡◌, refl, none, some}
use metaphysics.Order.{
  Mode, Source, Participant, FulfillmentType, BuyerState, SellerState, OrderJson, OfferJson,
}
use metaphysics.Order.DisplayTexts.{resolve_display_texts}

abbrev order : Mode → OrderJson
order mode = record {
  mode = mode;
  source = Source.artwork_page;
  buyer_state = some BuyerState.offer_received;
  seller_state = some SellerState.offer_sent;
  fulfillment_type = none;
  selected_fulfillment_option = some FulfillmentType.shipping_tbd;
  last_offer_from = some Participant.buyer;
  currency_code = "USD";
  shipping_total_cents = none;
  tax_total_cents = none;
  items_total_cents = some 100;
  buyer_total_cents = some 120;
}

abbrev offer : OfferJson
offer = record {
  from_participant = Participant.buyer;
  currency_code = "USD";
  shipping_total_cents = none;
  tax_total_cents = none;
  amount_cents = some 90;
  buyer_total_cents = some 120;
  selected_fulfillment_option_type = some FulfillmentType.shipping_tbd;
}

abbrev cents_of : ℕ → String → ℕ
cents_of cents currency = cents

same_message :
    (resolve_display_texts (order Mode.buy)).message_type
    ≡ (resolve_display_texts (order Mode.offer)).message_type
unfolding resolve_display_texts
same_message = refl
