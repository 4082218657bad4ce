-- ===== src/Order.antt =====
-- Orders as the exchange service sends them: src/schema/v2/order/types/exchangeJson.ts and
-- OfferType.ts, restricted to the fields that the display texts and the pricing lines read.
-- A value that the type of a field does not list is its constructor `other`; a missing one `none`.
pub mod DisplayTexts
pub mod SellerTexts
pub mod Pricing
pub mod Texts
pub mod Lines
mod Tests
use metaphysics.Common.{ℕ, String, Option}

pub data Mode : Type 0 where
  buy offer other : Mode

pub data Source : Type 0 where
  artwork_page inquiry private_sale partner_offer other : Source

pub data Participant : Type 0 where
  buyer seller other : Participant

pub data FulfillmentType : Type 0 where
  domestic_flat international_flat pickup : FulfillmentType
  artsy_standard artsy_express artsy_white_glove : FulfillmentType
  shipping_tbd other : FulfillmentType

pub data BuyerState : Type 0 where
  incomplete submitted offer_received counteroffer_sent payment_failed : BuyerState
  processing_payment processing_offline_payment approved shipped completed : BuyerState
  refunded declined_by_seller declined_by_buyer canceled unknown other : BuyerState

pub data SellerState : Type 0 where
  incomplete order_received offer_received offer_sent payment_failed : SellerState
  processing_payment approved_pickup approved_seller_ship : SellerState
  approved_artsy_self_ship approved_artsy_ship in_transit completed : SellerState
  refunded expired canceled other : SellerState

pub record OrderJson : Type 0 where
  pub mode : Mode
  pub source : Source
  pub buyer_state : Option BuyerState
  pub seller_state : Option SellerState
  pub fulfillment_type : Option FulfillmentType
  pub selected_fulfillment_option : Option FulfillmentType
  -- `last_submitted_offer?.from_participant`
  pub last_offer_from : Option Participant
  pub currency_code : String
  pub shipping_total_cents : Option ℕ
  pub tax_total_cents : Option ℕ
  pub items_total_cents : Option ℕ
  pub buyer_total_cents : Option ℕ

pub record OfferJson : Type 0 where
  pub from_participant : Participant
  pub currency_code : String
  pub shipping_total_cents : Option ℕ
  pub tax_total_cents : Option ℕ
  pub amount_cents : Option ℕ
  pub buyer_total_cents : Option ℕ
  pub selected_fulfillment_option_type : Option FulfillmentType
