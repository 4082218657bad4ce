-- ===== src/Order/DisplayTexts.antt =====
-- What the buyer reads of an order's state: src/schema/v2/order/types/DisplayTexts.ts.
use metaphysics.Common.{String, Bool, true, false, Option, none, some, if◌then◌else◌}
use metaphysics.Order.{Mode, FulfillmentType, BuyerState, OrderJson}

-- `DisplayTextsMessageTypeEnum`
pub data MessageType : Type 0 where
  submitted_order submitted_offer offer_received counteroffer_sent : MessageType
  payment_failed processing_payment_pickup processing_payment_ship processing_wire : MessageType
  approved_pickup approved_ship approved_ship_standard approved_ship_express : MessageType
  approved_ship_white_glove shipped completed_pickup completed_ship : MessageType
  declined_by_seller declined_by_buyer canceled refunded : MessageType
  unknown : MessageType

pub record DisplayTexts : Type 0 where
  pub action_prompt : Option String
  pub message_type : MessageType
  pub state_name : String
  pub title : String

abbrev pub is_buy : Mode → Bool
is_buy Mode.buy = true
is_buy _ = false

abbrev pub is_pickup : Option FulfillmentType → Bool
is_pickup none = false
is_pickup (some FulfillmentType.pickup) = true
is_pickup (some _) = false

-- The message of an approved order that is shipped, by its selected option.
abbrev pub shipping_message : Option FulfillmentType → MessageType
shipping_message none = MessageType.approved_ship
shipping_message (some FulfillmentType.artsy_express) = MessageType.approved_ship_express
shipping_message (some FulfillmentType.artsy_standard) = MessageType.approved_ship_standard
shipping_message (some FulfillmentType.artsy_white_glove) = MessageType.approved_ship_white_glove
shipping_message (some _) = MessageType.approved_ship

abbrev pub texts : Option String → MessageType → String → String → DisplayTexts
texts action_prompt message_type state_name title = record {
  action_prompt = action_prompt;
  message_type = message_type;
  state_name = state_name;
  title = title;
}

-- The `switch` on the buyer's state; the last clause is `default`.
unfoldable pub buyer_texts : BuyerState → OrderJson → DisplayTexts
buyer_texts BuyerState.submitted order =
    texts none
      (if is_buy order.mode then MessageType.submitted_order else MessageType.submitted_offer)
      "Submitted" "Great choice!"
buyer_texts BuyerState.counteroffer_sent order =
    texts none MessageType.counteroffer_sent "Counteroffer sent" "Counteroffer sent"
buyer_texts BuyerState.offer_received order =
    texts (some "Respond to Counteroffer") MessageType.offer_received "Counteroffer received"
      "Great choice!"
buyer_texts BuyerState.payment_failed order =
    texts (some "Update Payment Method") MessageType.payment_failed "Payment failed"
      "Payment failed"
buyer_texts BuyerState.processing_payment order =
    texts none
      (if is_pickup order.fulfillment_type
        then MessageType.processing_payment_pickup
        else MessageType.processing_payment_ship)
      "Payment processing" "Your payment is processing"
buyer_texts BuyerState.processing_offline_payment order =
    texts (some "Complete payment") MessageType.processing_wire "Confirmed" "Congratulations!"
buyer_texts BuyerState.approved order =
    texts none
      (if is_pickup order.fulfillment_type
        then MessageType.approved_pickup
        else shipping_message order.selected_fulfillment_option)
      "Confirmed" "Congratulations!"
buyer_texts BuyerState.shipped order =
    texts none MessageType.shipped "Shipped" "Good news, your order has shipped!"
buyer_texts BuyerState.completed order =
    texts none
      (if is_pickup order.fulfillment_type
        then MessageType.completed_pickup
        else MessageType.completed_ship)
      "Completed"
      (if is_pickup order.fulfillment_type
        then "Your order has been picked up"
        else "Your order has been delivered")
buyer_texts BuyerState.declined_by_seller order =
    texts none MessageType.declined_by_seller "Canceled" "Your offer was declined"
buyer_texts BuyerState.declined_by_buyer order =
    texts none MessageType.declined_by_buyer "Declined offer" "You declined the offer"
buyer_texts BuyerState.canceled order =
    texts none MessageType.canceled "Canceled" "Your order was canceled"
buyer_texts BuyerState.refunded order =
    texts none MessageType.refunded "Canceled" "Your order was canceled and refunded"
buyer_texts _ order = texts none MessageType.unknown "Unknown" "Your order"

unfoldable pub resolve_display_texts : OrderJson → DisplayTexts
unfolding buyer_texts
resolve_display_texts order = elim order.buyer_state [
  | none ↦ texts none MessageType.unknown "Unknown" "Your order"
  | some state ↦ buyer_texts state order
]
