-- ===== src/Order/SellerTexts.antt =====
-- What the seller reads of an order's state: src/schema/v2/order/types/DisplaySellerTexts.ts.
use metaphysics.Common.{String, Bool, true, false, Option, none, some, if◌then◌else◌}
use metaphysics.Order.{SellerState, OrderJson}
use metaphysics.Order.DisplayTexts.{is_buy}

pub record DisplaySellerTexts : Type 0 where
  pub action_prompt : Option String
  pub icon : Option String
  pub is_primary_action : Option Bool
  pub state_name : String
  pub conversation_state_title : String

-- A state with a name alone, and one with an action.
abbrev pub named : String → String → DisplaySellerTexts
named state_name title = record {
  action_prompt = none;
  icon = none;
  is_primary_action = none;
  state_name = state_name;
  conversation_state_title = title;
}

abbrev pub action : String → String → Bool → String → String → DisplaySellerTexts
action action_prompt icon is_primary_action state_name title = record {
  action_prompt = some action_prompt;
  icon = some icon;
  is_primary_action = some is_primary_action;
  state_name = state_name;
  conversation_state_title = title;
}

-- The `switch` on the seller's state; the last clause is `default`.
unfoldable pub seller_texts : SellerState → OrderJson → DisplaySellerTexts
seller_texts SellerState.incomplete order = named "Incomplete" ""
seller_texts SellerState.order_received order =
    action "Confirm Order" "PendingStrokeIcon" true "Order received" "Order received"
seller_texts SellerState.offer_received order =
    action "Respond to Offer" "PendingStrokeIcon" true "Offer received" "Offer received"
seller_texts SellerState.offer_sent order =
    action "View Offer Details" "PendingStrokeIcon" false "Offer sent" "Counteroffer sent"
seller_texts SellerState.payment_failed order =
    action "View Order Details" "CloseStrokeIcon" false "Payment failed" "Payment failed"
seller_texts SellerState.processing_payment order =
    action "View Order Details" "PendingStrokeIcon" false "Processing payment" "Processing payment"
seller_texts SellerState.approved_pickup order =
    action "Arrange Pickup" "CheckmarkIcon" true "Approved pickup" "Order approved"
seller_texts SellerState.approved_seller_ship order =
    action "Confirm Shipping" "CheckmarkIcon" true "Approved self ship" "Order approved"
seller_texts SellerState.approved_artsy_self_ship order =
    action "Prepare to Ship" "CheckmarkIcon" true "Approved artsy self ship" "Order approved"
seller_texts SellerState.approved_artsy_ship order =
    action "View Order Details" "CheckmarkIcon" false "Approved artsy full service" "Order approved"
seller_texts SellerState.in_transit order =
    action "View Order Details" "CheckmarkIcon" false "In transit" "Shipped"
seller_texts SellerState.completed order =
    action "View Order Details" "CheckmarkIcon" false "Completed" "Completed"
seller_texts SellerState.refunded order =
    action "View Order Details" "MoneyBackIcon" false "Refunded" "Refunded"
seller_texts SellerState.expired order =
    action (if is_buy order.mode then "View Order Details" else "View Offer Details")
      "CloseStrokeIcon" false "Expired"
      (if is_buy order.mode then "Order Expired" else "Offer Expired")
seller_texts SellerState.canceled order =
    action (if is_buy order.mode then "View Order Details" else "View Offer Details")
      "CloseStrokeIcon" false "Canceled" "Canceled"
seller_texts _ order = named "Unknown" "Unknown"

unfoldable pub resolve_display_seller_texts : OrderJson → DisplaySellerTexts
unfolding seller_texts
resolve_display_seller_texts order = elim order.seller_state [
  | none ↦ named "Unknown" "Unknown"
  | some state ↦ seller_texts state order
]
