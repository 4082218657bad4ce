-- ===== src/Order/Texts.antt =====
-- What the display texts of orders promise to clients.
use metaphysics.Common.{
  String, ◌≡◌, refl, sym, ap, ◌∙◌, ◌↔◌, inl, inr, Bool-cases, Option-cases, Bool, true, false, ◌||◌,
  Option, none, some, arith, is_some, str_eq,
}
use metaphysics.Order.{BuyerState, SellerState, OrderJson}
use metaphysics.Order.DisplayTexts.{
  MessageType, DisplayTexts, texts, is_buy, buyer_texts, resolve_display_texts,
}
use metaphysics.Order.SellerTexts.{DisplaySellerTexts, seller_texts, resolve_display_seller_texts}

-- The texts that go with a message type.
of_message : MessageType → DisplayTexts
of_message MessageType.submitted_order =
    texts none MessageType.submitted_order "Submitted" "Great choice!"
of_message MessageType.submitted_offer =
    texts none MessageType.submitted_offer "Submitted" "Great choice!"
of_message MessageType.offer_received =
    texts (some "Respond to Counteroffer") MessageType.offer_received "Counteroffer received"
      "Great choice!"
of_message MessageType.counteroffer_sent =
    texts none MessageType.counteroffer_sent "Counteroffer sent" "Counteroffer sent"
of_message MessageType.payment_failed =
    texts (some "Update Payment Method") MessageType.payment_failed "Payment failed"
      "Payment failed"
of_message MessageType.processing_payment_pickup =
    texts none MessageType.processing_payment_pickup "Payment processing"
      "Your payment is processing"
of_message MessageType.processing_payment_ship =
    texts none MessageType.processing_payment_ship "Payment processing" "Your payment is processing"
of_message MessageType.processing_wire =
    texts (some "Complete payment") MessageType.processing_wire "Confirmed" "Congratulations!"
of_message MessageType.shipped =
    texts none MessageType.shipped "Shipped" "Good news, your order has shipped!"
of_message MessageType.completed_pickup =
    texts none MessageType.completed_pickup "Completed" "Your order has been picked up"
of_message MessageType.completed_ship =
    texts none MessageType.completed_ship "Completed" "Your order has been delivered"
of_message MessageType.declined_by_seller =
    texts none MessageType.declined_by_seller "Canceled" "Your offer was declined"
of_message MessageType.declined_by_buyer =
    texts none MessageType.declined_by_buyer "Declined offer" "You declined the offer"
of_message MessageType.canceled =
    texts none MessageType.canceled "Canceled" "Your order was canceled"
of_message MessageType.refunded =
    texts none MessageType.refunded "Canceled" "Your order was canceled and refunded"
of_message MessageType.unknown = texts none MessageType.unknown "Unknown" "Your order"
of_message approved = texts none approved "Confirmed" "Congratulations!"

buyer_texts-of_message :
    (s : BuyerState) (o : OrderJson) → buyer_texts s o ≡ of_message (buyer_texts s o).message_type
unfolding buyer_texts of_message
buyer_texts-of_message BuyerState.submitted o = ground arith
buyer_texts-of_message BuyerState.processing_payment o = ground arith
buyer_texts-of_message BuyerState.approved o = ground arith
buyer_texts-of_message BuyerState.completed o = ground arith
buyer_texts-of_message _ o = refl

resolve-of_message :
    (o : OrderJson) → resolve_display_texts o ≡ of_message (resolve_display_texts o).message_type
unfolding resolve_display_texts of_message
resolve-of_message o = elim (Option-cases o.buyer_state) [
  | inl e ↦ rw (e, resolve_display_texts)
  | inr (s, e) ↦ rw (e, resolve_display_texts) (buyer_texts-of_message s o)
]

-- The message type, which clients are to interpret, determines all that is shown: two orders with
-- the same message type have the same prompt, state name and title.
pub message_type_determines :
    (a b : OrderJson)
    → (resolve_display_texts a).message_type ≡ (resolve_display_texts b).message_type
    → resolve_display_texts a ≡ resolve_display_texts b
message_type_determines a b e = resolve-of_message a ∙ ap of_message e ∙ sym (resolve-of_message b)

-- The states that wait for the buyer.
abbrev pub awaits_buyer : Option BuyerState → Bool
awaits_buyer none = false
awaits_buyer (some BuyerState.offer_received) = true
awaits_buyer (some BuyerState.payment_failed) = true
awaits_buyer (some BuyerState.processing_offline_payment) = true
awaits_buyer (some _) = false

-- The buyer is prompted exactly in the states that wait for the buyer.
pub action_prompt_iff :
    (o : OrderJson) → is_some (resolve_display_texts o).action_prompt ≡ awaits_buyer o.buyer_state
unfolding resolve_display_texts
action_prompt_iff o = ground arith

-- A prompt that asks for no more than a look.
abbrev pub only_views : Option String → Bool
only_views none = true
only_views (some prompt) = str_eq prompt "View Order Details" || str_eq prompt "View Offer Details"

abbrev pub is_primary : Option Bool → Bool
is_primary none = false
is_primary (some b) = b

abbrev pub ActionShape : DisplaySellerTexts → Type 0
ActionShape t =
    (is_some t.icon ≡ is_some t.action_prompt)
    × (is_some t.is_primary_action ≡ is_some t.action_prompt)
    × ((is_primary t.is_primary_action ≡ true) ↔ (only_views t.action_prompt ≡ false))

seller_texts-ActionShape : (s : SellerState) (o : OrderJson) → ActionShape (seller_texts s o)
unfolding seller_texts
seller_texts-ActionShape SellerState.expired o = elim (Bool-cases (is_buy o.mode)) [
  | inl e ↦ rw e (ground arith)
  | inr e ↦ rw e (ground arith)
]
seller_texts-ActionShape SellerState.canceled o = elim (Bool-cases (is_buy o.mode)) [
  | inl e ↦ rw e (ground arith)
  | inr e ↦ rw e (ground arith)
]
seller_texts-ActionShape _ o = ground arith

-- The seller's prompt, icon and kind of action are given together or not at all, and the action is
-- primary exactly if the prompt asks for more than a look.
pub seller-ActionShape : (o : OrderJson) → ActionShape (resolve_display_seller_texts o)
unfolding resolve_display_seller_texts
seller-ActionShape o = elim (Option-cases o.seller_state) [
  | inl e ↦ rw (e, resolve_display_seller_texts) (ground arith)
  | inr (s, e) ↦ rw (e, resolve_display_seller_texts) (seller_texts-ActionShape s o)
]
