-- ===== src/Binance/FixApp/Routing.antt =====
-- Which messages `fromApp` of src/binance/fix_app.cpp puts on which queue.
use trader_cpp.Base.{
  All, ◌≡◌, refl, ap, sym, ◌∙◌, true, false, List, [], ◌∷◌, ◌++◌, Text, text_eq, if◌then◌else◌,
  arith, append_assoc, append-nil, Bool-cases, inl, inr,
}
use trader_cpp.External.ConcurrentQueue.{ConcurrentQueue}
use trader_cpp.External.Fix.{Increment}
use trader_cpp.Binance.MarketMessageVariant.{MarketMessageVariant, snapshot, increment}
use trader_cpp.Binance.FixApp.{
  FixApp, AppMessage, full_refresh, incremental_refresh, execution_report, other, from_app, deliver,
  px_session_qualifier, tx_session_qualifier,
}

-- The snapshots of all sessions and the increments of the price session, in order.
abbrev pub order_messages :
    {D : Type 0} → List (Text × AppMessage D) → List (MarketMessageVariant D)
order_messages [] = []
order_messages ((qualifier, full_refresh m) ∷ ms) = snapshot m ∷ order_messages ms
order_messages ((qualifier, incremental_refresh m) ∷ ms) =
    let rest = order_messages ms in
    if text_eq qualifier px_session_qualifier then increment m ∷ rest else rest
order_messages ((qualifier, execution_report) ∷ ms) = order_messages ms
order_messages ((qualifier, other) ∷ ms) = order_messages ms

-- The snapshots and the increments of the price session, in order.
abbrev pub price_messages :
    {D : Type 0} → List (Text × AppMessage D) → List (MarketMessageVariant D)
price_messages [] = []
price_messages ((qualifier, full_refresh m) ∷ ms) =
    let rest = price_messages ms in
    if text_eq qualifier px_session_qualifier then snapshot m ∷ rest else rest
price_messages ((qualifier, incremental_refresh m) ∷ ms) =
    let rest = price_messages ms in
    if text_eq qualifier px_session_qualifier then increment m ∷ rest else rest
price_messages ((qualifier, execution_report) ∷ ms) = price_messages ms
price_messages ((qualifier, other) ∷ ms) = price_messages ms

-- A snapshot comes from the price session, as the increments for the order queue do, so that one
-- thread fills that queue.
abbrev pub IsAsPrices : {D : Type 0} → Text × AppMessage D → Type 0
IsAsPrices (qualifier, full_refresh m) = text_eq qualifier px_session_qualifier ≡ true
IsAsPrices (qualifier, incremental_refresh m) = Unit
IsAsPrices (qualifier, execution_report) = Unit
IsAsPrices (qualifier, other) = Unit

-- Only the price session fills the order queue.
abbrev pub HasOneProducer : {D : Type 0} → List (Text × AppMessage D) → Type 0
HasOneProducer = All IsAsPrices

pub order_messages-price_messages :
    {D : Type 0} (ms : List (Text × AppMessage D))
    → HasOneProducer ms
    → order_messages ms ≡ price_messages ms
order_messages-price_messages [] h = refl
order_messages-price_messages ((qualifier, full_refresh m) ∷ ms) (px, h) =
    rw px (ap (◌∷◌ (snapshot m)) (order_messages-price_messages ms h))
order_messages-price_messages ((qualifier, incremental_refresh m) ∷ ms) (_, h) =
    rw (order_messages-price_messages ms h) refl
order_messages-price_messages ((qualifier, execution_report) ∷ ms) (_, h) =
    order_messages-price_messages ms h
order_messages-price_messages ((qualifier, other) ∷ ms) (_, h) = order_messages-price_messages ms h

-- The increments of the trade session, in order.
abbrev pub trade_messages : {D : Type 0} → List (Text × AppMessage D) → List (Increment D)
trade_messages [] = []
trade_messages ((qualifier, full_refresh m) ∷ ms) = trade_messages ms
trade_messages ((qualifier, incremental_refresh m) ∷ ms) =
    let rest = trade_messages ms in
    if text_eq qualifier tx_session_qualifier then m ∷ rest else rest
trade_messages ((qualifier, execution_report) ∷ ms) = trade_messages ms
trade_messages ((qualifier, other) ∷ ms) = trade_messages ms

pub order_messages-cons :
    {D : Type 0} (x : Text × AppMessage D) (ms : List (Text × AppMessage D))
    → order_messages (x ∷ ms) ≡ order_messages (x ∷ []) ++ order_messages ms
order_messages-cons (qualifier, full_refresh m) ms = refl
order_messages-cons (qualifier, incremental_refresh m) ms = ground arith
order_messages-cons (qualifier, execution_report) ms = refl
order_messages-cons (qualifier, other) ms = refl

pub trade_messages-cons :
    {D : Type 0} (x : Text × AppMessage D) (ms : List (Text × AppMessage D))
    → trade_messages (x ∷ ms) ≡ trade_messages (x ∷ []) ++ trade_messages ms
trade_messages-cons (qualifier, full_refresh m) ms = refl
trade_messages-cons (qualifier, incremental_refresh m) ms = ground arith
trade_messages-cons (qualifier, execution_report) ms = refl
trade_messages-cons (qualifier, other) ms = refl

-- No session has both qualifiers.
pub not_both :
    (qualifier : Text)
    → text_eq qualifier px_session_qualifier ≡ true
    → text_eq qualifier tx_session_qualifier ≡ false
not_both [] h = cc
not_both (c ∷ s) h = ground arith

module _ {D OQ TQ : Type 0} ⦃oq : ConcurrentQueue (MarketMessageVariant D) OQ⦄
    ⦃tq : ConcurrentQueue (Increment D) TQ⦄ where
  -- The queues after messages were delivered.
  Delivered : List (Text × AppMessage D) → FixApp OQ TQ → FixApp OQ TQ → Type 0
  Delivered ms app app' =
      (oq.contents app'.order_queue ≡ oq.contents app.order_queue ++ order_messages ms)
      × (tq.contents app'.trade_queue ≡ tq.contents app.trade_queue ++ trade_messages ms)

  from_app-Delivered :
      (qualifier : Text) (m : AppMessage D) (app : FixApp OQ TQ)
      → Delivered ((qualifier, m) ∷ []) app (from_app qualifier m app).0
  unfolding from_app Delivered
  from_app-Delivered qualifier (full_refresh m) app =
      (oq.contents-enqueue (snapshot m) app.order_queue, sym (append-nil _))
  from_app-Delivered qualifier execution_report app = (sym (append-nil _), sym (append-nil _))
  from_app-Delivered qualifier other app = (sym (append-nil _), sym (append-nil _))
  from_app-Delivered qualifier (incremental_refresh m) app =
      elim (Bool-cases (text_eq qualifier px_session_qualifier)) [
        | inl px ↦
            rw (px, not_both qualifier px)
              (oq.contents-enqueue (increment m) app.order_queue, sym (append-nil _))
        | inr not_px ↦ elim (Bool-cases (text_eq qualifier tx_session_qualifier)) [
          | inl tx ↦ rw (not_px, tx) (sym (append-nil _), tq.contents-enqueue m app.trade_queue)
          | inr not_tx ↦ rw (not_px, not_tx) (sym (append-nil _), sym (append-nil _))
        ]
      ]

  deliver-Delivered :
      (ms : List (Text × AppMessage D)) (app : FixApp OQ TQ) → Delivered ms app (deliver ms app)
  unfolding deliver Delivered
  deliver-Delivered [] app = (sym (append-nil _), sym (append-nil _))
  deliver-Delivered ((qualifier, m) ∷ ms) app =
      let (orders, trades) = deliver-Delivered ms (from_app qualifier m app).0 in
      let (order, trade) = from_app-Delivered qualifier m app in
      (
        orders
            ∙ ap (λ (l : List (MarketMessageVariant D)). l ++ order_messages ms) order
            ∙ append_assoc (oq.contents app.order_queue) _ _
            ∙ ap (◌++◌ (oq.contents app.order_queue)) (sym (order_messages-cons (qualifier, m) ms)),
        trades
            ∙ ap (λ (l : List (Increment D)). l ++ trade_messages ms) trade
            ∙ append_assoc (tq.contents app.trade_queue) _ _
            ∙ ap (◌++◌ (tq.contents app.trade_queue)) (sym (trade_messages-cons (qualifier, m) ms)),
      )

  -- After any messages from any sessions, in any order, but snapshots from the price session only, and
  -- from empty queues: the order queue holds the snapshots and increments of the price session, in the
  -- order of delivery, and the trade queue the trade session's increments; nothing else is on them.
  pub deliver-contents :
      (ms : List (Text × AppMessage D)) (app : FixApp OQ TQ)
      → HasOneProducer ms
      → oq.contents app.order_queue ≡ []
      → tq.contents app.trade_queue ≡ []
      → let app' = deliver ms app in
        (oq.contents app'.order_queue ≡ price_messages ms)
        × (tq.contents app'.trade_queue ≡ trade_messages ms)
  unfolding Delivered
  deliver-contents ms app one_producer no_orders no_trades =
      let (orders, trades) = deliver-Delivered ms app in
      (
        orders
            ∙ ap (λ (l : List (MarketMessageVariant D)). l ++ order_messages ms) no_orders
            ∙ order_messages-price_messages ms one_producer,
        trades ∙ ap (λ (l : List (Increment D)). l ++ trade_messages ms) no_trades,
      )
