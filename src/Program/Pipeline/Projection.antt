-- ===== src/Program/Pipeline/Projection.antt =====
-- Each worker of the pipeline alone: what happens to it, and that nothing else reaches it.
use trader_cpp.Base.{
  Attempt, append-nil, ◌≡◌, refl, ap, sym, ◌∙◌, List, [], ◌∷◌, ◌++◌, Text, text_eq, Bool-cases, inl,
  inr,
}
use trader_cpp.External.BtreeMap.{BtreeMap, greater, less}
use trader_cpp.External.CircularBuffer.{CircularBuffer}
use trader_cpp.External.ConcurrentQueue.{ConcurrentQueue}
use trader_cpp.External.Fix.{Increment}
use trader_cpp.External.Float.{Float}
use trader_cpp.Binance.FixApp.{
  AppMessage, full_refresh, incremental_refresh, execution_report, other, px_session_qualifier,
  tx_session_qualifier,
}
use trader_cpp.Binance.FixApp.Routing.{
  order_messages, trade_messages, order_messages-cons, trade_messages-cons, not_both,
}
use trader_cpp.Binance.MarketMessageVariant.{MarketMessageVariant}
use trader_cpp.Core.Trade.{Trade}
use trader_cpp.Program.Pipeline
use trader_cpp.Program.Pipeline.{
  Pipeline, Happening, deliver, book_turn, trade_turn, stop_book, stop_trade, get_order_queue,
  get_trade_queue,
}
use trader_cpp.Ui.OrderBookBox
use trader_cpp.Ui.OrderBookBox.{visit}
use trader_cpp.Ui.Polling.{Worker, Event, send, request_stop, turn, run, happen, sent}
use trader_cpp.Ui.TradeBox
use trader_cpp.Ui.TradeBox.{on_trade}

-- What the sessions delivered, in order.
abbrev pub deliveries : {D : Type 0} → List (Happening D) → List (Text × AppMessage D)
deliveries [] = []
deliveries (deliver qualifier m ∷ hs) = (qualifier, m) ∷ deliveries hs
deliveries (book_turn ∷ hs) = deliveries hs
deliveries (trade_turn ∷ hs) = deliveries hs
deliveries (stop_book ∷ hs) = deliveries hs
deliveries (stop_trade ∷ hs) = deliveries hs

abbrev pub sends : {M : Type 0} → List M → List (Event M)
sends [] = []
sends (m ∷ ms) = send m ∷ sends ms

-- What the worker of the order book box notices.
abbrev pub book_events : {D : Type 0} → List (Happening D) → List (Event (MarketMessageVariant D))
book_events [] = []
book_events (deliver qualifier m ∷ hs) =
    sends (order_messages ((qualifier, m) ∷ [])) ++ book_events hs
book_events (book_turn ∷ hs) = turn ∷ book_events hs
book_events (trade_turn ∷ hs) = book_events hs
book_events (stop_book ∷ hs) = request_stop ∷ book_events hs
book_events (stop_trade ∷ hs) = book_events hs

abbrev pub trade_events : {D : Type 0} → List (Happening D) → List (Event (Increment D))
trade_events [] = []
trade_events (deliver qualifier m ∷ hs) =
    sends (trade_messages ((qualifier, m) ∷ [])) ++ trade_events hs
trade_events (book_turn ∷ hs) = trade_events hs
trade_events (trade_turn ∷ hs) = turn ∷ trade_events hs
trade_events (stop_book ∷ hs) = trade_events hs
trade_events (stop_trade ∷ hs) = request_stop ∷ trade_events hs

sent-sends :
    {M : Type 0} (ms : List M) (es : List (Event M)) → sent (sends ms ++ es) ≡ ms ++ sent es
sent-sends [] es = refl
sent-sends (m ∷ ms) es = ap (◌∷◌ m) (sent-sends ms es)

pub sent-book_events :
    {D : Type 0} (hs : List (Happening D)) → sent (book_events hs) ≡ order_messages (deliveries hs)
sent-book_events [] = refl
sent-book_events (deliver qualifier m ∷ hs) =
    sent-sends (order_messages ((qualifier, m) ∷ [])) (book_events hs)
    ∙ ap (◌++◌ (order_messages ((qualifier, m) ∷ []))) (sent-book_events hs)
    ∙ sym (order_messages-cons (qualifier, m) (deliveries hs))
sent-book_events (book_turn ∷ hs) = sent-book_events hs
sent-book_events (trade_turn ∷ hs) = sent-book_events hs
sent-book_events (stop_book ∷ hs) = sent-book_events hs
sent-book_events (stop_trade ∷ hs) = sent-book_events hs

pub sent-trade_events :
    {D : Type 0} (hs : List (Happening D)) → sent (trade_events hs) ≡ trade_messages (deliveries hs)
sent-trade_events [] = refl
sent-trade_events (deliver qualifier m ∷ hs) =
    sent-sends (trade_messages ((qualifier, m) ∷ [])) (trade_events hs)
    ∙ ap (◌++◌ (trade_messages ((qualifier, m) ∷ []))) (sent-trade_events hs)
    ∙ sym (trade_messages-cons (qualifier, m) (deliveries hs))
sent-trade_events (book_turn ∷ hs) = sent-trade_events hs
sent-trade_events (trade_turn ∷ hs) = sent-trade_events hs
sent-trade_events (stop_book ∷ hs) = sent-trade_events hs
sent-trade_events (stop_trade ∷ hs) = sent-trade_events hs

module _ {M Q S : Type 0} ⦃q : ConcurrentQueue M Q⦄ (handle : M → S → Attempt S)
    (post : S → S) where
  run-append :
      (w : Worker S Q) (xs ys : List (Event M))
      → run handle post w (xs ++ ys) ≡ run handle post (run handle post w xs) ys
  unfolding run
  run-append w [] ys = refl
  run-append w (x ∷ xs) ys = run-append (happen handle post w x) xs ys

module _ {D OQ TQ B A R : Type 0} ⦃float : Float D⦄ ⦃bids : BtreeMap greater B⦄
    ⦃asks : BtreeMap less A⦄ ⦃ring : CircularBuffer Trade R⦄
    ⦃oq : ConcurrentQueue (MarketMessageVariant D) OQ⦄ ⦃tq : ConcurrentQueue (Increment D) TQ⦄ where
  book_step :
      (p : Pipeline OQ TQ B A R) (h : Happening D)
      → get_order_queue (Pipeline.happen p h)
        ≡ run visit OrderBookBox.post_event (get_order_queue p) (book_events (h ∷ []))
  unfolding Pipeline.happen run happen
  book_step p (deliver qualifier (full_refresh m)) = refl
  book_step p (deliver qualifier execution_report) = refl
  book_step p (deliver qualifier other) = refl
  book_step p (deliver qualifier (incremental_refresh m)) =
      elim (Bool-cases (text_eq qualifier px_session_qualifier)) [
        | inl px ↦ rw px refl
        | inr not_px ↦ elim (Bool-cases (text_eq qualifier tx_session_qualifier)) [
          | inl tx ↦ rw (not_px, tx) refl
          | inr not_tx ↦ rw (not_px, not_tx) refl
        ]
      ]
  book_step p book_turn = refl
  book_step p trade_turn = refl
  book_step p stop_book = refl
  book_step p stop_trade = refl

  trade_step :
      (p : Pipeline OQ TQ B A R) (h : Happening D)
      → get_trade_queue (Pipeline.happen p h)
        ≡ run on_trade TradeBox.post_event (get_trade_queue p) (trade_events (h ∷ []))
  unfolding Pipeline.happen run happen
  trade_step p (deliver qualifier (full_refresh m)) = refl
  trade_step p (deliver qualifier execution_report) = refl
  trade_step p (deliver qualifier other) = refl
  trade_step p (deliver qualifier (incremental_refresh m)) =
      elim (Bool-cases (text_eq qualifier px_session_qualifier)) [
        | inl px ↦ rw (px, not_both qualifier px) refl
        | inr not_px ↦ elim (Bool-cases (text_eq qualifier tx_session_qualifier)) [
          | inl tx ↦ rw (not_px, tx) refl
          | inr not_tx ↦ rw (not_px, not_tx) refl
        ]
      ]
  trade_step p book_turn = refl
  trade_step p trade_turn = refl
  trade_step p stop_book = refl
  trade_step p stop_trade = refl

book_events-cons :
    {D : Type 0} (h : Happening D) (hs : List (Happening D))
    → book_events (h ∷ hs) ≡ book_events (h ∷ []) ++ book_events hs
book_events-cons (deliver qualifier m) hs =
    ap (λ (l : List (Event (MarketMessageVariant _))). l ++ book_events hs) (sym (append-nil _))
book_events-cons book_turn hs = refl
book_events-cons trade_turn hs = refl
book_events-cons stop_book hs = refl
book_events-cons stop_trade hs = refl

trade_events-cons :
    {D : Type 0} (h : Happening D) (hs : List (Happening D))
    → trade_events (h ∷ hs) ≡ trade_events (h ∷ []) ++ trade_events hs
trade_events-cons (deliver qualifier m) hs =
    ap (λ (l : List (Event (Increment _))). l ++ trade_events hs) (sym (append-nil _))
trade_events-cons book_turn hs = refl
trade_events-cons trade_turn hs = refl
trade_events-cons stop_book hs = refl
trade_events-cons stop_trade hs = refl

module _ {D OQ TQ B A R : Type 0} ⦃float : Float D⦄ ⦃bids : BtreeMap greater B⦄
    ⦃asks : BtreeMap less A⦄ ⦃ring : CircularBuffer Trade R⦄
    ⦃oq : ConcurrentQueue (MarketMessageVariant D) OQ⦄ ⦃tq : ConcurrentQueue (Increment D) TQ⦄ where
  -- In a run of the pipeline, the order book box's worker runs as it does alone.
  pub run-books :
      (p : Pipeline OQ TQ B A R) (hs : List (Happening D))
      → get_order_queue (Pipeline.run p hs)
        ≡ run visit OrderBookBox.post_event (get_order_queue p) (book_events hs)
  unfolding Pipeline.run
  run-books p [] = unfold run in refl
  run-books p (h ∷ hs) =
      run-books (Pipeline.happen p h) hs
      ∙ ap
          (λ (w : Worker (OrderBookBox.OrderBookBox B A) OQ).
            run visit OrderBookBox.post_event w (book_events hs))
          (book_step p h)
      ∙ sym (
          run-append visit OrderBookBox.post_event (get_order_queue p) (book_events (h ∷ []))
            (book_events hs))
      ∙ ap (run visit OrderBookBox.post_event (get_order_queue p)) (sym (book_events-cons h hs))

  pub run-trades :
      (p : Pipeline OQ TQ B A R) (hs : List (Happening D))
      → get_trade_queue (Pipeline.run p hs)
        ≡ run on_trade TradeBox.post_event (get_trade_queue p) (trade_events hs)
  unfolding Pipeline.run
  run-trades p [] = unfold run in refl
  run-trades p (h ∷ hs) =
      run-trades (Pipeline.happen p h) hs
      ∙ ap
          (λ (w : Worker (TradeBox.TradeBox R) TQ).
            run on_trade TradeBox.post_event w (trade_events hs))
          (trade_step p h)
      ∙ sym (
          run-append on_trade TradeBox.post_event (get_trade_queue p) (trade_events (h ∷ []))
            (trade_events hs))
      ∙ ap (run on_trade TradeBox.post_event (get_trade_queue p)) (sym (trade_events-cons h hs))
