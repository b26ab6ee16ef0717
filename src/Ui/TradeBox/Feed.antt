-- ===== src/Ui/TradeBox/Feed.antt =====
-- The trades behind their queue: `poll_queue` of src/ui/trade_box.cpp.
use trader_cpp.Base.{◌≡◌, ap, sym, ◌∙◌, Option, List, [], ◌++◌, Exception, Attempt, keep_last}
use trader_cpp.External.CircularBuffer.{CircularBuffer}
use trader_cpp.External.ConcurrentQueue.{ConcurrentQueue}
use trader_cpp.External.Fix.{Increment}
use trader_cpp.External.Float.{Float}
use trader_cpp.Core.Trade.{Trade}
use trader_cpp.Ui.Polling.{Event, started, sent, digest}
use trader_cpp.Ui.Polling.Order.{run-HasDigested}
use trader_cpp.Ui.Polling.Simulation.{digest-simulates}
use trader_cpp.Ui.TradeBox.{TradeBox, make, max_lines, on_trade, post_event, poll_queue}
use trader_cpp.Ui.TradeBox.Trades.{
  IsValid, Recorded-IsValid, make-IsValid, read_trades, on_trade-Recorded,
}

-- Nothing is posted on a list of trades.
abbrev pub keep : List Trade → List Trade
keep ts = ts

-- What a message makes of the trades that are shown.
pub follow : {D : Type 0} ⦃float : Float D⦄ → Increment D → List Trade → Attempt (List Trade)
follow m ts = (keep_last max_lines (ts ++ (read_trades m).0), (read_trades m).1)

module _ {R : Type 0} ⦃ring : CircularBuffer Trade R⦄ where
  record Shows (box : TradeBox R) (ts : List Trade) : Type 0 where
    pub valid : IsValid box
    pub seen : ring.contents box.trade_ring ≡ ts

  post_event-Shows :
      (box : TradeBox R) (ts : List Trade) → Shows box ts → Shows (post_event box) (keep ts)
  unfolding post_event
  post_event-Shows box ts h = record {
    valid = record { capacity = h.valid.capacity; bounded = h.valid.bounded };
    seen = h.seen;
  }

  make-Shows : Shows make []
  unfolding make
  make-Shows = record { valid = make-IsValid; seen = ring.contents-make max_lines }

module _ {D R : Type 0} ⦃float : Float D⦄ ⦃ring : CircularBuffer Trade R⦄ where
  on_trade-Shows :
      (m : Increment D) (box : TradeBox R) (ts : List Trade)
      → Shows box ts
      → Shows (on_trade m box).0 (follow m ts).0 × ((on_trade m box).1 ≡ (follow m ts).1)
  unfolding follow
  on_trade-Shows m box ts h =
      let r = on_trade-Recorded m box h.valid in
      let from = λ (l : List Trade). keep_last max_lines (l ++ (read_trades m).0) in
      (
        record {
          valid = Recorded-IsValid box (read_trades m) (on_trade m box) r;
          seen = r.kept ∙ ap from h.seen;
        },
        r.ended,
      )

module _ {D R Q : Type 0} ⦃float : Float D⦄ ⦃ring : CircularBuffer Trade R⦄
    ⦃queue : ConcurrentQueue (Increment D) Q⦄ where
  -- However the worker's turns interleave with the messages that the trade session sends and with
  -- the request to stop, from a new box and an empty queue: the messages sent are those the worker
  -- has taken followed by those that wait; the ring holds at most 100 trades; and it is what the
  -- taken messages make of it in the order of sending, each keeping the last 100 trades, up to one
  -- that cannot be read, whose exception the worker keeps.
  pub poll_queue-keeps :
      (empty : Q) (es : List (Event (Increment D)))
      → queue.contents empty ≡ []
      → let start : TradeBox R = make in
        let w = poll_queue (started start empty) es in
        (taken : List (Increment D)) × (sent es ≡ taken ++ queue.contents w.queue)
        × IsValid w.state
        × (let end = digest follow keep [] taken in
            (ring.contents w.state.trade_ring ≡ end.0) × (w.exception ≡ end.1))
  unfolding poll_queue
  poll_queue-keeps empty es e =
      let h = run-HasDigested on_trade post_event make empty es e in
      let (shown, same) =
        digest-simulates Shows on_trade post_event follow keep post_event-Shows on_trade-Shows
          h.taken make [] make-Shows in
      let state = ap (λ (r : TradeBox R × Option Exception). r.0) h.digested in
      let exception = ap (λ (r : TradeBox R × Option Exception). r.1) h.digested in
      (
        h.taken,
        h.order,
        rw (← state) shown.valid,
        (
          sym (ap (λ (b : TradeBox R). ring.contents b.trade_ring) state) ∙ shown.seen,
          sym exception ∙ same,
        ),
      )
