-- ===== src/Ui/OrderBookBox/Feed.antt =====
-- The order book behind its queue: `poll_queue` of src/ui/order_book_box.cpp.
use trader_cpp.Base.{
  ◌≡◌, refl, ap, sym, ◌∙◌, Bool, Option, List, [], ◌++◌, foldl, Exception, Attempt,
}
use trader_cpp.External.BtreeMap.{BtreeMap, greater, less}
use trader_cpp.External.ConcurrentQueue.{ConcurrentQueue}
use trader_cpp.External.Float.{Float}
use trader_cpp.Binance.MarketMessageVariant.{MarketMessageVariant, snapshot, increment}
use trader_cpp.Core.OrderBook.View.{Depths, apply_update, view}
use trader_cpp.Core.OrderBook.Snapshots.{read_snapshot, replace_view, apply_snapshot-refines}
use trader_cpp.Core.OrderBook.Increments.{read_increment, apply_increment-refines}
use trader_cpp.Ui.Polling.{Event, started, sent, digest}
use trader_cpp.Ui.Polling.Order.{run-HasDigested}
use trader_cpp.Ui.Polling.Simulation.{digest-simulates}
use trader_cpp.Ui.OrderBookBox.{OrderBookBox, visit, post_event, poll_queue}

-- Nothing is posted on an abstract book.
abbrev pub keep : Depths → Depths
keep d = d

module _ {D : Type 0} ⦃float : Float D⦄ (clear : Bool) where
  -- What a message makes of an abstract book.
  pub follow : MarketMessageVariant D → Depths → Attempt Depths
  follow (snapshot m) d = (replace_view (read_snapshot m).0 d, (read_snapshot m).1)
  follow (increment m) d =
      (foldl apply_update d (read_increment clear m).0, (read_increment clear m).1)

module _ {B A : Type 0} ⦃bids : BtreeMap greater B⦄ ⦃asks : BtreeMap less A⦄ where
  -- A box whose book is seen as the abstract one.
  pub record Shows (clear : Bool) (box : OrderBookBox B A) (d : Depths) : Type 0 where
    pub seen : view box.core_book ≡ d
    pub same_clear : box.is_book_clear_needed ≡ clear

  pub post_event-Shows :
      (clear : Bool) (box : OrderBookBox B A) (d : Depths)
      → Shows clear box d
      → Shows clear (post_event box) (keep d)
  unfolding post_event
  post_event-Shows clear box d h = record { seen = h.seen; same_clear = h.same_clear }

module _ {D B A : Type 0} ⦃float : Float D⦄ ⦃bids : BtreeMap greater B⦄
    ⦃asks : BtreeMap less A⦄ where
  pub visit-Shows :
      (clear : Bool) (m : MarketMessageVariant D) (box : OrderBookBox B A) (d : Depths)
      → Shows clear box d
      → Shows clear (visit m box).0 (follow clear m d).0 × ((visit m box).1 ≡ (follow clear m d).1)
  unfolding visit follow
  visit-Shows clear (snapshot m) box d h =
      let (same, end) = apply_snapshot-refines m box.core_book in
      let replaced = ap (replace_view (read_snapshot m).0) h.seen in
      (record { seen = same ∙ replaced; same_clear = h.same_clear }, end)
  visit-Shows clear (increment m) box d h =
      let (same, end) = apply_increment-refines box.is_book_clear_needed m box.core_book in
      let changes = λ (c : Bool) (v : Depths). foldl apply_update v (read_increment c m).0 in
      (
        record {
          seen =
              same
              ∙ ap (λ (c : Bool). changes c (view box.core_book)) h.same_clear
              ∙ ap (changes clear) h.seen;
          same_clear = h.same_clear;
        },
        end ∙ ap (λ (c : Bool). (read_increment c m).1) h.same_clear,
      )

module _ {D B A Q : Type 0} ⦃float : Float D⦄ ⦃bids : BtreeMap greater B⦄ ⦃asks : BtreeMap less A⦄
    ⦃queue : ConcurrentQueue (MarketMessageVariant D) Q⦄ where
  -- However the worker's turns interleave with the messages that the price session sends and with
  -- the request to stop, from a queue that is empty at first: the messages sent are those the worker
  -- has taken followed by those that wait; and the book is what the taken ones make of it, snapshots
  -- and increments in the order of sending, up to one that cannot be read, whose exception the
  -- worker keeps.
  pub poll_queue-follows :
      (box : OrderBookBox B A) (empty : Q) (es : List (Event (MarketMessageVariant D)))
      → queue.contents empty ≡ []
      → let w = poll_queue (started box empty) es in
        (taken : List (MarketMessageVariant D)) × (sent es ≡ taken ++ queue.contents w.queue)
        × (let end = digest (follow box.is_book_clear_needed) keep (view box.core_book) taken in
            (view w.state.core_book ≡ end.0) × (w.exception ≡ end.1))
  unfolding poll_queue
  poll_queue-follows box empty es e =
      let h = run-HasDigested visit post_event box empty es e in
      let clear = box.is_book_clear_needed in
      let (shown, same) =
        digest-simulates (Shows clear) visit post_event (follow clear) keep (post_event-Shows clear)
          (visit-Shows clear) h.taken box (view box.core_book)
          (record { seen = refl; same_clear = refl }) in
      (
        h.taken,
        h.order,
        (
          sym (ap (λ (r : OrderBookBox B A × Option Exception). view r.0.core_book) h.digested)
              ∙ shown.seen,
          sym (ap (λ (r : OrderBookBox B A × Option Exception). r.1) h.digested) ∙ same,
        ),
      )
