-- ===== src/Program/Locks/Shown.antt =====
-- What the screen's thread reads of the boxes of src/ui/ while their workers are in the middle of a call.
use mathlib.Core.Path.{subst}
use trader_cpp.Base.{◌≡◌, refl, ap, ◌∙◌, Bool, List, [], ◌∷◌, ◌++◌, map, Text, Attempt, All, done}
use trader_cpp.External.BtreeMap.{BtreeMap, greater, less}
use trader_cpp.External.CircularBuffer.{CircularBuffer}
use trader_cpp.External.Float.{Float}
use trader_cpp.External.Fix.{Increment}
use trader_cpp.Binance.MarketMessageVariant.{MarketMessageVariant}
use trader_cpp.Core.OrderBook.{OrderBook, to_vector}
use trader_cpp.Core.Trade.{Trade}
use trader_cpp.Program.Locks.{Call, whole, Turn, run, before}
use trader_cpp.Program.Locks.Atomic.{after, AreWhole, run-AreWhole}
use trader_cpp.Program.Locks.Calls.{
  on_trade_turns, whole-on_trade_turns, message_turns, apply_message, whole-message_turns,
  on_log_lines_turns, whole-on_log_lines_turns,
}
use trader_cpp.Ui.LogBox.{LogBox, on_log_lines}
use trader_cpp.Ui.TradeBox.{TradeBox, on_trade, to_table}

split-map :
    {M C : Type 0} (f : M → C) (ms : List M) (xs ys : List C)
    → map f ms ≡ xs ++ ys
    → (made : List M) × (others : List M) × (ms ≡ made ++ others) × (xs ≡ map f made)
split-map f ms [] ys e = ([], ms, refl, refl)
split-map f [] (x ∷ xs) ys e = cc
split-map f (m ∷ ms) (x ∷ xs) ys e =
    let (made, others, p, q) = split-map f ms xs ys (cc) in (m ∷ made, others, ap (◌∷◌ m) p, cc)

-- Calls one after the other, each of them whole.
abbrev pub apply_all : {M S : Type 0} → (M → S → Attempt S) → List M → S → S
apply_all call [] s = s
apply_all call (m ∷ ms) s = apply_all call ms (call m s).0

-- All that is read in one call of the screen's thread is read of the state that some of the first calls
-- leave.
abbrev pub ReadsWhole :
    {M S V : Type 0} → (M → S → Attempt S) → (S → V) → List M → S → List S → Type 0
ReadsWhole {M} call view ms s seen =
    (made : List M) × (others : List M) × (ms ≡ made ++ others)
    × All (λ x. view x ≡ view (apply_all call made s)) seen

module _ {M S : Type 0} (turns : M → Call S) (call : M → S → Attempt S)
    (same : (m : M) (s : S) → whole (turns m) s ≡ call m s) where
  after-map : (ms : List M) (s : S) → after (map turns ms) s ≡ apply_all call ms s
  unfolding after
  after-map [] s = refl
  after-map (m ∷ ms) s =
      after-map ms (whole (turns m) s).0 ∙ ap (λ r. apply_all call ms r.0) (same m s)

  module _ {V : Type 0} (view : S → V) (ms : List M) (s : S) where
    view-All : (x : S) (seen : List S) → All (λ y. y ≡ x) seen → All (λ y. view y ≡ view x) seen
    view-All x [] h = tt
    view-All x (y ∷ seen) (e, h) = (ap view e, view-All x seen h)

    read_whole : (seen : List S) → AreWhole s (map turns ms) seen → ReadsWhole call view ms s seen
    read_whole seen h =
        let (made, others, p, q) = split-map turns ms h.made h.others h.in_order in
        let e : after h.made s ≡ apply_all call made s =
          ap (λ cs. after cs s) q ∙ after-map made s in
        (
          made,
          others,
          p,
          view-All (apply_all call made s) seen (subst (λ x. All (λ y. y ≡ x) seen) e h.same),
        )

    readings-ReadsWhole :
        (readings : List (List S))
        → All (AreWhole s (map turns ms)) readings
        → All (ReadsWhole call view ms s) readings
    readings-ReadsWhole [] h = tt
    readings-ReadsWhole (seen ∷ readings) (h, hs) =
        (read_whole seen h, readings-ReadsWhole readings hs)

    reads-whole :
        (ts : List Turn)
        → All (ReadsWhole call view ms s) (run (before s (map turns ms)) ts).readings
    reads-whole ts = readings-ReadsWhole _ (run-AreWhole s (map turns ms) ts)

abbrev pub add_lines : List Text → LogBox → Attempt LogBox
add_lines lines box = (on_log_lines lines box, done)

module _ {D B A R : Type 0} ⦃float : Float D⦄ ⦃bids : BtreeMap greater B⦄ ⦃asks : BtreeMap less A⦄
    ⦃ring : CircularBuffer Trade R⦄ where
  -- However the turns of the calls fall between each other: all that the screen's thread reads of the
  -- order book while it has the mutex is that of a book after some of the first messages, each of them
  -- applied whole, as are the rows; likewise the table of the trades, and the lines of the log.
  pub draws-whole :
      (is_book_clear_needed : Bool) (book : OrderBook B A) (msgs : List (MarketMessageVariant D))
      (box : TradeBox R) (trades : List (Increment D)) (log : LogBox) (lines : List (List Text))
      (ts : List Turn)
      → All
          (ReadsWhole (apply_message is_book_clear_needed) to_vector msgs book)
          (run (before book (map (message_turns is_book_clear_needed) msgs)) ts).readings
        × All
            (ReadsWhole on_trade (to_table float) trades box)
            (run (before box (map on_trade_turns trades)) ts).readings
        × All
            (ReadsWhole add_lines (λ b. b.log_ring) lines log)
            (run (before log (map on_log_lines_turns lines)) ts).readings
  draws-whole c book msgs box trades log lines ts = (
    reads-whole (message_turns c) (apply_message c) (whole-message_turns c) to_vector msgs book ts,
    reads-whole on_trade_turns on_trade whole-on_trade_turns (to_table float) trades box ts,
    reads-whole on_log_lines_turns add_lines whole-on_log_lines_turns (λ b. b.log_ring) lines log
        ts,
  )
