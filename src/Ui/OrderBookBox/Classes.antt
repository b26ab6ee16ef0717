-- ===== src/Ui/OrderBookBox/Classes.antt =====
-- The order book box of src/ui/order_book_box.cpp up to how its maps hold the levels, and how often it
-- has posted.
use mathlib.Core.Bool.{Bool-set}
use mathlib.Core.HLevel.{Π_set}
use mathlib.Core.List as Lists
use mathlib.Core.Option as Options
use mathlib.Core.Quot
use mathlib.Core.Quot.{Quot, Quot-set}
use native.Mathlib.Nat.{ℕ_set}
use trader_cpp.Base.{◌≡◌, refl, sym, ap, ◌∙◌, Bool, Option, List, Text, Exception}
use trader_cpp.External.BtreeMap.{BtreeMap, greater, less}
use trader_cpp.External.Float.{Float}
use trader_cpp.Binance.MarketMessageVariant.{MarketMessageVariant}
use trader_cpp.Core.OrderBook.View.{Depth, Depths, view}
use trader_cpp.Core.OrderBook.Vector.{to_vector_congr}
use trader_cpp.Ui.OrderBookBox.{OrderBookBox, visit, post_event, to_table}
use trader_cpp.Ui.OrderBookBox.Feed.{Shows, follow, keep, visit-Shows, post_event-Shows}
use trader_cpp.Ui.Polling.{digest}
use trader_cpp.Ui.Polling.Simulation.{digest-simulates}

module _ {B A : Type 0} ⦃bids : BtreeMap greater B⦄ ⦃asks : BtreeMap less A⦄ where
  abbrev pub SameBook : OrderBookBox B A → OrderBookBox B A → Type 0
  SameBook b c =
      (view b.core_book ≡ view c.core_book) × (b.is_book_clear_needed ≡ c.is_book_clear_needed)

Depth-set : IsSet Depth
Depth-set = Π_set λ _. Options.is_set ℕ_set

-- A box of which only the abstract book and the flag can be told.
abbrev pub Class : (B A : Type 0) ⦃bids : BtreeMap greater B⦄ ⦃asks : BtreeMap less A⦄ → Type 0
Class B A = Quot (SameBook {B = B} {A = A})

module _ {B A : Type 0} ⦃bids : BtreeMap greater B⦄ ⦃asks : BtreeMap less A⦄ where
  abbrev pub class_of : OrderBookBox B A → Class B A
  class_of box = Quot.mk box

  bid_depth : Class B A → Depth
  bid_depth =
      Quot.lift Depth-set (λ b. (view b.core_book).bid) λ b c h. ap (λ (d : Depths). d.bid) h.0

  ask_depth : Class B A → Depth
  ask_depth =
      Quot.lift Depth-set (λ b. (view b.core_book).ask) λ b c h. ap (λ (d : Depths). d.ask) h.0

  clear_needed : Class B A → Bool
  clear_needed = Quot.lift Bool-set (λ b. b.is_book_clear_needed) λ b c h. h.1

  -- Two boxes of a class are alike.
  class_of_exact : (b c : OrderBookBox B A) → class_of b ≡ class_of c → SameBook b c
  unfolding bid_depth ask_depth clear_needed
  class_of_exact b c e =
      (λ i. record { bid = ap bid_depth e i; ask = ap ask_depth e i }, ap clear_needed e)

module _ {D B A : Type 0} ⦃bids : BtreeMap greater B⦄ ⦃asks : BtreeMap less A⦄
    (float : Float D) where
  to_table_congr : (b c : OrderBookBox B A) → SameBook b c → to_table float b ≡ to_table float c
  unfolding to_table
  to_table_congr b c h = rw (to_vector_congr b.core_book c.core_book h.0) refl

  -- What is shown of a class.
  pub table_of : Class B A → List (List Text)
  table_of =
      Quot.lift (Lists.is_set (Lists.is_set (Lists.is_set ℕ_set))) (to_table float) to_table_congr

module _ {D B A : Type 0} ⦃float : Float D⦄ ⦃bids : BtreeMap greater B⦄
    ⦃asks : BtreeMap less A⦄ where
  digest-Shows :
      (ms : List (MarketMessageVariant D)) (b : OrderBookBox B A)
      → let clear = b.is_book_clear_needed in
        let end = digest (follow clear) keep (view b.core_book) ms in
        Shows clear (digest visit post_event b ms).0 end.0
        × ((digest visit post_event b ms).1 ≡ end.1)
  digest-Shows ms b =
      let clear = b.is_book_clear_needed in
      digest-simulates (Shows clear) visit post_event (follow clear) keep (post_event-Shows clear)
        (visit-Shows clear) ms b (view b.core_book) (record { seen = refl; same_clear = refl })

  -- Let two boxes be of one class, whatever messages have filled their maps, and in whatever order.
  -- After any messages, up to one that throws, they are of one class again, they have kept the same
  -- exception, if any, and they show the same table, which is that of their class.
  pub digest-Class :
      (ms : List (MarketMessageVariant D)) (b c : OrderBookBox B A)
      → class_of b ≡ class_of c
      → let (b', x) = digest visit post_event b ms in
        let (c', y) = digest visit post_event c ms in
        (class_of b' ≡ class_of c') × (x ≡ y) × (to_table float b' ≡ table_of float (class_of c'))
  unfolding table_of
  digest-Class ms b c e =
      let (same, same_flag) = class_of_exact b c e in
      let (shown_b, end_b) = digest-Shows ms b in
      let (shown_c, end_c) = digest-Shows ms c in
      let ends : digest (follow b.is_book_clear_needed) keep (view b.core_book) ms
          ≡ digest (follow c.is_book_clear_needed) keep (view c.core_book) ms =
        λ i. digest (follow (same_flag i)) keep (same i) ms in
      let alike : SameBook (digest visit post_event b ms).0 (digest visit post_event c ms).0 = (
        shown_b.seen ∙ ap (λ (r : Depths × Option Exception). r.0) ends ∙ sym shown_c.seen,
        shown_b.same_clear ∙ same_flag ∙ sym shown_c.same_clear,
      ) in
      (
        Quot.sound alike,
        end_b ∙ ap (λ (r : Depths × Option Exception). r.1) ends ∙ sym end_c,
        to_table_congr float _ _ alike,
      )
