-- ===== src/Ui/Layout.antt =====
-- The components that the boxes of src/ui/ build in their constructors, and the grid of
-- src/ui/app/ui_app.cpp, as trees of FTXUI's calls.
--
-- A component captures `this`: it reads the state of its box when it is drawn. `number` is the type of
-- the `float` that says where a box is scrolled to.
pub mod Shown
use trader_cpp.Base.{ℕ, Bool, List, [], ◌∷◌, map, Text, codes, if◌then◌else◌}
use trader_cpp.Core.OrderBook.{OrderBook}
use trader_cpp.Core.Trade.{Trade}
use trader_cpp.External.BtreeMap.{BtreeMap, greater, less}
use trader_cpp.External.CircularBuffer.{CircularBuffer}
use trader_cpp.External.Float.{Float}
use trader_cpp.External.Ftxui.{
  Decorator, bold, dim, border, frame, flex, focus_position_relative, height, Element, text,
  Direction, right, down, Color, blue, blue_light, yellow, yellow_light, SliderOption, Component,
  renderer, slider, horizontal, vertical, hbox, vbox,
}
use trader_cpp.External.Ftxui
use trader_cpp.Ui.Helpers.{pad}
use trader_cpp.Ui.LogBox.{LogBox}
use trader_cpp.Ui.OrderBookBox
use trader_cpp.Ui.OrderBookBox.{OrderBookBox}
use trader_cpp.Ui.TradeBox
use trader_cpp.Ui.TradeBox.{TradeBox}

-- The titles of `columns_`, padded to their widths.
unfoldable pub trade_header : List Text
unfolding pad
trade_header =
    pad (codes "Time") 17
    ∷ pad (codes "Side") 6
    ∷ pad (codes "Price") 13
    ∷ pad (codes "Size") 10
    ∷ pad (codes "ID") 13
    ∷ []

unfoldable pub log_header : List Text
unfolding pad
log_header =
    pad (codes "Time") 26
    ∷ pad (codes "Level") 7
    ∷ pad (codes "Thread") 7
    ∷ pad (codes "Message") 7
    ∷ []

-- What a focused part is drawn in.
abbrev pub emphasis : {F : Type 0} → Bool → Decorator F
emphasis focused = if focused then bold else dim

-- The row of the header, and the rows of a table.
unfoldable pub header_row : {F : Type 0} → List Text → Element F
header_row titles = vbox (hbox (map (λ t. Element.decorated bold (text t)) titles) ∷ [])

unfoldable pub table_rows : {F : Type 0} → List (List Text) → Element F
table_rows rows = vbox (map (λ cells. hbox (map text cells)) rows)

-- What the program's state is to the interface: the boxes, and the fields that their sliders move.
pub record Screen (F B A R : Type 0) : Type 0 where
  pub book_box : OrderBookBox B A
  pub book_scroll_y : F
  pub trade_box : TradeBox R
  pub trade_scroll_y : F
  pub log_box : LogBox
  pub log_scroll_x : F
  pub log_scroll_y : F

module _ {F S : Type 0} where
  -- The slider that scrolls a table down.
  unfoldable pub scrollbar_y : ℕ → (S → F) → Component F S
  scrollbar_y minimum scroll_y = slider (record {
    value = scroll_y;
    minimum = minimum;
    maximum = 10;
    increment = 1;
    direction = down;
    color_active = yellow;
    color_inactive = yellow_light;
  })

  unfoldable pub scrollbar_x : (S → F) → Component F S
  scrollbar_x scroll_x = slider (record {
    value = scroll_x;
    minimum = 0;
    maximum = 10;
    increment = 1;
    direction = right;
    color_active = blue;
    color_inactive = blue_light;
  })

  -- The constructors of `OrderBookBox` and `TradeBox` build the same component of a table.
  unfoldable pub table_component : List Text → (S → List (List Text)) → (S → F) → F → Component F S
  unfolding header_row table_rows scrollbar_y
  table_component header to_table scroll_y origin =
      let header_renderer : Component F S = renderer (λ s focused. header_row header) in
      let content : Component F S = renderer (λ s focused. Element.decorated flex (
        Element.decorated frame (
          Element.decorated (focus_position_relative origin (scroll_y s))
            (Element.decorated (emphasis focused) (table_rows (to_table s)))))) in
      let scroll_area =
        Component.decorated flex (horizontal (content ∷ scrollbar_y 1 scroll_y ∷ [])) in
      Component.decorated border (vertical (header_renderer ∷ scroll_area ∷ []))

  -- The constructor of `LogBox`.
  unfoldable pub log_component : (S → List Text) → (S → F) → (S → F) → Component F S
  unfolding header_row scrollbar_x scrollbar_y log_header
  log_component log_ring scroll_x scroll_y =
      let header_renderer : Component F S = renderer (λ s focused. header_row log_header) in
      let content : Component F S = renderer (λ s focused. Element.decorated flex (
        Element.decorated frame (
          Element.decorated (focus_position_relative (scroll_x s) (scroll_y s))
            (Element.decorated (emphasis focused) (vbox (map text (log_ring s))))))) in
      let corner : Component F S = renderer (λ s focused. text (codes "x")) in
      let scroll_area = vertical (
        Component.decorated flex (horizontal (content ∷ scrollbar_y 0 scroll_y ∷ []))
        ∷ horizontal (scrollbar_x scroll_x ∷ corner ∷ [])
        ∷ []) in
      Component.decorated border (vertical (header_renderer ∷ scroll_area ∷ []))

  -- The constructor of `TrafficBox`.
  unfoldable pub traffic_component : Component F S
  traffic_component = renderer (λ s focused.
      let body = text (codes (if focused then "Focused" else "Not Focused")) in
      Element.decorated (emphasis focused) (Element.decorated border (vbox (body ∷ []))))

  -- `Vertical({component | flex}) | flex`
  unfoldable pub cell : Component F S → Component F S
  cell component = Component.decorated flex (vertical (Component.decorated flex component ∷ []))

-- The constructor of `OrderBookBox`, for a box and its slider among the state of the screen.
unfoldable pub book_component :
    {D F B A S : Type 0} ⦃bids : BtreeMap greater B⦄ ⦃asks : BtreeMap less A⦄
    → Float D
    → Float F
    → (S → OrderBookBox B A)
    → (S → F)
    → Component F S
unfolding table_component OrderBookBox.header OrderBookBox.to_table
book_component float number box scroll_y =
    table_component OrderBookBox.header (λ s. OrderBookBox.to_table float (box s)) scroll_y
      (number.of_uint64 0)

-- The constructor of `TradeBox`.
unfoldable pub trade_component :
    {D F R S : Type 0} ⦃ring : CircularBuffer Trade R⦄
    → Float D
    → Float F
    → (S → TradeBox R)
    → (S → F)
    → Component F S
unfolding table_component trade_header TradeBox.to_table
trade_component float number box scroll_y =
    table_component trade_header (λ s. TradeBox.to_table float (box s)) scroll_y
      (number.of_uint64 0)

-- The grid that `App::start` hands to the loop of the screen.
unfoldable pub root :
    {D F B A R : Type 0} ⦃bids : BtreeMap greater B⦄ ⦃asks : BtreeMap less A⦄
    ⦃ring : CircularBuffer Trade R⦄
    → Float D
    → Float F
    → Component F (Screen F B A R)
unfolding book_component trade_component log_component traffic_component cell
root float number =
    let book = book_component float number (λ s. s.book_box) (λ s. s.book_scroll_y) in
    let trades = trade_component float number (λ s. s.trade_box) (λ s. s.trade_scroll_y) in
    let log = log_component (λ s. s.log_box.log_ring) (λ s. s.log_scroll_x) (λ s. s.log_scroll_y) in
    let row1 = horizontal (cell book ∷ cell trades ∷ []) in
    let row2 = horizontal (cell traffic_component ∷ cell log ∷ []) in
    vertical (Component.decorated flex row1 ∷ Component.decorated (height 6) row2 ∷ [])
