-- ===== src/Ui/Layout/Shown.antt =====
-- What the grid of src/ui/app/ui_app.cpp shows of the boxes.
use trader_cpp.Base.{
  ℕ, ◌≡◌, refl, ap, ◌∙◌, Bool, List, [], ◌∷◌, ◌++◌, map, Text, codes, append-nil, append_assoc,
  if◌then◌else◌,
}
use trader_cpp.Core.Trade.{Trade}
use trader_cpp.External.BtreeMap.{BtreeMap, greater, less}
use trader_cpp.External.CircularBuffer.{CircularBuffer}
use trader_cpp.External.Float.{Float}
use trader_cpp.External.Ftxui.{bold, Element, text, texts, texts_all, elements, hbox, shown}
use trader_cpp.Ui.Layout.{
  book_component, trade_component, Screen, header_row, table_rows, table_component, log_component,
  traffic_component, scrollbar_x, scrollbar_y, trade_header, log_header, root, cell,
}
use trader_cpp.Ui.OrderBookBox
use trader_cpp.Ui.TradeBox

abbrev pub flatten : List (List Text) → List Text
flatten [] = []
flatten (l ∷ ls) = l ++ flatten ls

module _ (F : Type 0) where
  abbrev cells_of : List Text → List (Element F)
  cells_of = map text

  abbrev titles_of : List Text → List (Element F)
  titles_of = map (λ t. Element.decorated bold (text t))

  texts-cells : (cells : List Text) → texts_all (elements (cells_of cells)) ≡ cells
  unfolding texts
  texts-cells [] = refl
  texts-cells (c ∷ cells) = ap (◌∷◌ c) (texts-cells cells)

  texts-titles : (titles : List Text) → texts_all (elements (titles_of titles)) ≡ titles
  unfolding texts
  texts-titles [] = refl
  texts-titles (t ∷ titles) = ap (◌∷◌ t) (texts-titles titles)

  texts-rows :
      (rows : List (List Text))
      → texts_all (elements (map (λ cells. hbox (cells_of cells)) rows)) ≡ flatten rows
  unfolding texts
  texts-rows [] = refl
  texts-rows (cells ∷ rows) = rw (texts-cells cells, texts-rows rows) refl

  texts-header_row : (titles : List Text) → texts (header_row {F = F} titles) ≡ titles
  unfolding texts header_row
  texts-header_row titles = append-nil _ ∙ texts-titles titles

  texts-table_rows : (rows : List (List Text)) → texts (table_rows {F = F} rows) ≡ flatten rows
  unfolding texts table_rows
  texts-table_rows rows = texts-rows rows

-- The parts of a container.
one : {a x : List Text} → a ≡ x → a ++ [] ≡ x
one h = append-nil _ ∙ h

two : {a b x y : List Text} → a ≡ x → b ≡ y → a ++ (b ++ []) ≡ x ++ y
two h k = rw (h, k, append-nil) refl

module _ {F S : Type 0} (focused : List ℕ → Bool) (place : List ℕ) (s : S) where
  shown-table_component :
      (header : List Text) (to_table : S → List (List Text)) (scroll_y : S → F) (origin : F)
      → shown focused place (table_component header to_table scroll_y origin) s
        ≡ header ++ flatten (to_table s)
  unfolding shown table_component scrollbar_y texts
  shown-table_component header to_table scroll_y origin =
      two (texts-header_row F header) (one (texts-table_rows F (to_table s)))

  shown-log_component :
      (log_ring : S → List Text) (scroll_x scroll_y : S → F)
      → shown focused place (log_component log_ring scroll_x scroll_y) s
        ≡ log_header ++ (log_ring s ++ (codes "x" ∷ []))
  unfolding shown log_component scrollbar_x scrollbar_y texts
  shown-log_component log_ring scroll_x scroll_y =
      two (texts-header_row F log_header) (two (one (texts-cells F (log_ring s))) refl)

-- The place of the traffic box in the grid.
abbrev pub traffic_place : List ℕ
traffic_place = 0 ∷ 0 ∷ 1 ∷ []

module _ {D F B A R : Type 0} ⦃bids : BtreeMap greater B⦄ ⦃asks : BtreeMap less A⦄
    ⦃ring : CircularBuffer Trade R⦄ where
  -- Whichever part has the focus, the grid shows, in this order and nothing else: the titles of the book and
  -- its rows, the titles of the trades and their rows, whether the traffic box has the focus, the titles of the
  -- log, its lines, and the corner of its two sliders.
  pub root-shown :
      (float : Float D) (number : Float F) (focused : List ℕ → Bool) (s : Screen F B A R)
      → shown focused [] (root float number) s
        ≡ (OrderBookBox.header ++ flatten (OrderBookBox.to_table float s.book_box))
          ++ ((trade_header ++ flatten (TradeBox.to_table float s.trade_box))
              ++ (codes (if focused traffic_place then "Focused" else "Not Focused")
                  ∷ (log_header ++ (s.log_box.log_ring ++ (codes "x" ∷ [])))))
  unfolding shown root book_component trade_component cell traffic_component texts
  root-shown float number focused s =
      two
        (two
          (one (
            shown-table_component focused (0 ∷ 0 ∷ 0 ∷ []) s OrderBookBox.header
              (λ s. OrderBookBox.to_table float s.book_box) (λ s. s.book_scroll_y)
              (number.of_uint64 0)))
          (one (
            shown-table_component focused (0 ∷ 1 ∷ 0 ∷ []) s trade_header
              (λ s. TradeBox.to_table float s.trade_box) (λ s. s.trade_scroll_y)
              (number.of_uint64 0))))
        (two {a = codes (if focused traffic_place then "Focused" else "Not Focused") ∷ []} refl (
          one (
            shown-log_component focused (0 ∷ 1 ∷ 1 ∷ []) s (λ s. s.log_box.log_ring)
              (λ s. s.log_scroll_x) (λ s. s.log_scroll_y))))
      ∙ append_assoc (OrderBookBox.header ++ flatten (OrderBookBox.to_table float s.book_box))
          (trade_header ++ flatten (TradeBox.to_table float s.trade_box)) _
