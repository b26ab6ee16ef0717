-- ===== src/External/Ftxui.antt =====
-- FTXUI, as far as the interface builds its values: elements, and components that draw elements when
-- they are asked to. Both are trees of the calls that made them.
--
-- `D` is a number that places the view, and `S` the state that a component captures by reference, and so
-- reads when it is drawn.
use trader_cpp.Base.{ℕ, ◌+◌, Bool, List, [], ◌∷◌, ◌++◌, Text}

pub data Decorator (D : Type 0) : Type 0 where
  bold dim border frame flex : Decorator D
  focus_position_relative : D → D → Decorator D
  -- `size(HEIGHT, EQUAL, n)`
  height : ℕ → Decorator D

mutual
  pub data Element (D : Type 0) : Type 0 where
    text : Text → Element D
    row column : Elements D → Element D
    decorated : Decorator D → Element D → Element D

  pub data Elements (D : Type 0) : Type 0 where
    no_element : Elements D
    and_element : Element D → Elements D → Elements D

pub data Direction : Type 0 where
  right down : Direction

pub data Color : Type 0 where
  blue blue_light yellow yellow_light : Color

-- The bounds and the step are counted in tenths.
pub record SliderOption (D S : Type 0) : Type 0 where
  pub value : S → D
  pub minimum : ℕ
  pub maximum : ℕ
  pub increment : ℕ
  pub direction : Direction
  pub color_active : Color
  pub color_inactive : Color

mutual
  pub data Component (D S : Type 0) : Type 0 where
    -- A renderer draws for its state and whether it has the focus.
    renderer : (S → Bool → Element D) → Component D S
    slider : SliderOption D S → Component D S
    horizontals verticals : Components D S → Component D S
    decorated : Decorator D → Component D S → Component D S

  pub data Components (D S : Type 0) : Type 0 where
    no_component : Components D S
    and_component : Component D S → Components D S → Components D S

abbrev pub elements : {D : Type 0} → List (Element D) → Elements D
elements [] = no_element
elements (e ∷ es) = and_element e (elements es)

abbrev pub hbox : {D : Type 0} → List (Element D) → Element D
hbox es = row (elements es)

abbrev pub vbox : {D : Type 0} → List (Element D) → Element D
vbox es = column (elements es)

abbrev pub components : {D S : Type 0} → List (Component D S) → Components D S
components [] = no_component
components (c ∷ cs) = and_component c (components cs)

abbrev pub horizontal : {D S : Type 0} → List (Component D S) → Component D S
horizontal cs = horizontals (components cs)

abbrev pub vertical : {D S : Type 0} → List (Component D S) → Component D S
vertical cs = verticals (components cs)

-- The texts in an element, in the order of the tree.
unfoldable mutual
  pub texts : {D : Type 0} → Element D → List Text
  texts (text s) = s ∷ []
  texts (row es) = texts_all es
  texts (column es) = texts_all es
  texts (decorated d e) = texts e

  pub texts_all : {D : Type 0} → Elements D → List Text
  texts_all no_element = []
  texts_all (and_element e es) = texts e ++ texts_all es

-- The texts in what the renderers of a component draw, in the order of the tree. `focused` tells for
-- the place of each renderer, the last step first, whether it has the focus.
unfoldable mutual
  pub shown : {D S : Type 0} → (List ℕ → Bool) → List ℕ → Component D S → S → List Text
  shown focused place (renderer draw) s = texts (draw s (focused place))
  shown focused place (slider option) s = []
  shown focused place (horizontals cs) s = shown_all focused place 0 cs s
  shown focused place (verticals cs) s = shown_all focused place 0 cs s
  shown focused place (decorated d c) s = shown focused place c s

  pub shown_all : {D S : Type 0} → (List ℕ → Bool) → List ℕ → ℕ → Components D S → S → List Text
  shown_all focused place i no_component s = []
  shown_all focused place i (and_component c cs) s =
      shown focused (i ∷ place) c s ++ shown_all focused place (i + 1) cs s
