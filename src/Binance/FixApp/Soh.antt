-- ===== src/Binance/FixApp/Soh.antt =====
-- `replace_soh` of src/binance/fix_app.cpp: a message as it is logged.
use trader_cpp.Base.{
  ℕ, ◌≡◌, ◌≢◌, refl, ap, ◌∙◌, List, [], ◌∷◌, ◌++◌, Text, All, map, if◌then◌else◌, ◌==◌, arith,
}
use trader_cpp.Binance.FixApp.{soh, pop_soh, replace_soh}

-- A field `tag=value`: without the separator.
abbrev pub IsField : Text → Type 0
IsField = All (λ c. c ≢ soh)

-- One field or more, with a separator between.
abbrev pub join_fields : ℕ → Text → List Text → Text
join_fields sep f [] = f
join_fields sep f (g ∷ fs) = f ++ sep ∷ join_fields sep g fs

abbrev replace : ℕ → ℕ
replace c = if c == soh then b'|' else c

pop_soh-snoc : (s : Text) → pop_soh (s ++ soh ∷ []) ≡ s
unfolding pop_soh
pop_soh-snoc [] = refl
pop_soh-snoc (c ∷ []) = refl
pop_soh-snoc (c ∷ d ∷ s) = ap (◌∷◌ c) (pop_soh-snoc (d ∷ s))

map-field : (f rest : Text) → IsField f → map replace (f ++ rest) ≡ f ++ map replace rest
map-field [] rest h = refl
map-field (c ∷ f) rest h = ground (arith, h.0, map-field f rest h.1)

map-clean : (f : Text) → IsField f → map replace f ≡ f
map-clean [] h = refl
map-clean (c ∷ f) h = ground (arith, h.0, map-clean f h.1)

map-join_fields :
    (f : Text) (fs : List Text)
    → IsField f
    → All IsField fs
    → map replace (join_fields soh f fs) ≡ join_fields b'|' f fs
map-join_fields f [] h hs = map-clean f h
map-join_fields f (g ∷ fs) h hs =
    map-field f (soh ∷ join_fields soh g fs) h
    ∙ ap (λ (t : Text). f ++ b'|' ∷ t) (map-join_fields g fs hs.0 hs.1)

-- Of a message of one field or more, with SOH behind each, what is logged is the fields with `|`
-- between, and none behind the last.
pub replace_soh-join_fields :
    (f : Text) (fs : List Text)
    → IsField f
    → All IsField fs
    → replace_soh (join_fields soh f fs ++ soh ∷ []) ≡ join_fields b'|' f fs
unfolding replace_soh
replace_soh-join_fields f fs h hs =
    ap (map replace) (pop_soh-snoc (join_fields soh f fs)) ∙ map-join_fields f fs h hs
