-- ===== src/Utils/Double.antt =====
-- src/utils/double.h: ticks, and numbers as texts.
pub mod Zeros
pub mod Commas
use trader_cpp.Base.{
  ℕ, zero, suc, ◌+◌, ◌-◌, ◌%◌, ◌^◌, ◌<◌, Bool, ◌&&◌, true, false, Option, none, some, List, [], ◌∷◌,
  ◌++◌, Text, length, take, drop, get_elem?, ltb, ◌==◌, if◌then◌else◌,
}
use trader_cpp.External.Float.{Float}

-- `toUint64(value, ticks_per_unit)`: the callers pass a `uint64_t`, converted to a `double`.
unfoldable pub to_uint64_ticks : {D : Type 0} ⦃f : Float D⦄ → D → ℕ → ℕ
to_uint64_ticks ⦃f⦄ value ticks_per_unit = f.to_uint64 (f.mul value (f.of_uint64 ticks_per_unit))

-- `s.find('.')`
unfoldable pub find_dot : Text → Option ℕ
find_dot [] = none
find_dot (c ∷ s) = elim (c == b'.') [
  | true ↦ some 0
  | false ↦ elim (find_dot s) [ none ↦ none | some i ↦ some (suc i) ]
]

-- `s[i] == '0'`
abbrev pub is_zero : Option ℕ → Bool
is_zero none = false
is_zero (some c) = c == b'0'

abbrev pub zero_at : Text → ℕ → Bool
zero_at s i = is_zero (get_elem? s i)

-- `while (end > dot_pos && s[end] == '0') --end;`
unfoldable pub skip_zeros : Text → ℕ → ℕ → ℕ
skip_zeros s dot_pos zero = zero
skip_zeros s dot_pos (suc e) =
    let rest = skip_zeros s dot_pos e in
    if ltb dot_pos (suc e) && zero_at s (suc e) then rest else suc e

-- `s.erase(end + 1)` after the loop, where `end` is one less if it is the point. (`size_t` wraps.)
unfoldable pub erase_zeros : Text → ℕ → Text
unfolding skip_zeros
erase_zeros s dot_pos =
    let end = skip_zeros s dot_pos (length s - 1) in
    let last = if end == dot_pos then (end + 2 ^ 64 - 1) % 2 ^ 64 else end in
    take ((last + 1) % 2 ^ 64) s

-- The trailing zeros of a text with a point, and the point if nothing is left behind it.
unfoldable pub trim_zeros : Text → Text
unfolding erase_zeros
trim_zeros s = elim (find_dot s) [ none ↦ s | some dot_pos ↦ erase_zeros s dot_pos ]

unfoldable pub insert_comma : ℕ → Text → Text
insert_comma i s = take i s ++ b',' ∷ drop i s

-- `for (i = int_end - 3; i > start; i -= 3) s.insert(i, ",");` The `int` `i` can fall below 0, where
-- the test fails as it does at 0.
unfoldable pub insert_commas : ℕ → ℕ → ℕ → Text → Text
insert_commas zero start i s = s
insert_commas (suc fuel) start i s =
    let rest = insert_commas fuel start (i - 3) (insert_comma i s) in
    if ltb start i then rest else s

-- The end of the integer part.
unfoldable pub int_end : Text → ℕ
int_end s = elim (find_dot s) [ none ↦ length s | some dot_pos ↦ dot_pos ]

abbrev pub sign_length : Text → ℕ
sign_length [] = 0
sign_length (c ∷ s) = if c == b'-' then 1 else 0

-- Commas for thousands, from right to left. The length is fuel enough, since `i` falls by 3.
unfoldable pub add_commas : Text → Text
unfolding insert_comma insert_commas int_end
add_commas s = insert_commas (length s) (sign_length s) (int_end s - 3) s

-- `pretty` and `trim` print nothing if the conversion fails.
unfoldable pub pretty_text : Option Text → Text
unfolding trim_zeros add_commas
pretty_text none = []
pretty_text (some s) = add_commas (trim_zeros s)

unfoldable pub trim_text : Option Text → Text
unfolding trim_zeros
trim_text none = []
trim_text (some s) = trim_zeros s

module _ {D : Type 0} ⦃f : Float D⦄ where
  unfoldable pub pretty : D → Text
  unfolding pretty_text
  pretty val = pretty_text (f.to_chars_general val)

  unfoldable pub trim : D → Text
  unfolding trim_text
  trim val = trim_text (f.to_chars_fixed val)
