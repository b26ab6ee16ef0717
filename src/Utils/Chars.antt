-- ===== src/Utils/Chars.antt =====
-- What the sources use of the standard library's conversions of unsigned integers: `std::to_string`
-- and `std::from_chars`.
pub mod RoundTrip
use trader_cpp.Base.{
  ℕ, zero, suc, ◌+◌, ◌-◌, ◌*◌, ◌/◌, ◌%◌, Bool, ◌&&◌, Option, none, some, List, [], ◌∷◌, Text, ltb,
  leb, if◌then◌else◌,
}

-- The digits of a number in front of a text. The recursion takes as much fuel as the number, which
-- is more than its digits.
unfoldable pub decimal_acc : ℕ → ℕ → Text → Text
decimal_acc zero n acc = acc
decimal_acc (suc f) n acc =
    let rest = decimal_acc f (n / 10) ((b'0' + n % 10) ∷ acc) in
    if ltb n 10 then (b'0' + n) ∷ acc else rest

unfoldable pub to_string : ℕ → Text
unfolding decimal_acc
to_string n = decimal_acc (suc n) n []

abbrev pub is_digit : ℕ → Bool
is_digit c = leb b'0' c && leb c b'9'

-- The value of the digits at the front, on from a number already read.
unfoldable pub value_from : ℕ → Text → ℕ
value_from acc [] = acc
value_from acc (c ∷ s) = if is_digit c then value_from (acc * 10 + (c - b'0')) s else acc

-- `std::from_chars` into an unsigned type of so many values: the digits at the front, at least one,
-- and the rest of the text is ignored. `none` is an error code; the target then keeps its value.
unfoldable pub from_chars : ℕ → Text → Option ℕ
unfolding value_from
from_chars size [] = none
from_chars size (c ∷ s) =
    if is_digit c
    then (if ltb (value_from 0 (c ∷ s)) size then some (value_from 0 (c ∷ s)) else none)
    else none
