-- ===== src/External/Float.antt =====
-- What the code does with a `double`, over any type of doubles.
use trader_cpp.Base.{ℕ, ◌*◌, ◌/◌, ◌%◌, ◌^◌, ◌<◌, Bool, false, Option, some, Text, [], ◌∷◌, arith}

pub record Float (D : Type 0) : Type 0 where
  -- The conversion of a `uint64_t` to a `double`.
  pub of_uint64 : ℕ → D
  pub mul : D → D → D
  pub div : D → D → D
  -- `static_cast<uint64_t>`
  pub to_uint64 : D → ℕ
  pub to_uint64_fits : (x : D) → to_uint64 x < 2 ^ 64
  pub is_nan : D → Bool
  -- `std::to_chars` with 15 digits, into 64 bytes; `none` is an error code.
  pub to_chars_general : D → Option Text
  pub to_chars_fixed : D → Option Text
  -- `std::to_string`
  pub to_string : D → Text

-- Decimals with eight places that are not negative: the number of units of 10⁻⁸.
abbrev pub Decimal : Type 0
Decimal = ℕ

abbrev pub unit : ℕ
unit = 100_000_000

pub Decimal_fits : (x : Decimal) → x / unit % 2 ^ 64 < 2 ^ 64
Decimal_fits x = omega arith

-- The laws can be met. The printers of this one print the same text for every number.
instance abbrev pub decimal_float : Float Decimal
decimal_float = record {
  of_uint64 = λ n. n * unit;
  mul = λ x y. x * y / unit;
  div = λ x y. x * unit / y;
  to_uint64 = λ x. x / unit % 2 ^ 64;
  to_uint64_fits = Decimal_fits;
  is_nan = λ _. false;
  to_chars_general = λ _. some (b'0' ∷ []);
  to_chars_fixed = λ _. some (b'0' ∷ []);
  to_string = λ _. b'0' ∷ [];
}
