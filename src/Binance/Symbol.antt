-- ===== src/Binance/Symbol.antt =====
-- src/binance/symbol.h: the enum of the instruments and its texts.
use trader_cpp.Base.{
  ℕ, ◌≡◌, refl, ◌↔◌, [], ◌∷◌, Text, codes, length, Outcome, ok, throw, runtime_error, short_symbol,
  unmapped_symbol, if◌then◌else◌, ◌==◌, not, arith, Bool, true, false,
}

pub data SymbolEnum : Type 0 where
  btcusdt ethusdt : SymbolEnum

-- The `switch` on `symbol[0]`; a `std::string` that is empty has '\0' there.
pub switch_first : Text → Outcome SymbolEnum
switch_first [] = throw (runtime_error unmapped_symbol)
switch_first (c ∷ _) =
    if c == b'B'
    then ok btcusdt
    else (if c == b'E' then ok ethusdt else throw (runtime_error unmapped_symbol))

unfoldable pub from_str : Text → Outcome SymbolEnum
unfolding switch_first
from_str symbol =
    if not (length symbol == 7) then throw (runtime_error short_symbol) else switch_first symbol

unfoldable pub to_str : SymbolEnum → Text
to_str btcusdt = codes "BTCUSDT"
to_str ethusdt = codes "ETHUSDT"

unfoldable pub to_str_view : SymbolEnum → Text
to_str_view btcusdt = codes "BTCUSDT"
to_str_view ethusdt = codes "ETHUSDT"

unfoldable pub to_uint : SymbolEnum → ℕ
to_uint btcusdt = 0
to_uint ethusdt = 1

-- Test of the C++ `==` on the enum.
abbrev pub is_btcusdt : SymbolEnum → Bool
is_btcusdt btcusdt = true
is_btcusdt ethusdt = false

-- Printing a symbol, by either printer, and reading the text back gives the symbol.
pub from_str-to_str :
    (s : SymbolEnum) → (from_str (to_str s) ≡ ok s) × (from_str (to_str_view s) ≡ ok s)
unfolding from_str to_str to_str_view
from_str-to_str btcusdt = (refl, refl)
from_str-to_str ethusdt = (refl, refl)

-- A text is read as BTCUSDT exactly when it has seven bytes of which the first is 'B', and as
-- ETHUSDT exactly when it has seven of which the first is 'E'.
from_str_iff :
    (c : ℕ) (rest : Text)
    → ((from_str (c ∷ rest) ≡ ok btcusdt) ↔ ((length rest ≡ 6) × (c ≡ b'B')))
      × ((from_str (c ∷ rest) ≡ ok ethusdt) ↔ ((length rest ≡ 6) × (c ≡ b'E')))
unfolding from_str
from_str_iff c rest = ground arith
