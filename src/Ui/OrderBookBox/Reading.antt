-- ===== src/Ui/OrderBookBox/Reading.antt =====
-- A price that `pretty` of src/utils/double.h prints, padded by src/ui/helpers.h, and read back.
use trader_cpp.Base.{
  ℕ, zero, suc, ◌+◌, ◌-◌, ◌*◌, ◌/◌, ◌%◌, ◌^◌, ◌≤◌, ◌<◌, ◌≡◌, refl, sym, ap, ◌∙◌, false, ◌||◌, some,
  [], ◌∷◌, ◌++◌, Text, length, replicate, length-append, All, if◌then◌else◌, ◌==◌, arith,
  append_assoc, append-nil,
}
use trader_cpp.Ui.Helpers.{pad, pad_lem, drop-all}
use trader_cpp.Utils.Chars.{decimal_acc, to_string, is_digit, value_from}
use trader_cpp.Utils.Chars.RoundTrip.{IsDigit, decimal_acc-digits, value_from-decimal_acc}
use trader_cpp.Utils.Double.{pretty_text}
use trader_cpp.Utils.Double.Commas.{grouped, grouped_rest, pretty_text-grouped}
use trader_cpp.Utils.Double.Zeros.{strip, strip_cons, fraction}

-- The two digits of the hundredths.
abbrev pub hundredths : ℕ → Text
hundredths d = (b'0' + d / 10) ∷ (b'0' + d % 10) ∷ []

-- A price of so many hundredths in decimal, without zeros at its end.
unfoldable pub decimal : ℕ → Text
unfolding to_string
decimal c = to_string (c / 100) ++ fraction (strip (hundredths (c % 100)))

-- What a reader makes of a cell: the hundredths behind the point ...
unfoldable pub read_hundredths : Text → ℕ
read_hundredths [] = 0
read_hundredths (a ∷ []) = if is_digit a then (a - b'0') * 10 else 0
read_hundredths (a ∷ b ∷ s) =
    if is_digit a then (a - b'0') * 10 + (if is_digit b then b - b'0' else 0) else 0

-- ... and the whole price, in hundredths, where commas are skipped.
unfoldable pub read_from : ℕ → Text → ℕ
unfolding read_hundredths
read_from n [] = n * 100
read_from n (c ∷ s) =
    let rest = read_from (if is_digit c then n * 10 + (c - b'0') else n) s in
    if is_digit c || c == b','
    then rest
    else (if c == b'.' then n * 100 + read_hundredths s else n * 100)

abbrev pub read_price : Text → ℕ
read_price = read_from 0

read_from-grouped_rest :
    (n : ℕ) (x t : Text)
    → All IsDigit x
    → read_from n (grouped_rest x ++ t) ≡ read_from (value_from n x) t
unfolding read_from value_from
read_from-grouped_rest n [] t h = refl
read_from-grouped_rest n (c ∷ x) t h =
    ground (arith, read_from-grouped_rest (n * 10 + (c - b'0')) x t h.1)

read_from-grouped :
    (x t : Text) → All IsDigit x → read_from 0 (grouped x ++ t) ≡ read_from (value_from 0 x) t
unfolding read_from value_from
read_from-grouped [] t h = refl
read_from-grouped (c ∷ x) t h = ground (arith, read_from-grouped_rest (c - b'0') x t h.1)

read_from-fraction :
    (n d k : ℕ)
    → d < 100
    → read_from n (fraction (strip (hundredths d)) ++ replicate k b' ') ≡ n * 100 + d
unfolding read_from read_hundredths
read_from-fraction n d zero h = ground arith
read_from-fraction n d (suc k) h = ground arith

length-grouped_rest : (x : Text) → length (grouped_rest x) ≡ length x + length x / 3
length-grouped_rest [] = omega arith
length-grouped_rest (c ∷ x) = ground (arith, length-grouped_rest x)

length-fraction : (d : ℕ) → length (fraction (strip (hundredths d))) ≤ 3
length-fraction d = ground arith

-- So many values have a number of digits.
abbrev power : ℕ → ℕ
power zero = 1
power (suc k) = 10 * power k

length-decimal_acc :
    (k f n : ℕ) (acc : Text)
    → n < f
    → n < power (suc k)
    → length (decimal_acc f n acc) ≤ suc k + length acc
unfolding decimal_acc
length-decimal_acc k zero n acc h b = absurd (omega arith)
length-decimal_acc zero (suc f) n acc h b = ground arith
length-decimal_acc (suc k) (suc f) n acc h b =
    ground (arith, length-decimal_acc k f (n / 10) ((b'0' + n % 10) ∷ acc))

strip_cons-strip : (c : ℕ) (s : Text) → strip s ≡ s → strip (strip_cons c s) ≡ strip_cons c s
strip_cons-strip c [] h = ground arith
strip_cons-strip c (d ∷ s) h = ap (strip_cons c) h

strip_twice : (s : Text) → strip (strip s) ≡ strip s
strip_twice [] = refl
strip_twice (c ∷ s) = strip_cons-strip c (strip s) (strip_twice s)

pretty_text-fraction :
    (x f : Text)
    → All IsDigit x
    → strip f ≡ f
    → length x + length f + 1 < 2 ^ 64
    → pretty_text (some (x ++ fraction f)) ≡ grouped x ++ fraction f
pretty_text-fraction x [] h s b =
    let (point, plain) =
      pretty_text-grouped false x [] h (omega (arith, length-append x (b'.' ∷ []))) in
    ap (λ (t : Text). pretty_text (some t)) (append-nil x) ∙ plain ∙ sym (append-nil (grouped x))
pretty_text-fraction x (a ∷ f) h s b =
    let (point, plain) =
      pretty_text-grouped false x (a ∷ f) h (omega (arith, length-append x (b'.' ∷ a ∷ f))) in
    point ∙ ap (λ (t : Text). grouped x ++ fraction t) s

length-grouped : (x : Text) → length (grouped x) ≤ length x + length x / 3
length-grouped [] = omega arith
length-grouped (c ∷ x) = omega (arith, length-grouped_rest x)

length-strip : (d : ℕ) → length (strip (hundredths d)) ≤ 2
length-strip d = ground arith

-- The text of a price of at most eight digits before the point.
pretty_text-decimal :
    (c : ℕ)
    → c < 10 ^ 10
    → (pretty_text (some (decimal c))
        ≡ grouped (to_string (c / 100)) ++ fraction (strip (hundredths (c % 100))))
      × (length (pretty_text (some (decimal c))) ≤ 13)
      × All IsDigit (to_string (c / 100))
      × (value_from 0 (to_string (c / 100)) ≡ c / 100)
unfolding decimal to_string value_from
pretty_text-decimal c h =
    let q = c / 100 in
    let x = decimal_acc (suc q) q [] in
    let f = strip (hundredths (c % 100)) in
    let digits = decimal_acc-digits (suc q) q [] (omega arith) tt in
    let size : length x ≤ 8 = length-decimal_acc 7 (suc q) q [] (omega arith) (omega arith) in
    let text =
      pretty_text-fraction x f digits (strip_twice (hundredths (c % 100)))
        (omega (arith, size, length-strip (c % 100))) in
    (
      text,
      omega (
        arith,
        ap length text,
        length-append (grouped x) (fraction f),
        length-grouped x,
        length-fraction (c % 100),
        size,
      ),
      digits,
      value_from-decimal_acc (suc q) q [] (omega arith),
    )

pad-short : (s : Text) (w : ℕ) → length s ≤ w → pad s w ≡ s ++ replicate (w - length s) b' '
pad-short s w h =
    sym (append-nil (pad s w)) ∙ ap (◌++◌ (pad s w)) (sym (drop-all w s h)) ∙ (pad_lem s w).1

hundreds : (c : ℕ) → c / 100 * 100 + c % 100 ≡ c
hundreds c = omega arith

rest_small : (c : ℕ) → c % 100 < 100
rest_small c = omega arith

-- What is read of a padded price.
pub read_price-pad :
    (c : ℕ) → c < 10 ^ 10 → read_price (pad (pretty_text (some (decimal c))) 13) ≡ c
read_price-pad c h =
    let (text, short, digits, value) = pretty_text-decimal c h in
    let x = to_string (c / 100) in
    let f = fraction (strip (hundredths (c % 100))) in
    let spaces : Text = replicate (13 - length (pretty_text (some (decimal c)))) b' ' in
    ap read_price (pad-short (pretty_text (some (decimal c))) 13 short)
    ∙ ap (λ (t : Text). read_price (t ++ spaces)) text
    ∙ ap read_price (append_assoc (grouped x) f spaces)
    ∙ read_from-grouped x (f ++ spaces) digits
    ∙ ap (λ (n : ℕ). read_from n (f ++ spaces)) value
    ∙ read_from-fraction (c / 100) (c % 100) _ (rest_small c)
    ∙ hundreds c
