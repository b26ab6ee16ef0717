-- ===== src/Ui/TradeBox/Time.antt =====
-- The time of a trade, as src/ui/trade_box.cpp prints it into 16 bytes.
use trader_cpp.Base.{
  ℕ, zero, suc, ◌+◌, ◌-◌, ◌*◌, ◌/◌, ◌%◌, ◌^◌, ◌≤◌, ◌<◌, min, ◌≡◌, refl, ap, [], ◌∷◌, ◌++◌, Text,
  length, length-append, length-replicate, take, replicate, All, All-append, arith,
}
use native.Mathlib.Nat.{pow-suc}
use trader_cpp.Utils.Chars.{to_string, decimal_acc}
use trader_cpp.Utils.Chars.RoundTrip.{IsDigit, decimal_acc-digits}
use trader_cpp.Ui.Helpers.{c_str}
use trader_cpp.External.Fix.{UtcTime}
use trader_cpp.Ui.TradeBox.{zero_padded, time_text, print_time}

length-decimal_acc :
    (f k n : ℕ) (acc : Text) → n < 10 ^ suc k → length (decimal_acc f n acc) ≤ suc k + length acc
unfolding decimal_acc
length-decimal_acc zero k n acc h = omega arith
length-decimal_acc (suc f) zero n acc h = ground arith
length-decimal_acc (suc f) (suc k) n acc h =
    let bound : n < 10 ^ suc k * 10 = rw (← pow-suc 10 (suc k)) h in
    ground (arith, bound, length-decimal_acc f k (n / 10) ((b'0' + n % 10) ∷ acc))

length-zero_padded : (k n : ℕ) → n < 10 ^ suc k → length (zero_padded (suc k) n) ≡ suc k
unfolding zero_padded to_string
length-zero_padded k n h =
    let digits = decimal_acc (suc n) n [] in
    let gap = suc k - length digits in
    omega (
      arith,
      length-decimal_acc (suc n) k n [] h,
      length-append (replicate gap b'0') digits,
      length-replicate {A = ℕ} gap b'0',
    )

-- No byte is a NUL.
abbrev IsPrinted : Text → Type 0
IsPrinted = All (λ c. 0 < c)

zeros-IsPrinted : (n : ℕ) → IsPrinted (replicate n b'0')
zeros-IsPrinted zero = tt
zeros-IsPrinted (suc n) = (omega arith, zeros-IsPrinted n)

digits-IsPrinted : (s : Text) → All IsDigit s → IsPrinted s
digits-IsPrinted [] h = tt
digits-IsPrinted (c ∷ s) h = (omega arith, digits-IsPrinted s h.1)

zero_padded-IsPrinted : (w n : ℕ) → IsPrinted (zero_padded w n)
unfolding zero_padded to_string
zero_padded-IsPrinted w n =
    All-append (λ c. 0 < c) (replicate (w - length (decimal_acc (suc n) n [])) b'0')
      (decimal_acc (suc n) n []) (zeros-IsPrinted _)
      (digits-IsPrinted (decimal_acc (suc n) n [])
        (decimal_acc-digits (suc n) n [] (omega arith) tt))

c_str-append : (s : Text) (n : ℕ) → IsPrinted s → c_str (s ++ replicate (suc n) 0) ≡ s
unfolding c_str
c_str-append [] n h = refl
c_str-append (c ∷ s) n h = ground (arith, c_str-append s n h.1)

take-all : (n : ℕ) (s : Text) → length s ≡ n → take n s ≡ s
take-all zero [] h = refl
take-all zero (c ∷ s) h = absurd (omega arith)
take-all (suc n) [] h = refl
take-all (suc n) (c ∷ s) h = ap (◌∷◌ c) (take-all n s (omega arith))

length-time_text : (t : UtcTime) → length (time_text t) ≡ 15
unfolding time_text
length-time_text t = omega (
  arith,
  length-zero_padded 1 (min t.hour 23) (omega arith),
  length-zero_padded 1 (min t.minute 59) (omega arith),
  length-zero_padded 1 (min t.second 59) (omega arith),
  length-zero_padded 5 (min t.microsecond 999_999) (omega arith),
  length-append {0},
)

time_text-IsPrinted : (t : UtcTime) → IsPrinted (time_text t)
unfolding time_text
time_text-IsPrinted t =
    let join = λ (a : Text) (b : Text) (p : IsPrinted a) (q : IsPrinted b).
      All-append (λ c. 0 < c) a b p q in
    let hour = zero_padded-IsPrinted 2 (min t.hour 23) in
    let minute = zero_padded-IsPrinted 2 (min t.minute 59) in
    let second = zero_padded-IsPrinted 2 (min t.second 59) in
    let micro = zero_padded-IsPrinted 6 (min t.microsecond 999_999) in
    join _ _ (join _ _ (join _ _ hour (omega arith, minute)) (omega arith, second))
      (omega arith, micro)

-- For every time, in range or not: the text has 15 characters, so nothing is cut off; the array has
-- 16 bytes; and what is read from it up to its first NUL is that text.
pub print_time_lem :
    (t : UtcTime)
    → (length (time_text t) ≡ 15)
      × (length (print_time t) ≡ 16)
      × (c_str (print_time t) ≡ time_text t)
unfolding print_time
print_time_lem t =
    let fits = length-time_text t in
    let whole = take-all 15 (time_text t) fits in
    (
      fits,
      rw (whole, fits) (omega (arith, fits, length-append (time_text t) (0 ∷ []))),
      rw (whole, fits) (c_str-append (time_text t) 0 (time_text-IsPrinted t)),
    )
