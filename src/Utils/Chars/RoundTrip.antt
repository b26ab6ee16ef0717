-- ===== src/Utils/Chars/RoundTrip.antt =====
-- A number that is printed and read back.
use trader_cpp.Base.{
  ℕ, zero, suc, ◌+◌, ◌/◌, ◌%◌, ◌<◌, ◌≤◌, ◌≡◌, refl, some, [], ◌∷◌, Text, All, arith, Bool-cases,
  ltb, inl, inr,
}
use trader_cpp.Utils.Chars.{decimal_acc, to_string, value_from, from_chars}

abbrev pub IsDigit : ℕ → Type 0
IsDigit c = (b'0' ≤ c) × (c ≤ b'9')

pub decimal_acc-digits :
    (f n : ℕ) (acc : Text) → n < f → All IsDigit acc → All IsDigit (decimal_acc f n acc)
unfolding decimal_acc
decimal_acc-digits zero n acc h a = elim h [ ]
decimal_acc-digits (suc f) n acc h a =
    ground (arith, decimal_acc-digits f (n / 10) ((b'0' + n % 10) ∷ acc))

pub value_from-decimal_acc :
    (f n : ℕ) (acc : Text) → n < f → value_from 0 (decimal_acc f n acc) ≡ value_from n acc
unfolding decimal_acc value_from
value_from-decimal_acc zero n acc h = elim h [ ]
value_from-decimal_acc (suc f) n acc h =
    ground (arith, value_from-decimal_acc f (n / 10) ((b'0' + n % 10) ∷ acc))

-- There is a first digit.
decimal_acc-cons :
    (f n : ℕ) (acc : Text) → n < f → (c : ℕ) × (s : Text) × (decimal_acc f n acc ≡ c ∷ s)
unfolding decimal_acc
decimal_acc-cons zero n acc h = elim h [ ]
decimal_acc-cons (suc f) n acc h = elim (Bool-cases (ltb n 10)) [
  | inl small ↦ (b'0' + n, acc, rw small refl)
  | inr large ↦ rw large (decimal_acc-cons f (n / 10) ((b'0' + n % 10) ∷ acc) (ground arith))
]

-- A number that fits the target is printed as digits, and is what is read back.
pub from_chars-to_string :
    (n size : ℕ) → n < size → All IsDigit (to_string n) × (from_chars size (to_string n) ≡ some n)
unfolding to_string from_chars
from_chars-to_string n size h =
    let digits = decimal_acc-digits (suc n) n [] (omega arith) tt in
    let value = value_from-decimal_acc (suc n) n [] (omega arith) in
    let (c, s, e) = decimal_acc-cons (suc n) n [] (omega arith) in ground (arith, digits, value, e)
