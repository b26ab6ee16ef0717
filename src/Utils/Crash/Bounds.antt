-- ===== src/Utils/Crash/Bounds.antt =====
-- The buffers of src/utils/crash.h are large enough, and the number is printed in full.
use trader_cpp.Base.{
  ℕ, zero, suc, ◌+◌, ◌*◌, ◌/◌, ◌%◌, ◌^◌, ◌<◌, ◌≤◌, ◌≡◌, refl, sym, ap, ◌∙◌, [], ◌∷◌, ◌++◌, Text,
  length, length-append, arith, append_assoc, append-nil, ◌==◌, false,
}
use native.Mathlib.Decide.{dec_lt}
use native.Mathlib.Nat.{pow-suc}
use mathlib.Core.List.{reverse, reverse-cons}
use trader_cpp.Utils.Chars.{decimal_acc, to_string}
use trader_cpp.Utils.Crash.{
  ℤ, pos, negsuc, fill_tmp, int_to_str, handle_signal, buf_size, prefix, suffix,
}

length-reverse : (xs : Text) → length (reverse xs) ≡ length xs
length-reverse [] = refl
length-reverse (x ∷ xs) =
    omega
      (arith, ap length (reverse-cons x xs), length-append (reverse xs) (x ∷ []), length-reverse xs)

length-fill_tmp : (room n : ℕ) → length (fill_tmp room n) ≤ room
unfolding fill_tmp
length-fill_tmp zero n = omega arith
length-fill_tmp (suc room) n = ground (arith, length-fill_tmp room (n / 10))

length-int_to_str : (sig : ℤ) → length (int_to_str sig) ≤ 16
unfolding int_to_str
length-int_to_str (pos n) = ground (arith, length-reverse (fill_tmp 16 n), length-fill_tmp 16 n)
length-int_to_str (negsuc n) = omega arith

-- Whatever the signal's number, `tmp` and `buf` are not overrun.
pub handle_signal_fits :
    (sig : ℤ) → (length (int_to_str sig) ≤ 16) × (length (handle_signal sig) ≤ buf_size)
unfolding handle_signal
handle_signal_fits sig =
    let short = length-int_to_str sig in
    let appended = length-append prefix (int_to_str sig ++ suffix) in
    (short, omega (arith, appended, length-append (int_to_str sig) suffix))

fill_tmp-zero : (room : ℕ) → fill_tmp room 0 ≡ []
unfolding fill_tmp
fill_tmp-zero zero = refl
fill_tmp-zero (suc room) = refl

fill_tmp-suc :
    (room n : ℕ) → 0 < n → fill_tmp (suc room) n ≡ (b'0' + n % 10) ∷ fill_tmp room (n / 10)
unfolding fill_tmp
fill_tmp-suc room n h = ground arith

decimal_acc-small : (f n : ℕ) (acc : Text) → n < 10 → decimal_acc (suc f) n acc ≡ (b'0' + n) ∷ acc
unfolding decimal_acc
decimal_acc-small f n acc h = ground arith

decimal_acc-large :
    (f n : ℕ) (acc : Text)
    → 10 ≤ n
    → decimal_acc (suc f) n acc ≡ decimal_acc f (n / 10) ((b'0' + n % 10) ∷ acc)
unfolding decimal_acc
decimal_acc-large f n acc h = ground arith

-- The digits that the loop leaves, read backwards, are those that `std::to_string` puts in front.
reverse-fill_tmp :
    (room f n : ℕ) (acc : Text)
    → 0 < n
    → n < 10 ^ room
    → n < f
    → reverse (fill_tmp room n) ++ acc ≡ decimal_acc f n acc
reverse-fill_tmp zero f n acc nonzero fits fuel = absurd (omega arith)
reverse-fill_tmp (suc room) zero n acc nonzero fits fuel = elim fuel [ ]
reverse-fill_tmp (suc room) (suc f) n acc nonzero fits fuel =
    rw (fill_tmp-suc room n nonzero, reverse-cons, append_assoc)
      (elim (dec_lt n 10) [
        | yes small ↦
            let none_left : n / 10 ≡ 0 = omega arith in
            let same : n % 10 ≡ n = omega arith in
            rw (none_left, fill_tmp-zero room, same, decimal_acc-small f n acc small) refl
        | no large ↦
            let fits' : n < 10 ^ room * 10 = rw (← pow-suc 10 room) fits in
            rw (decimal_acc-large f n acc (omega arith)) (
              reverse-fill_tmp room f (n / 10) ((b'0' + n % 10) ∷ acc) (omega arith) (omega arith)
                (omega arith))
      ])

-- A number below 10¹⁶, thus every `int` that is not negative, is written as `std::to_string` does.
pub int_to_str-to_string : (n : ℕ) → n < 10 ^ 16 → int_to_str (pos n) ≡ to_string n
unfolding int_to_str to_string
int_to_str-to_string zero h = refl
int_to_str-to_string (suc n) h =
    let nonzero : (suc n == 0) ≡ false = ground arith in
    rw nonzero (
      sym (append-nil (reverse (fill_tmp 16 (suc n))))
      ∙ reverse-fill_tmp 16 (suc (suc n)) (suc n) [] (omega arith) h (omega arith))
