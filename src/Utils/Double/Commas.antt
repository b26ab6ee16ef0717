-- ===== src/Utils/Double/Commas.antt =====
-- The commas of `pretty` in src/utils/double.h: groups of three digits.
use trader_cpp.Base.{
  ℕ, zero, suc, ◌+◌, ◌-◌, ◌%◌, ◌^◌, ◌≤◌, ◌<◌, ◌≡◌, refl, sym, ap, ◌∙◌, Bool, true, false, some, [],
  ◌∷◌, ◌++◌, Text, length, length-append, length-take, length-drop, take, drop, take-append-drop,
  All, ◌==◌, if◌then◌else◌, arith, append_assoc, append-nil,
}
use native.Mathlib.Decide.{dec_lt}
use trader_cpp.Utils.Chars.RoundTrip.{IsDigit}
use trader_cpp.Utils.Double.{
  insert_comma, insert_commas, int_end, sign_length, add_commas, pretty_text,
}
use trader_cpp.Utils.Double.Zeros.{
  HasNoDot, strip, fraction, find_dot-append, find_dot-none, trim_zeros-fraction,
}

-- Digits behind a first one: a comma stands before each group of three that is counted from the end.
abbrev pub grouped_rest : Text → Text
grouped_rest [] = []
grouped_rest (c ∷ s) =
    let rest = c ∷ grouped_rest s in if suc (length s) % 3 == 0 then b',' ∷ rest else rest

abbrev pub grouped : Text → Text
grouped [] = []
grouped (c ∷ s) = c ∷ grouped_rest s

abbrev pub sign : Bool → Text
sign true = b'-' ∷ []
sign false = []

grouped_rest-append :
    (y z : Text) → length z ≡ 3 → grouped_rest (y ++ z) ≡ grouped_rest y ++ b',' ∷ z
grouped_rest-append [] [] h = absurd (omega arith)
grouped_rest-append [] (a ∷ []) h = absurd (omega arith)
grouped_rest-append [] (a ∷ b ∷ []) h = absurd (omega arith)
grouped_rest-append [] (a ∷ b ∷ c ∷ []) h = refl
grouped_rest-append [] (a ∷ b ∷ c ∷ d ∷ s) h = absurd (omega arith)
grouped_rest-append (x ∷ y) z h = ground (arith, grouped_rest-append y z h, length-append y z)

grouped-append :
    (y z : Text) → 0 < length y → length z ≡ 3 → grouped (y ++ z) ≡ grouped y ++ b',' ∷ z
grouped-append [] z p h = absurd (omega arith)
grouped-append (x ∷ y) z p h = ap (◌∷◌ x) (grouped_rest-append y z h)

grouped_short : (y : Text) → length y ≤ 3 → grouped y ≡ y
grouped_short [] h = refl
grouped_short (a ∷ []) h = refl
grouped_short (a ∷ b ∷ []) h = refl
grouped_short (a ∷ b ∷ c ∷ []) h = refl
grouped_short (a ∷ b ∷ c ∷ d ∷ s) h = absurd (omega arith)

insert_comma-length : (a b : Text) → insert_comma (length a) (a ++ b) ≡ a ++ b',' ∷ b
unfolding insert_comma
insert_comma-length [] b = refl
insert_comma-length (c ∷ a) b = ap (◌∷◌ c) (insert_comma-length a b)

insert_commas-suc :
    (fuel start i : ℕ) (s : Text)
    → start < i
    → insert_commas (suc fuel) start i s ≡ insert_commas fuel start (i - 3) (insert_comma i s)
unfolding insert_commas
insert_commas-suc fuel start i s h = ground arith

insert_commas-stop : (fuel start i : ℕ) (s : Text) → i ≤ start → insert_commas fuel start i s ≡ s
unfolding insert_commas
insert_commas-stop zero start i s h = refl
insert_commas-stop (suc fuel) start i s h = ground arith

-- The loop, when `y` is what stands between the sign and the part that has its commas.
insert_commas-grouped :
    (fuel : ℕ) (sgn y t : Text)
    → length y ≤ fuel
    → insert_commas fuel (length sgn) (length sgn + length y - 3) (sgn ++ (y ++ t))
      ≡ sgn ++ (grouped y ++ t)
insert_commas-grouped zero sgn [] t h = insert_commas-stop zero (length sgn) _ _ (omega arith)
insert_commas-grouped zero sgn (c ∷ y) t h = absurd (omega arith)
insert_commas-grouped (suc fuel) sgn y t h = elim (dec_lt 3 (length y)) [
  | no short ↦
      insert_commas-stop (suc fuel) (length sgn) _ _ (omega arith)
      ∙ ap (λ (g : Text). sgn ++ (g ++ t)) (sym (grouped_short y (omega arith)))
  | yes long ↦
      let k = length y - 3 in
      let front = take k y in
      let group = drop k y in
      let whole : front ++ group ≡ y = take-append-drop k y in
      let size_front : length front ≡ k = omega (arith, length-take k y) in
      let size_group : length group ≡ 3 = omega (arith, length-drop k y) in
      let behind = b',' ∷ (group ++ t) in
      let text : sgn ++ (y ++ t) ≡ (sgn ++ front) ++ (group ++ t) =
        ap (λ (g : Text). sgn ++ (g ++ t)) (sym whole)
        ∙ ap (◌++◌ sgn) (append_assoc front group t)
        ∙ sym (append_assoc sgn front (group ++ t)) in
      let place : length sgn + length y - 3 ≡ length (sgn ++ front) =
        omega (arith, length-append sgn front) in
      let inserted : insert_comma (length sgn + length y - 3) (sgn ++ (y ++ t))
          ≡ sgn ++ (front ++ behind) =
        ap (λ (i : ℕ). insert_comma i (sgn ++ (y ++ t))) place
        ∙ ap (insert_comma (length (sgn ++ front))) text
        ∙ insert_comma-length (sgn ++ front) (group ++ t)
        ∙ append_assoc sgn front behind in
      let next : length sgn + length y - 3 - 3 ≡ length sgn + length front - 3 = omega arith in
      insert_commas-suc fuel (length sgn) _ _ (omega arith)
      ∙ ap (insert_commas fuel (length sgn) _) inserted
      ∙ ap (λ (i : ℕ). insert_commas fuel (length sgn) i (sgn ++ (front ++ behind))) next
      ∙ insert_commas-grouped fuel sgn front behind (omega arith)
      ∙ ap (◌++◌ sgn) (sym (append_assoc (grouped front) (b',' ∷ group) t))
      ∙ ap (λ (g : Text). sgn ++ (g ++ t))
          (sym (grouped-append front group (omega arith) size_group))
      ∙ ap (λ (g : Text). sgn ++ (grouped g ++ t)) whole
]

IsDigit-HasNoDot : (x : Text) → All IsDigit x → HasNoDot x
IsDigit-HasNoDot [] h = tt
IsDigit-HasNoDot (c ∷ x) h = (omega arith, IsDigit-HasNoDot x h.1)

sign-HasNoDot : (negative : Bool) (x : Text) → All IsDigit x → HasNoDot (sign negative ++ x)
sign-HasNoDot true x h = (omega arith, IsDigit-HasNoDot x h)
sign-HasNoDot false x h = IsDigit-HasNoDot x h

sign_length-fraction :
    (negative : Bool) (x f : Text)
    → All IsDigit x
    → sign_length (sign negative ++ (x ++ fraction f)) ≡ length (sign negative)
sign_length-fraction true x f h = refl
sign_length-fraction false [] [] h = refl
sign_length-fraction false [] (c ∷ f) h = refl
sign_length-fraction false (c ∷ x) f h = ground arith

int_end-fraction : (int f : Text) → HasNoDot int → int_end (int ++ fraction f) ≡ length int
unfolding int_end
int_end-fraction int [] h = ap int_end (append-nil int) ∙ rw (find_dot-none int h, int_end) refl
int_end-fraction int (c ∷ f) h = rw (find_dot-append int (c ∷ f) h, int_end) refl

add_commas-grouped :
    (negative : Bool) (x f : Text)
    → All IsDigit x
    → add_commas (sign negative ++ (x ++ fraction f)) ≡ sign negative ++ (grouped x ++ fraction f)
unfolding add_commas
add_commas-grouped negative x f h =
    let sgn = sign negative in
    let s = sgn ++ (x ++ fraction f) in
    let end : int_end s ≡ length sgn + length x =
      ap int_end (sym (append_assoc sgn x (fraction f)))
      ∙ int_end-fraction (sgn ++ x) f (sign-HasNoDot negative x h)
      ∙ length-append sgn x in
    let fuel : length x ≤ length s =
      omega (arith, length-append sgn (x ++ fraction f), length-append x (fraction f)) in
    rw (sign_length-fraction negative x f h, end)
      (insert_commas-grouped (length s) sgn x (fraction f) fuel)

-- The text that `pretty` returns, if what `std::to_chars` wrote is digits, with or without a sign in
-- front, and with or without a point and more characters behind: the digits in groups of three from
-- the point leftwards, with commas between, and the fraction without the zeros at its end, or
-- nothing, not even the point, if only zeros stand there.
pub pretty_text-grouped :
    (negative : Bool) (x frac : Text)
    → All IsDigit x
    → length (sign negative ++ x ++ b'.' ∷ frac) < 2 ^ 64
    → (pretty_text (some (sign negative ++ x ++ b'.' ∷ frac))
        ≡ sign negative ++ grouped x ++ fraction (strip frac))
      × (pretty_text (some (sign negative ++ x)) ≡ sign negative ++ grouped x)
unfolding pretty_text
pretty_text-grouped negative x frac h fits =
    let sgn = sign negative in
    let (point, none_there) =
      trim_zeros-fraction (sgn ++ x) frac (sign-HasNoDot negative x h) fits in
    let plain = add_commas-grouped negative x [] h in
    (
      ap add_commas (point ∙ append_assoc sgn x (fraction (strip frac)))
          ∙ add_commas-grouped negative x (strip frac) h
          ∙ sym (append_assoc sgn (grouped x) (fraction (strip frac))),
      ap add_commas (none_there ∙ ap (◌++◌ sgn) (sym (append-nil x)))
          ∙ plain
          ∙ ap (◌++◌ sgn) (append-nil (grouped x)),
    )
