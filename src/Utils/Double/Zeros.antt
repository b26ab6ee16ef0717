-- ===== src/Utils/Double/Zeros.antt =====
-- The trailing zeros that `pretty` and `trim` of src/utils/double.h erase.
use trader_cpp.Base.{
  ℕ, zero, suc, ◌+◌, ◌-◌, ◌%◌, ◌^◌, ◌≤◌, ◌<◌, ◌≡◌, ◌≢◌, refl, sym, ap, ◌∙◌, false, none, some, [],
  ◌∷◌, ◌++◌, Text, length, length-append, length-take, take, get_elem?, All, ◌==◌, if◌then◌else◌,
  arith,
}
use Prim.Native.Nat.add
use native.Mathlib.Nat.{add-zero}
use trader_cpp.Utils.Double.{find_dot, is_zero, zero_at, skip_zeros, erase_zeros, trim_zeros}

abbrev pub HasNoDot : Text → Type 0
HasNoDot = All (λ c. c ≢ b'.')

abbrev pub strip_cons : ℕ → Text → Text
strip_cons c [] = if c == b'0' then [] else c ∷ []
strip_cons c (d ∷ s) = c ∷ d ∷ s

-- A text without its trailing zeros.
abbrev pub strip : Text → Text
strip [] = []
strip (c ∷ s) = strip_cons c (strip s)

-- Digits behind a point, if there are any.
abbrev pub fraction : Text → Text
fraction [] = []
fraction (c ∷ s) = b'.' ∷ c ∷ s

pub find_dot-append : (a b : Text) → HasNoDot a → find_dot (a ++ b'.' ∷ b) ≡ some (length a)
unfolding find_dot
find_dot-append [] b h = refl
find_dot-append (c ∷ a) b h = ground (arith, h.0, find_dot-append a b h.1)

pub find_dot-none : (a : Text) → HasNoDot a → find_dot a ≡ none
unfolding find_dot
find_dot-none [] h = refl
find_dot-none (c ∷ a) h = ground (arith, h.0, find_dot-none a h.1)

strip-snoc :
    (xs : Text) (c : ℕ) → strip (xs ++ c ∷ []) ≡ (if c == b'0' then strip xs else xs ++ c ∷ [])
strip-snoc [] c = refl
strip-snoc (x ∷ []) c = ground arith
strip-snoc (x ∷ y ∷ xs) c = ground (arith, strip-snoc (y ∷ xs) c)

take-strip : (xs : Text) → take (length (strip xs)) xs ≡ strip xs
take-strip [] = refl
take-strip (x ∷ xs) = ground (arith, take-strip xs)

take-all : (xs : Text) → take (length xs) xs ≡ xs
take-all [] = refl
take-all (x ∷ xs) = ap (◌∷◌ x) (take-all xs)

length-strip : (xs : Text) → length (strip xs) ≤ length xs
length-strip xs = omega (arith, ap length (take-strip xs), length-take (length (strip xs)) xs)

take-length : (xs ys : Text) (n : ℕ) → take (length xs + n) (xs ++ ys) ≡ xs ++ take n ys
take-length [] ys n = rw add.zero
take-length (x ∷ xs) ys n = rw add.suc (ap (◌∷◌ x) (take-length xs ys n))

get_elem?-length : (xs ys : Text) (n : ℕ) → get_elem? (xs ++ ys) (length xs + n) ≡ get_elem? ys n
get_elem?-length [] ys n = rw add.zero
get_elem?-length (x ∷ xs) ys n = rw add.suc (get_elem?-length xs ys n)

take-suc :
    (k : ℕ) (xs : Text)
    → k < length xs
    → (c : ℕ) × (get_elem? xs k ≡ some c) × (take (suc k) xs ≡ take k xs ++ c ∷ [])
take-suc zero [] h = elim h [ ]
take-suc zero (x ∷ xs) h = (x, refl, refl)
take-suc (suc k) [] h = elim h [ ]
take-suc (suc k) (x ∷ xs) h = let (c, at, e) = take-suc k xs (omega arith) in (c, at, ap (◌∷◌ x) e)

skip_zeros_self : (s : Text) (n : ℕ) → skip_zeros s n n ≡ n
unfolding skip_zeros
skip_zeros_self s zero = refl
skip_zeros_self s (suc n) = ground arith

module _ (int frac : Text) where
  abbrev whole : Text
  whole = int ++ b'.' ∷ frac

  skip_zeros-suc :
      (e : ℕ)
      → length int < suc e
      → skip_zeros whole (length int) (suc e)
        ≡ (if zero_at whole (suc e) then skip_zeros whole (length int) e else suc e)
  unfolding skip_zeros
  skip_zeros-suc e h = ground arith

  skip_zeros-strip :
      (k : ℕ)
      → k ≤ length frac
      → skip_zeros whole (length int) (length int + k) ≡ length int + length (strip (take k frac))
  skip_zeros-strip zero h = rw add-zero (skip_zeros_self whole (length int))
  skip_zeros-strip (suc k) h =
      let (c, at, next) = take-suc k frac h in
      let place : length int + suc k ≡ suc (length int + k) = omega arith in
      let seen : get_elem? whole (suc (length int + k)) ≡ some c =
        ap (get_elem? whole) (sym place) ∙ get_elem?-length int (b'.' ∷ frac) (suc k) ∙ at in
      let zero_seen : zero_at whole (suc (length int + k)) ≡ (c == b'0') = ap is_zero seen in
      let start : skip_zeros whole (length int) (length int + suc k) ≡ (
          if zero_at whole (suc (length int + k))
          then skip_zeros whole (length int) (length int + k)
          else suc (length int + k)) =
        ap (skip_zeros whole (length int)) place ∙ skip_zeros-suc (length int + k) (omega arith) in
      let stripped = ap strip next ∙ strip-snoc (take k frac) c in
      let size : length (take k frac ++ c ∷ []) ≡ suc k =
        omega (arith, length-append (take k frac) (c ∷ []), length-take k frac) in
      ground (arith, start, zero_seen, stripped, size, skip_zeros-strip k (omega arith))

  skip_zeros-end :
      skip_zeros whole (length int) (length whole - 1) ≡ length int + length (strip frac)
  skip_zeros-end =
      let size : length whole - 1 ≡ length int + length frac =
        omega (arith, length-append int (b'.' ∷ frac)) in
      ap (skip_zeros whole (length int)) size
      ∙ skip_zeros-strip (length frac) (omega arith)
      ∙ ap (λ s. length int + length (strip s)) (take-all frac)

  length-whole : length whole ≡ length int + suc (length frac)
  length-whole = length-append int (b'.' ∷ frac)

  erase_at :
      (rest : Text)
      → take (length rest) frac ≡ rest
      → length rest ≤ length frac
      → skip_zeros whole (length int) (length whole - 1) ≡ length int + length rest
      → length whole < 2 ^ 64
      → erase_zeros whole (length int) ≡ int ++ fraction rest
  unfolding erase_zeros
  erase_at [] taken bound end fits =
      let cut = take-length int (b'.' ∷ frac) 0 in ground (arith, end, cut, length-whole)
  erase_at (c ∷ rest) taken bound end fits =
      let cut : take (length int + suc (suc (length rest))) whole ≡ int ++ b'.' ∷ c ∷ rest =
        take-length int (b'.' ∷ frac) (suc (suc (length rest))) ∙ ap (λ s. int ++ b'.' ∷ s) taken in
      let last : (length int + suc (length rest) + 1) % 2 ^ 64
          ≡ length int + suc (suc (length rest)) =
        omega (arith, length-whole) in
      let behind : (length int + suc (length rest) == length int) ≡ false = ground arith in
      rw (end, behind, last) cut

  erase_zeros-fraction :
      length whole < 2 ^ 64 → erase_zeros whole (length int) ≡ int ++ fraction (strip frac)
  erase_zeros-fraction = erase_at (strip frac) (take-strip frac) (length-strip frac) skip_zeros-end

-- A text with a point: the zeros at its end are erased, and the point too if no digit is left
-- behind it. A text without a point stays as it is, zeros at its end or not.
pub trim_zeros-fraction :
    (int frac : Text)
    → HasNoDot int
    → length (int ++ b'.' ∷ frac) < 2 ^ 64
    → (trim_zeros (int ++ b'.' ∷ frac) ≡ int ++ fraction (strip frac)) × (trim_zeros int ≡ int)
unfolding trim_zeros
trim_zeros-fraction int frac h fits = (
  rw (find_dot-append int frac h, trim_zeros) (erase_zeros-fraction int frac fits),
  rw (find_dot-none int h, trim_zeros) refl,
)
