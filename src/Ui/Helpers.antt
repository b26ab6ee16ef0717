-- ===== src/Ui/Helpers.antt =====
-- src/ui/helpers.h: a cell of a table, padded or cut to its width.
use trader_cpp.Base.{
  ℕ, zero, suc, ◌-◌, ◌≤◌, ◌≡◌, refl, sym, ◌∙◌, [], ◌∷◌, ◌++◌, Text, length, take, drop, replicate,
  leb, ◌==◌, if◌then◌else◌, arith, length-append, length-replicate, length-take, take-append-drop,
  Bool-cases, inl, inr, append-nil,
}
use trader_cpp.External.Float.{Float}
use trader_cpp.Utils.Chars.{to_string}

unfoldable pub pad : Text → ℕ → Text
pad input width =
    if leb width (length input)
    then take width input
    else input ++ replicate (width - length input) b' '

unfoldable pub pad_double : {D : Type 0} ⦃float : Float D⦄ → D → ℕ → Text
unfolding pad
pad_double ⦃float⦄ input width =
    pad (if float.is_nan input then [] else float.to_string input) width

unfoldable pub pad_uint64 : ℕ → ℕ → Text
unfolding pad
pad_uint64 input width = pad (to_string input) width

-- `std::string(input.data())`: up to the first NUL.
unfoldable pub c_str : Text → Text
c_str [] = []
c_str (c ∷ s) = if c == 0 then [] else c ∷ c_str s

unfoldable pub pad_array : Text → ℕ → Text
unfolding pad c_str
pad_array input width = pad (c_str input) width

pub drop-all : (n : ℕ) (s : Text) → length s ≤ n → drop n s ≡ []
drop-all zero [] h = refl
drop-all zero (x ∷ s) h = absurd (omega arith)
drop-all (suc n) [] h = refl
drop-all (suc n) (x ∷ s) h = drop-all n s (omega arith)

-- A cell has exactly its width, and it is the text with spaces behind it or cut at its end.
pub pad_lem :
    (s : Text) (w : ℕ)
    → (length (pad s w) ≡ w) × (pad s w ++ drop w s ≡ s ++ replicate (w - length s) b' ')
unfolding pad
pad_lem s w = elim (Bool-cases (leb w (length s))) [
  | inl long ↦
      let none_left : w - length s ≡ 0 = ground arith in
      rw (long, none_left)
        (omega (arith, length-take w s), take-append-drop w s ∙ sym (append-nil s))
  | inr short ↦ rw short (
    ground (
      arith,
      length-append s (replicate (w - length s) b' '),
      length-replicate {A = ℕ} (w - length s) b' ',
    ),
    rw (drop-all w s (ground arith)) (append-nil _),
  )
]
