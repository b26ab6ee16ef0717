-- ===== src/Core/OrderBook/Format.antt =====
-- The comparison and the formatter of `BidAsk` in src/core/bid_ask.h.
use trader_cpp.Base.{
  ℕ, suc, ◌≡◌, refl, ap, ◌↔◌, Bool, true, ◌&&◌, [], ◌∷◌, ◌++◌, Text, codes, drop, ◌==◌, All, arith,
  max,
}
use trader_cpp.Core.OrderBook.{BidAsk}
use trader_cpp.Utils.Chars.{to_string}
use trader_cpp.Utils.Chars.RoundTrip.{IsDigit, from_chars-to_string}

unfoldable pub equals : BidAsk → BidAsk → Bool
equals a b =
    (a.bid_sz == b.bid_sz)
    && ((a.bid_px == b.bid_px) && ((a.ask_sz == b.ask_sz) && (a.ask_px == b.ask_px)))

unfoldable pub format : BidAsk → Text
format ba =
    codes "{bid_sz: "
    ++ (to_string ba.bid_sz
        ++ (codes ", bid_px: "
            ++ (to_string ba.bid_px
                ++ (codes ", ask_px: "
                    ++ (to_string ba.ask_px
                        ++ (codes ", ask_sz: " ++ (to_string ba.ask_sz ++ codes "}")))))))

to_string_injective : (m n : ℕ) → to_string m ≡ to_string n → m ≡ n
to_string_injective m n e =
    let read_m = (from_chars-to_string m (suc (max m n)) (omega arith)).1 in
    let read_n = (from_chars-to_string n (suc (max m n)) (omega arith)).1 in cc (read_m, read_n, e)

-- Digits end where the next other character stands.
digits_split :
    (a b r s : Text) (c : ℕ)
    → ¬ IsDigit c
    → All IsDigit a
    → All IsDigit b
    → a ++ c ∷ r ≡ b ++ c ∷ s
    → (a ≡ b) × (r ≡ s)
digits_split [] [] r s c n h k e = (refl, cc e)
digits_split [] (d ∷ b) r s c n h k e = let same : c ≡ d = cc e in absurd (n (rw same k.0))
digits_split (d ∷ a) [] r s c n h k e = let same : c ≡ d = cc e in absurd (n (rw same h.0))
digits_split (d ∷ a) (d' ∷ b) r s c n h k e =
    let (same, rest) = digits_split a b r s c n h.1 k.1 (cc e) in (cc (e, same), rest)

digits : (n : ℕ) → All IsDigit (to_string n)
digits n = (from_chars-to_string n (suc n) (omega arith)).0

-- Two numbers, with a character behind each that is no digit.
number_split :
    (m n : ℕ) (r s : Text) (c : ℕ)
    → ¬ IsDigit c
    → to_string m ++ c ∷ r ≡ to_string n ++ c ∷ s
    → (m ≡ n) × (r ≡ s)
number_split m n r s c h e =
    let (same, rest) = digits_split (to_string m) (to_string n) r s c h (digits m) (digits n) e in
    (to_string_injective m n same, rest)

comma : ¬ IsDigit b','
comma h = omega (arith, h.0)

brace : ¬ IsDigit b'}'
brace h = omega (arith, h.1)

equals_sound : (a b : BidAsk) → equals a b ≡ true → a ≡ b
unfolding equals
equals_sound a b e =
    let (bid_sz, bid_px, ask_sz, ask_px) : (a.bid_sz ≡ b.bid_sz)
        × (a.bid_px ≡ b.bid_px)
        × (a.ask_sz ≡ b.ask_sz)
        × (a.ask_px ≡ b.ask_px) =
      ground (arith, e) in
    λ i. record { bid_sz = bid_sz i; bid_px = bid_px i; ask_px = ask_px i; ask_sz = ask_sz i }

equals_refl : (a : BidAsk) → equals a a ≡ true
unfolding equals
equals_refl a = ground arith

-- What stands behind the first numbers of a row and the commas.
abbrev tail2 : BidAsk → Text
tail2 ba = codes " ask_sz: " ++ (to_string ba.ask_sz ++ codes "}")

abbrev tail1 : BidAsk → Text
tail1 ba = codes " ask_px: " ++ (to_string ba.ask_px ++ b',' ∷ tail2 ba)

abbrev tail0 : BidAsk → Text
tail0 ba = codes " bid_px: " ++ (to_string ba.bid_px ++ b',' ∷ tail1 ba)

-- Rows are equal by the comparison exactly when their texts are the same.
pub equals_iff-format : (a b : BidAsk) → (equals a b ≡ true) ↔ (format a ≡ format b)
unfolding format
equals_iff-format a b = (λ e. ap format (equals_sound a b e), λ e. same_row e)
  where
    same_row : format a ≡ format b → equals a b ≡ true
    same_row e =
        let (bid_sz, e1) =
          number_split a.bid_sz b.bid_sz (tail0 a) (tail0 b) b',' comma (ap (drop 9) e) in
        let (bid_px, e2) =
          number_split a.bid_px b.bid_px (tail1 a) (tail1 b) b',' comma (ap (drop 9) e1) in
        let (ask_px, e3) =
          number_split a.ask_px b.ask_px (tail2 a) (tail2 b) b',' comma (ap (drop 9) e2) in
        let (ask_sz, e4) = number_split a.ask_sz b.ask_sz [] [] b'}' brace (ap (drop 9) e3) in
        let same : a ≡ b = λ i. record {
          bid_sz = bid_sz i;
          bid_px = bid_px i;
          ask_px = ask_px i;
          ask_sz = ask_sz i;
        } in
        rw same (equals_refl b)
