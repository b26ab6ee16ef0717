-- ===== src/External/BtreeMap/Unique.antt =====
-- Two maps with the same sizes at the same keys are visited alike: the order of iteration is a
-- function of the abstract map.
use trader_cpp.Base.{ℕ, ◌≡◌, refl, Bool, true, none, some, List, [], ◌∷◌, All, arith}
use trader_cpp.External.BtreeMap.Order.{Level, find, less, greater, IsSorted}

abbrev pub IsAsymmetric : (ℕ → ℕ → Bool) → Type 0
IsAsymmetric before = (a b : ℕ) → before a b ≡ true → before b a ≡ true → ⊥

pub less-IsAsymmetric : IsAsymmetric less
less-IsAsymmetric a b p q = ground arith

pub greater-IsAsymmetric : IsAsymmetric greater
greater-IsAsymmetric a b p q = ground arith

module _ (before : ℕ → ℕ → Bool) (asym : IsAsymmetric before) where
  abbrev After : ℕ → List Level → Type 0
  After k = All (λ (e : Level). before k e.0 ≡ true)

  find-After : (k j v : ℕ) (m : List Level) → After k m → find j m ≡ some v → before k j ≡ true
  find-After k j v [] h e = cc
  find-After k j v ((i, w) ∷ m) h e = ground (arith, find-After k j v m h.1)

  find_self-After : (k : ℕ) (m : List Level) → After k m → find k m ≡ none
  find_self-After k [] h = refl
  find_self-After k ((i, w) ∷ m) h = ground (arith, find_self-After k m h.1, asym k k)

  head_eq :
      (k v j w : ℕ) (xs ys : List Level)
      → After k xs
      → After j ys
      → ((q : ℕ) → find q ((k, v) ∷ xs) ≡ find q ((j, w) ∷ ys))
      → (k ≡ j) × (v ≡ w)
  head_eq k v j w xs ys p q same =
      ground (arith, same k, same j, asym k j, find-After k j w xs p, find-After j k v ys q)

  pub entries-ext :
      (xs ys : List Level)
      → IsSorted before xs
      → IsSorted before ys
      → ((q : ℕ) → find q xs ≡ find q ys)
      → xs ≡ ys
  entries-ext [] [] s t same = refl
  entries-ext [] ((j, w) ∷ ys) s t same = ground (arith, same j)
  entries-ext ((k, v) ∷ xs) [] s t same = ground (arith, same k)
  entries-ext ((k, v) ∷ xs) ((j, w) ∷ ys) s t same =
      let (key, value) = head_eq k v j w xs ys s.0 t.0 same in
      let rest : (q : ℕ) → find q xs ≡ find q ys =
        λ q. ground (arith, same q, key, find_self-After k xs s.0, find_self-After j ys t.0) in
      cc (key, value, entries-ext xs ys s.1 t.1 rest)
