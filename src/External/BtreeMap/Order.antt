-- ===== src/External/BtreeMap/Order.antt =====
-- The interface: iteration order, and what a write does to every key.
use trader_cpp.Base.{
  ℕ, ◌≡◌, Bool, true, Option, none, some, List, [], ◌∷◌, ◌==◌, if◌then◌else◌, ltb, length, All,
}

abbrev pub Level : Type 0
Level = ℕ × ℕ

abbrev pub find : ℕ → List Level → Option ℕ
find k [] = none
find k ((j, v) ∷ m) = if j == k then some v else find k m

-- `std::less<>` and `std::greater<>`
abbrev pub less : ℕ → ℕ → Bool
less a b = ltb a b

abbrev pub greater : ℕ → ℕ → Bool
greater a b = ltb b a

-- Each key comes before all later ones.
abbrev pub IsSorted : (ℕ → ℕ → Bool) → List Level → Type 0
IsSorted before [] = Unit
IsSorted before ((k, v) ∷ m) = All (λ (e : Level). before k e.0 ≡ true) m × IsSorted before m

pub record BtreeMap (before : ℕ → ℕ → Bool) (M : Type 0) : Type 0 where
  pub empty : M
  -- What an iteration from `begin()` to `end()` visits.
  pub entries : M → List Level
  pub size : M → ℕ
  -- `m[k] = v`
  pub assign : ℕ → ℕ → M → M
  pub erase : ℕ → M → M
  pub entries-empty : entries empty ≡ []
  pub size-entries : (m : M) → size m ≡ length (entries m)
  pub entries-IsSorted : (m : M) → IsSorted before (entries m)
  pub find-assign :
      (k v j : ℕ) (m : M)
      → find j (entries (assign k v m)) ≡ (if k == j then some v else find j (entries m))
  pub find-erase :
      (k j : ℕ) (m : M)
      → find j (entries (erase k m)) ≡ (if k == j then none else find j (entries m))
