-- ===== src/Base/Recent.antt =====
-- The most recent elements of a list, as a bounded buffer keeps them.
use Prim.Native.Nat.{ℕ, suc, ◌≤◌}
use mathlib.Core.Path.{◌≡◌, refl}
use mathlib.Core.List.{List, [], ◌∷◌, ◌++◌}
use native.Mathlib.Omega.{arith}
use trader_cpp.Base.Tests.{leb, if◌then◌else◌}
use trader_cpp.Base.Lists.{length, length-append}

module _ {ℓ} {A : Type ℓ} where
  -- The last n elements, or all of them if there are fewer.
  abbrev pub keep_last : ℕ → List A → List A
  keep_last n [] = []
  keep_last n (x ∷ xs) = if leb (suc (length xs)) n then x ∷ xs else keep_last n xs

  pub length-keep_last : (n : ℕ) (xs : List A) → length (keep_last n xs) ≤ n
  length-keep_last n [] = omega arith
  length-keep_last n (x ∷ xs) = ground (arith, length-keep_last n xs)

  pub keep_last-all : (n : ℕ) (xs : List A) → length xs ≤ n → keep_last n xs ≡ xs
  keep_last-all n [] h = refl
  keep_last-all n (x ∷ xs) h = ground arith

  -- What was dropped before more is added would have been dropped then.
  pub keep_last-append :
      (n : ℕ) (xs ys : List A) → keep_last n (keep_last n xs ++ ys) ≡ keep_last n (xs ++ ys)
  keep_last-append n [] ys = refl
  keep_last-append n (x ∷ xs) ys = ground (arith, keep_last-append n xs ys, length-append xs ys)
