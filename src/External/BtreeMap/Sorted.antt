-- ===== src/External/BtreeMap/Sorted.antt =====
-- The interface can be met: sorted association lists, for either comparator.
use trader_cpp.Base.{
  ℕ, ◌≡◌, refl, Bool, true, false, none, some, List, [], ◌∷◌, ◌==◌, if◌then◌else◌, length, All,
  arith,
}
use trader_cpp.External.BtreeMap.Order.{Level, find, less, greater, IsSorted, BtreeMap}

pub record IsStrictOrder (before : ℕ → ℕ → Bool) : Type 0 where
  pub trans : (a b c : ℕ) → before a b ≡ true → before b c ≡ true → before a c ≡ true
  pub tri : (a b : ℕ) → a == b ≡ false → before a b ≡ false → before b a ≡ true

pub less-IsStrictOrder : IsStrictOrder less
less-IsStrictOrder = record { trans = λ a b c. ground arith; tri = λ a b. ground arith }

pub greater-IsStrictOrder : IsStrictOrder greater
greater-IsStrictOrder = record { trans = λ a b c. ground arith; tri = λ a b. ground arith }

module _ (before : ℕ → ℕ → Bool) where
  abbrev pub put : ℕ → ℕ → List Level → List Level
  put k v [] = (k, v) ∷ []
  put k v ((j, w) ∷ m) =
      if j == k
      then (k, v) ∷ m
      else (if before k j then (k, v) ∷ (j, w) ∷ m else (j, w) ∷ put k v m)

  abbrev pub remove : ℕ → List Level → List Level
  remove k [] = []
  remove k ((j, w) ∷ m) = if j == k then remove k m else (j, w) ∷ remove k m

  pub find-put :
      (k v j : ℕ) (m : List Level) → find j (put k v m) ≡ (if k == j then some v else find j m)
  find-put k v j [] = refl
  find-put k v j ((i, w) ∷ m) = ground (arith, find-put k v j m)

  pub find-remove :
      (k j : ℕ) (m : List Level) → find j (remove k m) ≡ (if k == j then none else find j m)
  find-remove k j [] = ground arith
  find-remove k j ((i, w) ∷ m) = ground (arith, find-remove k j m)

  abbrev After : ℕ → List Level → Type 0
  After k = All (λ (e : Level). before k e.0 ≡ true)

  After-remove : (a k : ℕ) (m : List Level) → After a m → After a (remove k m)
  After-remove a k [] h = tt
  After-remove a k ((j, w) ∷ m) h = ground (arith, After-remove a k m h.1)

  pub remove-IsSorted : (k : ℕ) (m : List Level) → IsSorted before m → IsSorted before (remove k m)
  remove-IsSorted k [] s = tt
  remove-IsSorted k ((j, w) ∷ m) s = ground (arith, remove-IsSorted k m s.1, After-remove j k m s.0)

  After-put : (a k v : ℕ) (m : List Level) → before a k ≡ true → After a m → After a (put k v m)
  After-put a k v [] h r = (h, tt)
  After-put a k v ((j, w) ∷ m) h r = ground (arith, After-put a k v m h r.1)

  abbrev pub SortedList : Type 0
  SortedList = (m : List Level) × IsSorted before m

  module _ (laws : IsStrictOrder before) where
    open laws use {trans, tri}

    After-trans : (a b : ℕ) (m : List Level) → before a b ≡ true → After b m → After a m
    After-trans a b [] h r = tt
    After-trans a b ((j, w) ∷ m) h r = (trans a b j h r.0, After-trans a b m h r.1)

    pub put-IsSorted : (k v : ℕ) (m : List Level) → IsSorted before m → IsSorted before (put k v m)
    put-IsSorted k v [] s = (tt, tt)
    put-IsSorted k v ((j, w) ∷ m) s =
        ground (arith, put-IsSorted k v m s.1, tri k j, After-put j k v m, After-trans k j m)

abbrev pub sorted_map :
    (before : ℕ → ℕ → Bool) → IsStrictOrder before → BtreeMap before (SortedList before)
sorted_map before laws = record {
  empty = ([], tt);
  entries = λ m. m.0;
  size = λ m. length m.0;
  assign = λ k v m. (put before k v m.0, put-IsSorted before laws k v m.0 m.1);
  erase = λ k m. (remove before k m.0, remove-IsSorted before k m.0 m.1);
  entries-empty = refl;
  size-entries = λ m. refl;
  entries-IsSorted = λ m. m.1;
  find-assign = λ k v j m. find-put before k v j m.0;
  find-erase = λ k j m. find-remove before k j m.0;
}

abbrev pub BidList : Type 0
BidList = SortedList greater

abbrev pub AskList : Type 0
AskList = SortedList less

instance abbrev pub bid_list : BtreeMap greater BidList
bid_list = sorted_map greater greater-IsStrictOrder

instance abbrev pub ask_list : BtreeMap less AskList
ask_list = sorted_map less less-IsStrictOrder
