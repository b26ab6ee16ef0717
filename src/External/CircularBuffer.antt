-- ===== src/External/CircularBuffer.antt =====
-- `boost::circular_buffer`: `push_back` on a full buffer drops the oldest element.
use trader_cpp.Base.{ℕ, ◌≡◌, refl, List, [], ◌∷◌, ◌++◌, keep_last}

pub record CircularBuffer (T R : Type 0) : Type 0 where
  -- A new buffer of a capacity.
  pub make : ℕ → R
  pub capacity : R → ℕ
  -- Oldest first.
  pub contents : R → List T
  pub push_back : T → R → R
  pub contents-make : (n : ℕ) → contents (make n) ≡ []
  pub capacity-make : (n : ℕ) → capacity (make n) ≡ n
  pub capacity-push_back : (x : T) (r : R) → capacity (push_back x r) ≡ capacity r
  pub contents-push_back :
      (x : T) (r : R) → contents (push_back x r) ≡ keep_last (capacity r) (contents r ++ x ∷ [])

-- The laws can be met: a capacity and a list.
instance abbrev pub list_buffer : {T : Type 0} → CircularBuffer T (ℕ × List T)
list_buffer = record {
  make = λ n. (n, []);
  capacity = λ r. r.0;
  contents = λ r. r.1;
  push_back = λ x r. (r.0, keep_last r.0 (r.1 ++ x ∷ []));
  contents-make = λ n. refl;
  capacity-make = λ n. refl;
  capacity-push_back = λ x r. refl;
  contents-push_back = λ x r. refl;
}
