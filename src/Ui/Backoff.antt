-- ===== src/Ui/Backoff.antt =====
-- `adaptive_backoff`, which `poll_queue` of src/ui/order_book_box.cpp and of src/ui/trade_box.cpp
-- declare alike: what the worker does each time it finds its queue empty.
use trader_cpp.Base.{
  ℕ, zero, suc, ◌+◌, ◌-◌, ◌*◌, ◌%◌, ◌^◌, ◌≤◌, ◌≡◌, refl, ap, min, ltb, if◌then◌else◌, arith,
}
use native.Mathlib.Decide.{dec_lt}
use native.Mathlib.Nat.{pow-suc}

abbrev pub min_spins : ℕ
min_spins = 10

abbrev pub initial_sleep_us : ℕ
initial_sleep_us = 10

abbrev pub max_sleep_us : ℕ
max_sleep_us = 1000

-- A `uint8_t` and a `uint16_t`.
pub record Backoff : Type 0 where
  pub spin_count : ℕ
  pub sleep_time_us : ℕ

abbrev pub reset : Backoff
reset = record { spin_count = 0; sleep_time_us = initial_sleep_us }

-- `std::this_thread::yield()` or `sleep_for`, in microseconds.
pub data Pause : Type 0 where
  yields : Pause
  sleeps : ℕ → Pause

unfoldable pub adaptive_backoff : Backoff → Backoff × Pause
adaptive_backoff b =
    if ltb b.spin_count min_spins
    then (record b { spin_count = (b.spin_count + 1) % 2 ^ 8 }, yields)
    else (
      record b { sleep_time_us = min (b.sleep_time_us * 2 % 2 ^ 16) max_sleep_us },
      sleeps b.sleep_time_us,
    )

-- The state after so many calls in a row.
abbrev pub after_calls : ℕ → Backoff
after_calls zero = reset
after_calls (suc n) = (adaptive_backoff (after_calls n)).0

-- The n-th pause of a row, counted from 0: ten times it yields, then it sleeps for ten microseconds,
-- twice as long each time, and never more than a millisecond.
abbrev pub pause_at : ℕ → Pause
pause_at n = if ltb n 10 then yields else sleeps (min (10 * 2 ^ (n - 10)) 1000)

after_calls-spinning :
    (n : ℕ) → n ≤ 10 → after_calls n ≡ record { spin_count = n; sleep_time_us = 10 }
unfolding adaptive_backoff
after_calls-spinning zero h = refl
after_calls-spinning (suc n) h = ground (arith, after_calls-spinning n (omega arith))

shift : (n : ℕ) → suc n + 10 ≡ suc (n + 10)
shift n = omega arith

after_calls-sleeping :
    (n : ℕ)
    → after_calls (n + 10) ≡ record { spin_count = 10; sleep_time_us = min (10 * 2 ^ n) 1000 }
unfolding adaptive_backoff
after_calls-sleeping zero = refl
after_calls-sleeping (suc n) =
    let next : after_calls (suc n + 10) ≡ after_calls (suc (n + 10)) = ap after_calls (shift n) in
    ground (arith, next, after_calls-sleeping n, pow-suc 2 n)

-- However often in a row the queue is found empty, the pause is the one of `pause_at`; the `uint8_t`
-- and the `uint16_t` never wrap.
pub adaptive_backoff-pause_at : (n : ℕ) → (adaptive_backoff (after_calls n)).1 ≡ pause_at n
unfolding adaptive_backoff
adaptive_backoff-pause_at n = elim (dec_lt n 10) [
  | yes early ↦ ground (arith, after_calls-spinning n (omega arith))
  | no late ↦
      let split : n ≡ n - 10 + 10 = omega arith in
      let sleeping = after_calls-sleeping (n - 10) in
      let here : after_calls n ≡ after_calls (n - 10 + 10) = ap after_calls split in
      ground (arith, here, sleeping)
]
