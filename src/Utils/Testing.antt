-- ===== src/Utils/Testing.antt =====
-- src/utils/testing.h: the wait loop, for arguments that are not negative.
use trader_cpp.Base.{
  ℕ, zero, suc, ◌+◌, ◌*◌, ◌^◌, ◌≤◌, ◌<◌, ◌≡◌, refl, Bool, true, false, Bool-cases, ◌⊎◌, inl, inr,
  if◌then◌else◌, ltb, arith,
}

-- What the loop comes to: it returns, `waited` leaves the range of an `int`, or the fuel is used up.
pub data Wait : Type 0 where
  returned : Bool → Wait
  overflows out_of_fuel : Wait

-- `condition n` is what the call of that number returns, counted from the next one.
unfoldable pub wait_from : ℕ → (ℕ → Bool) → ℕ → ℕ → ℕ → Wait
wait_from zero condition timeout_ms interval_ms waited = out_of_fuel
wait_from (suc fuel) condition timeout_ms interval_ms waited =
    let rest =
      wait_from fuel (λ n. condition (suc n)) timeout_ms interval_ms (waited + interval_ms) in
    if ltb waited timeout_ms
    then (if condition 0
        then returned true
        else (if ltb (waited + interval_ms) (2 ^ 31) then rest else overflows))
    else returned false

unfoldable pub wait_for : ℕ → (ℕ → Bool) → ℕ → ℕ → Wait
unfolding wait_from
wait_for fuel condition timeout_ms interval_ms = wait_from fuel condition timeout_ms interval_ms 0

-- What the loop is to return, from some time on.
abbrev Answers : (ℕ → Bool) → ℕ → ℕ → ℕ → Wait → Type 0
Answers condition timeout_ms interval_ms waited r =
    ((r ≡ returned true)
      × ((n : ℕ) × (waited + n * interval_ms < timeout_ms) × (condition n ≡ true)))
    ⊎ ((r ≡ returned false)
        × ((n : ℕ) → waited + n * interval_ms < timeout_ms → condition n ≡ false))

next_time :
    (waited n interval_ms : ℕ)
    → waited + suc n * interval_ms ≡ waited + interval_ms + n * interval_ms
next_time waited n interval_ms = omega arith

no_time :
    (waited n interval_ms timeout_ms : ℕ)
    → ltb waited timeout_ms ≡ false
    → ¬ (waited + n * interval_ms < timeout_ms)
no_time waited n interval_ms timeout_ms h = grind arith

module _ (condition : ℕ → Bool) (timeout_ms interval_ms waited : ℕ) where
  -- The calls after one that was false.
  later :
      (r : Wait)
      → condition 0 ≡ false
      → Answers (λ n. condition (suc n)) timeout_ms interval_ms (waited + interval_ms) r
      → Answers condition timeout_ms interval_ms waited r
  later r c (inl (e, (n, p, q))) = inl (e, (suc n, rw (next_time waited n interval_ms) p, q))
  later r c (inr (e, k)) = inr (e, none_true)
    where
      none_true : (n : ℕ) → waited + n * interval_ms < timeout_ms → condition n ≡ false
      none_true zero p = c
      none_true (suc n) p = k n (rw (← next_time waited n interval_ms) p)

wait_from-Answers :
    (fuel : ℕ) (condition : ℕ → Bool) (timeout_ms interval_ms waited : ℕ)
    → 1 ≤ interval_ms
    → timeout_ms + interval_ms ≤ 2 ^ 31
    → 1 ≤ fuel
    → timeout_ms < fuel + waited
    → Answers condition timeout_ms interval_ms waited
        (wait_from fuel condition timeout_ms interval_ms waited)
unfolding wait_from
wait_from-Answers zero condition timeout_ms interval_ms waited i t f h = absurd (omega arith)
wait_from-Answers (suc fuel) condition timeout_ms interval_ms waited i t f h =
    elim (Bool-cases (ltb waited timeout_ms)) [
      | inr late ↦
          rw late (inr (refl, λ n p. absurd (no_time waited n interval_ms timeout_ms late p)))
      | inl early ↦ elim (Bool-cases (condition 0)) [
        | inl now ↦ rw (early, now) (inl (refl, (0, grind arith, now)))
        | inr not_yet ↦
            rw (early, not_yet, in_range early)
              (later condition timeout_ms interval_ms waited _ not_yet (
                wait_from-Answers fuel (λ n. condition (suc n)) timeout_ms interval_ms
                  (waited + interval_ms) i t (grind arith) (grind arith)))
      ]
    ]
  where
    in_range : ltb waited timeout_ms ≡ true → ltb (waited + interval_ms) (2 ^ 31) ≡ true
    in_range early = grind arith

-- With an interval that is not zero, and a timeout that with the interval added still is in the range
-- of an `int`, a fuel of one more than the timeout is enough:
-- the loop returns. It returns true if the condition holds at one of the calls that come before the
-- timeout, the n-th n intervals after the start, and false if it holds at none of them.
pub wait_for-Answers :
    (fuel : ℕ) (condition : ℕ → Bool) (timeout_ms interval_ms : ℕ)
    → 1 ≤ interval_ms
    → timeout_ms + interval_ms ≤ 2 ^ 31
    → timeout_ms < fuel
    → let r = wait_for fuel condition timeout_ms interval_ms in
      ((r ≡ returned true) × ((n : ℕ) × (n * interval_ms < timeout_ms) × (condition n ≡ true)))
      ⊎ ((r ≡ returned false) × ((n : ℕ) → n * interval_ms < timeout_ms → condition n ≡ false))
unfolding wait_for
wait_for-Answers fuel condition timeout_ms interval_ms i t f =
    elim (wait_from-Answers fuel condition timeout_ms interval_ms 0 i t (omega arith)
      (omega arith)) [
        | inl (e, (n, p, q)) ↦ inl (e, (n, omega arith, q))
        | inr (e, k) ↦ inr (e, λ n p. k n (omega arith))
      ]
