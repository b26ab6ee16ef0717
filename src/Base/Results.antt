-- ===== src/Base/Results.antt =====
-- Exceptions as values. A call that may throw and changes a state is an `Attempt`: the state as the
-- call leaves it, also when it throws, and what it returned.
use mathlib.Core.Path.{◌≡◌, refl}
use mathlib.Core.Logic.{◌⊎◌, inl, inr}

-- The messages of the `std::runtime_error`s that the sources throw.
pub data Reason : Type 0 where
  short_symbol unmapped_symbol unmapped_side : Reason
  envvar_not_defined empty_envvar bad_px_cpu bad_tx_cpu : Reason
  pem_not_opened key_not_read no_raw_key bad_key_length : Reason
  sodium_not_initialized no_keypair not_signed : Reason
  bad_log_path log_not_opened watch_not_found : Reason
  cpu_out_of_range affinity_failed permission_denied realtime_failed priority_failed : Reason
  thread_name_failed unsupported_platform : Reason

pub data Exception : Type 0 where
  runtime_error : Reason → Exception
  out_of_range : Exception
  -- thrown by QuickFIX
  field_not_found incorrect_format unsupported_message config_error : Exception
  -- thrown by spdlog
  spdlog_ex : Exception
  -- `std::system_error`, and what is no `std::exception`
  system_error unknown : Exception

pub data Outcome {ℓ} (A : Type ℓ) : Type ℓ where
  ok : A → Outcome A
  throw : Exception → Outcome A

infixl 5 ◌>>=◌ ◌>>◌
abbrev pub ◌>>=◌ {ℓ κ} : {A : Type ℓ} {B : Type κ} → Outcome A → (A → Outcome B) → Outcome B
ok a >>= f = f a
throw e >>= f = throw e

abbrev pub ◌>>◌ {ℓ} : {B : Type ℓ} → Outcome (Unit {0}) → Outcome B → Outcome B
m >> k = m >>= λ _. k

abbrev pub done : Outcome (Unit {0})
done = ok tt

abbrev pub Attempt {ℓ} : Type ℓ → Type ℓ
Attempt S = S × Outcome (Unit {0})

-- What throws before any change leaves the state alone.
abbrev pub using {ℓ κ} : {S : Type ℓ} {A : Type κ} → S → Outcome A → (A → Attempt S) → Attempt S
using s (ok a) k = k a
using s (throw e) k = (s, throw e)

-- A second call runs if the first did not throw.
abbrev pub and_then {ℓ} : {S : Type ℓ} → Attempt S → (S → Attempt S) → Attempt S
and_then (s, ok _) k = k s
and_then (s, throw e) k = (s, throw e)

pub Outcome-cases {ℓ} :
    {A : Type ℓ} (r : Outcome A) → ((a : A) × (r ≡ ok a)) ⊎ ((e : Exception) × (r ≡ throw e))
Outcome-cases (ok a) = inl (a, refl)
Outcome-cases (throw e) = inr (e, refl)

-- A call on a part of the state.
abbrev pub on_part {ℓ κ} : {S : Type ℓ} {T : Type κ} → (S → T) → Attempt S → Attempt T
on_part f (s, r) = (f s, r)
