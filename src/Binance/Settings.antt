-- ===== src/Binance/Settings.antt =====
-- src/binance/config.cpp: the settings that are read from the environment.
pub mod Symbols
use trader_cpp.Base.{
  ℕ, ◌+◌, ◌^◌, ◌-◌, Bool, true, false, Option, none, some, List, [], ◌∷◌, ◌++◌, Text, length,
  Outcome, ok, throw, out_of_range, Reason, runtime_error, bad_px_cpu, bad_tx_cpu, ◌>>=◌, ◌>>◌,
  done, if◌then◌else◌, ◌==◌, ltb,
}
use trader_cpp.Utils.Chars.{from_chars}
use trader_cpp.Utils.Env.{Environment, get_env_or_throw}

pub record Config : Type 0 where
  pub api_key : Text
  pub private_key_path : Text
  pub fix_config_path : Text
  pub symbols : List Text
  -- `uint8_t`s
  pub px_cpu : ℕ
  pub tx_cpu : ℕ

-- A CPU's number, from `std::from_chars` into a `uint8_t`.
abbrev pub cpu_or : Reason → Option ℕ → Outcome ℕ
cpu_or reason none = throw (runtime_error reason)
cpu_or reason (some n) = ok n

unfoldable pub parse_cpu : Reason → Text → Outcome ℕ
unfolding from_chars
parse_cpu reason s = cpu_or reason (from_chars (2 ^ 8) s)

-- The two `substr`s of the key in the line that is logged: the second starts at `length() - 3`.
unfoldable pub log_api_key : Text → Outcome (Unit {0})
log_api_key api_key = if ltb (length api_key) 3 then throw out_of_range else done

-- A part that is not empty is kept.
abbrev pub keep_part : Text → List Text → List Text
keep_part [] parts = parts
keep_part (c ∷ s) parts = (c ∷ s) ∷ parts

-- The parts between the commas, with what has been read of the first one.
unfoldable pub split_from : Text → Text → List Text
split_from acc [] = keep_part acc []
split_from acc (c ∷ s) = elim (c == b',') [
  | true ↦ keep_part acc (split_from [] s)
  | false ↦ split_from (acc ++ c ∷ []) s
]

unfoldable pub split_symbols : Text → List Text
unfolding split_from
split_symbols = split_from []

unfoldable pub from_env : Environment → Outcome Config
unfolding parse_cpu log_api_key split_symbols
from_env env = do
  api_key ← get_env_or_throw env "API_KEY"
  private_key ← get_env_or_throw env "PRIVATE_KEY_PATH"
  fix_config ← get_env_or_throw env "FIX_CONFIG_PATH"
  px_cpu_str ← get_env_or_throw env "PX_SESSION_CPU"
  tx_cpu_str ← get_env_or_throw env "TX_SESSION_CPU"
  inst_str ← get_env_or_throw env "SYMBOLS"
  px_cpu ← parse_cpu bad_px_cpu px_cpu_str
  tx_cpu ← parse_cpu bad_tx_cpu tx_cpu_str
  _ ← log_api_key api_key
  ok (record {
    api_key = api_key;
    private_key_path = private_key;
    fix_config_path = fix_config;
    symbols = split_symbols inst_str;
    px_cpu = px_cpu;
    tx_cpu = tx_cpu;
  })
