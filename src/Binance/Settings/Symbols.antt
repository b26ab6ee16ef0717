-- ===== src/Binance/Settings/Symbols.antt =====
-- The settings of src/binance/config.cpp are read as they are written.
use trader_cpp.Base.{
  ℕ, ◌^◌, ◌≤◌, ◌<◌, ◌≡◌, ◌≢◌, refl, ap, sym, ◌∙◌, List, [], ◌∷◌, ◌++◌, Text, length, All, ok, arith,
  append_assoc, append-nil, Reason, bad_px_cpu, bad_tx_cpu, done,
}
use trader_cpp.Utils.Chars.{to_string}
use trader_cpp.Utils.Chars.RoundTrip.{from_chars-to_string}
use trader_cpp.Utils.Env.{Environment, get_env_or_throw}
use trader_cpp.Binance.Settings.{
  Config, cpu_or, parse_cpu, log_api_key, keep_part, split_from, split_symbols, from_env,
}

-- A name of a symbol: not empty, and without a comma.
abbrev pub IsName : Text → Type 0
IsName s = (0 < length s) × All (λ c. c ≢ b',') s

-- The names with a comma behind each.
abbrev pub join : List Text → Text
join [] = []
join (s ∷ ss) = s ++ b',' ∷ join ss

keep_part-name : (s : Text) (ss : List Text) → 0 < length s → keep_part s ss ≡ s ∷ ss
keep_part-name [] ss h = absurd (omega arith)
keep_part-name (c ∷ s) ss h = refl

split_from-name :
    (acc s rest : Text)
    → All (λ c. c ≢ b',') s
    → split_from acc (s ++ b',' ∷ rest) ≡ keep_part (acc ++ s) (split_from [] rest)
unfolding split_from
split_from-name acc [] rest h = rw append-nil
split_from-name acc (c ∷ s) rest h =
    ground (arith, h.0, split_from-name (acc ++ c ∷ []) s rest h.1, append_assoc acc (c ∷ []) s)

split_from-end : (acc s : Text) → All (λ c. c ≢ b',') s → split_from acc s ≡ keep_part (acc ++ s) []
unfolding split_from
split_from-end acc [] h = rw append-nil
split_from-end acc (c ∷ s) h =
    ground (arith, h.0, split_from-end (acc ++ c ∷ []) s h.1, append_assoc acc (c ∷ []) s)

split_symbols-join :
    (ss : List Text) (last : Text)
    → All IsName ss
    → IsName last
    → split_symbols (join ss ++ last) ≡ ss ++ last ∷ []
unfolding split_symbols
split_symbols-join [] last h l = split_from-end [] last l.1 ∙ keep_part-name last [] l.0
split_symbols-join (s ∷ ss) last h l =
    ap (split_from []) (append_assoc s (b',' ∷ join ss) last)
    ∙ split_from-name [] s (join ss ++ last) h.0.1
    ∙ keep_part-name s _ h.0.0
    ∙ ap (◌∷◌ s) (split_symbols-join ss last h.1 l)

parse_cpu-to_string : (r : Reason) (n : ℕ) → n < 2 ^ 8 → parse_cpu r (to_string n) ≡ ok n
unfolding parse_cpu
parse_cpu-to_string r n h = ap (cpu_or r) (from_chars-to_string n (2 ^ 8) h).1

log_api_key-long : (s : Text) → 3 ≤ length s → log_api_key s ≡ done
unfolding log_api_key
log_api_key-long s h = ground arith

-- If the environment holds a key of three characters or more, any paths, the two CPUs' numbers
-- below 256 in decimal, and one or more names with commas between them, then these are the settings.
pub from_env-roundtrip :
    (env : Environment) (c : Config) (ss : List Text) (last : Text)
    → All IsName ss
    → IsName last
    → c.symbols ≡ ss ++ last ∷ []
    → c.px_cpu < 2 ^ 8
    → c.tx_cpu < 2 ^ 8
    → 3 ≤ length c.api_key
    → get_env_or_throw env "API_KEY" ≡ ok c.api_key
    → get_env_or_throw env "PRIVATE_KEY_PATH" ≡ ok c.private_key_path
    → get_env_or_throw env "FIX_CONFIG_PATH" ≡ ok c.fix_config_path
    → get_env_or_throw env "PX_SESSION_CPU" ≡ ok (to_string c.px_cpu)
    → get_env_or_throw env "TX_SESSION_CPU" ≡ ok (to_string c.tx_cpu)
    → get_env_or_throw env "SYMBOLS" ≡ ok (join ss ++ last)
    → from_env env ≡ ok c
unfolding from_env
from_env-roundtrip env c ss last hs hl same px tx long e1 e2 e3 e4 e5 e6 =
    let parsed_px = parse_cpu-to_string bad_px_cpu c.px_cpu px in
    let parsed_tx = parse_cpu-to_string bad_tx_cpu c.tx_cpu tx in
    let names = split_symbols-join ss last hs hl ∙ sym same in
    rw (e1, e2, e3, e4, e5, e6, parsed_px, parsed_tx, log_api_key-long c.api_key long, names) refl
