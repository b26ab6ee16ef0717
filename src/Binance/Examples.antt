-- ===== src/Binance/Examples.antt =====
-- Examples for src/binance/*.
use trader_cpp.Base.{
  false, throw, runtime_error, pem_not_opened, ◌++◌, ◌++◌, ◌≡◌, refl, none, some, List, [], ◌∷◌,
  Text, codes, ok, arith, text_eq, if◌then◌else◌,
}
use trader_cpp.External.ConcurrentQueue.{list_queue}
use trader_cpp.External.Fix.{Increment}
use trader_cpp.External.Float.{Decimal}
use trader_cpp.Binance.Auth.{Auth, Crypto, clear_keys, sign_payload}
use trader_cpp.Binance.FixApp.{
  FixApp, AppMessage, full_refresh, incremental_refresh, execution_report, deliver,
}
use trader_cpp.Binance.FixApp.Routing.{deliver-contents}
use trader_cpp.Binance.MarketMessageVariant.{MarketMessageVariant, snapshot, increment}
use trader_cpp.Binance.Settings.{Config, from_env}
use trader_cpp.Binance.Settings.Symbols.{from_env-roundtrip}
use trader_cpp.Core.OrderBook.Examples.{snapshot_message, increment_message}
use trader_cpp.Utils.Chars.{to_string}
use trader_cpp.Utils.Env.{Environment, get_env_or_throw}

abbrev pub idle : FixApp (List (MarketMessageVariant Decimal)) (List (Increment Decimal))
idle = record {
  symbols = codes "BTCUSDT" ∷ [];
  max_depth = 100;
  px_cpu = 1;
  tx_cpu = 2;
  order_queue = [];
  trade_queue = [];
}

abbrev deliveries : List (Text × AppMessage Decimal)
deliveries =
    (codes "PX", full_refresh snapshot_message)
    ∷ (codes "TX", incremental_refresh increment_message)
    ∷ (codes "OX", execution_report)
    ∷ (codes "PX", incremental_refresh increment_message)
    ∷ (codes "OX", incremental_refresh increment_message)
    ∷ []

deliver-contents_example :
    let app = deliver deliveries idle in
    (app.order_queue ≡ snapshot snapshot_message ∷ increment increment_message ∷ [])
    × (app.trade_queue ≡ increment_message ∷ [])
deliver-contents_example =
    deliver-contents deliveries idle (refl, (tt, (tt, (tt, (tt, tt))))) refl refl

abbrev pub settings : Config
settings = record {
  api_key = codes "abcdef";
  private_key_path = codes "key.pem";
  fix_config_path = codes "fix.cfg";
  symbols = codes "BTCUSDT" ∷ codes "ETHUSDT" ∷ [];
  px_cpu = 1;
  tx_cpu = 12;
}

-- Keys are told apart by their texts.
abbrev pub environment : Environment
environment key =
    let k = codes key in
    if text_eq k (codes "API_KEY")
    then some (codes "abcdef")
    else (if text_eq k (codes "PRIVATE_KEY_PATH")
        then some (codes "key.pem")
        else (if text_eq k (codes "FIX_CONFIG_PATH")
            then some (codes "fix.cfg")
            else (if text_eq k (codes "PX_SESSION_CPU")
                then some (codes "1")
                else (if text_eq k (codes "TX_SESSION_CPU")
                    then some (codes "12")
                    else (if text_eq k (codes "SYMBOLS")
                        then some (codes "BTCUSDT,ETHUSDT")
                        else none)))))

from_env-roundtrip_example : from_env environment ≡ ok settings
unfolding get_env_or_throw to_string
from_env-roundtrip_example =
    from_env-roundtrip environment settings (codes "BTCUSDT" ∷ []) (codes "ETHUSDT")
      (
        (
          omega arith,
          (
            omega arith,
            (
              omega arith,
              (omega arith, (omega arith, (omega arith, (omega arith, (omega arith, tt))))),
            ),
          ),
        ),
        tt,
      )
      (
        omega arith,
        (
          omega arith,
          (
            omega arith,
            (omega arith, (omega arith, (omega arith, (omega arith, (omega arith, tt))))),
          ),
        ),
      )
      refl (omega arith) (omega arith) (omega arith) refl refl refl refl refl refl

-- Files and keys are texts. There is one file.
abbrev pub one_file : Crypto Text Text
one_file = record {
  sodium_init_fails = false;
  fopen = λ path. if text_eq path (codes "key.pem") then some path else none;
  pem_read_private_key = λ file. some file;
  get_raw_private_key = λ key. some (32, key);
  sign_seed_keypair = λ seed. some seed;
  sign_detached = λ payload sk. some (payload ++ sk);
  bin2base64 = λ sig. sig;
}

abbrev pub trader : Auth
trader = record { api_key = codes "abcdef"; private_pem_path = codes "key.pem" }

cleared_test :
    sign_payload one_file (clear_keys trader) (codes "A") ≡ throw (runtime_error pem_not_opened)
unfolding sign_payload clear_keys
cleared_test = refl
