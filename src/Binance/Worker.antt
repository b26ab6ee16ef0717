-- ===== src/Binance/Worker.antt =====
-- src/binance/worker.cpp and worker.h: the container of the FIX connection.
use trader_cpp.Base.{Text, Outcome, ok, ◌>>=◌, ◌>>◌}
use trader_cpp.Binance.Auth.{Auth, Crypto}
use trader_cpp.Binance.Auth
use trader_cpp.Binance.FixApp.{FixApp}
use trader_cpp.Binance.Settings.{Config}
use trader_cpp.Binance.Config.{max_depth}

-- What making the QuickFIX objects does: the settings of a file, and the stores, the logs and the
-- initiator for them.
pub record QuickFix (Settings : Type 0) : Type 0 where
  pub session_settings : Text → Outcome Settings
  pub file_store_factory : Settings → Outcome (Unit {0})
  pub file_log_factory : Settings → Outcome (Unit {0})
  pub initiator : Settings → Outcome (Unit {0})

pub record Worker (Settings OQ TQ : Type 0) : Type 0 where
  pub app : FixApp OQ TQ
  pub auth : Auth
  pub settings : Settings

-- The application, with new queues.
unfoldable pub make_app : {OQ TQ : Type 0} → OQ → TQ → Config → FixApp OQ TQ
make_app order_queue trade_queue conf = record {
  symbols = conf.symbols;
  max_depth = max_depth;
  px_cpu = conf.px_cpu;
  tx_cpu = conf.tx_cpu;
  order_queue = order_queue;
  trade_queue = trade_queue;
}

unfoldable pub from_conf :
    {Settings File Key OQ TQ : Type 0}
    → QuickFix Settings
    → Crypto File Key
    → OQ
    → TQ
    → Config
    → Outcome (Worker Settings OQ TQ)
unfolding make_app Auth.make
from_conf fix crypto order_queue trade_queue conf = do
  auth ← Auth.make crypto conf.api_key conf.private_key_path
  settings ← fix.session_settings conf.fix_config_path
  fix.file_store_factory settings
  fix.file_log_factory settings
  fix.initiator settings
  ok (record { app = make_app order_queue trade_queue conf; auth = auth; settings = settings })
