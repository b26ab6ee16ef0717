-- ===== src/Program/Main/Examples.antt =====
-- Examples for the stages of src/main.cpp.
use trader_cpp.Base.{
  ℕ, ◌≡◌, ◌⊎◌, refl, some, List, [], ◌∷◌, ◌++◌, Text, codes, ok, done, text_eq, if◌then◌else◌,
  Exception, throw, config_error, runtime_error, bad_log_path,
}
use trader_cpp.External.BtreeMap.{BidList, AskList, bid_list, ask_list}
use trader_cpp.External.CircularBuffer.{list_buffer}
use trader_cpp.External.ConcurrentQueue.{list_queue}
use trader_cpp.External.Fix.{Increment}
use trader_cpp.External.Float.{Decimal, decimal_float}
use trader_cpp.Binance.Examples.{environment, one_file}
use trader_cpp.Binance.MarketMessageVariant.{MarketMessageVariant}
use trader_cpp.Core.OrderBook.Examples.{empty_book}
use trader_cpp.Core.Trade.{Trade}
use trader_cpp.Program.Main.{
  World, Act, caught, main, main_name, named_thread, configured_logging, installed_handlers,
  raised_priority, started_initiator, critical, stderr,
}
use trader_cpp.Utils.Process.Platforms.{posix, set_high_priority}
use trader_cpp.Program.Main.Endings.{Succeeds, whole_run, up_to_loop, main-Ends}
use trader_cpp.Utils.Env.{Environment, get_env_or_throw}
use trader_cpp.Binance.Settings
use trader_cpp.Binance.Worker.{from_conf}
use trader_cpp.Ui.LogBox.{split_last}
use trader_cpp.Ui.LogBox.Watched
use trader_cpp.Ui.LogBox.Watched.{watching}

-- The settings, and where the log is.
abbrev whole_environment : Environment
whole_environment key =
    if text_eq (codes key) (codes "LOG_PATH")
    then some (codes "logs/trader.log")
    else environment key

-- A process that may raise its priority, and a server that cannot be reached.
abbrev offline :
    World Text Text Text
      (List (MarketMessageVariant Decimal))
      (List (Increment Decimal))
      BidList
      AskList
offline = record {
  environment = whole_environment;
  files = record { open_file = λ _. some []; add_watch = λ _. watching };
  platform = posix (record { setpriority = λ _. 0; strerror = codes "Permission denied" });
  file_sink = λ _. done;
  crypto = one_file;
  quick_fix = record {
    session_settings = λ path. ok path;
    file_store_factory = λ _. done;
    file_log_factory = λ _. done;
    initiator = λ _. done;
  };
  start_initiator = throw config_error;
  stop_initiator = done;
  screen = done;
  start_thread = λ _. done;
  loop = done;
  order_queue = [];
  trade_queue = [];
  book = empty_book;
}

abbrev Ring : Type 0
Ring = ℕ × List Trade

main-Ends_example :
    (Succeeds offline Ring × (main offline Ring ≡ whole_run))
    ⊎ ((e : Exception) × (acts : List Act) × (rest : List Act) × (acts ++ rest ≡ up_to_loop)
        × (main offline Ring ≡ acts ++ caught e ∷ []))
main-Ends_example = main-Ends offline Ring

-- A process that may not raise its priority says so beside the logger.
stderr_test :
    stderr (record offline {
      platform = posix (record { setpriority = λ _. 255; strerror = codes "Permission denied" });
    })
    ≡ codes "setpriority: Permission denied" ∷ []
unfolding set_high_priority
stderr_test = refl

-- A log path without a slash is found out only by the log box, when the initiator runs.
abbrev bad_path :
    World Text Text Text
      (List (MarketMessageVariant Decimal))
      (List (Increment Decimal))
      BidList
      AskList
bad_path = record offline {
  environment = λ key.
      if text_eq (codes key) (codes "LOG_PATH") then some (codes "trader.log") else environment key;
  start_initiator = done;
}

bad_path_test :
    main bad_path Ring
    ≡ named_thread main_name
      ∷ configured_logging
      ∷ installed_handlers
      ∷ raised_priority
      ∷ started_initiator
      ∷ critical (runtime_error bad_log_path)
      ∷ []
unfolding main Settings.from_env get_env_or_throw from_conf Watched.from_env split_last
bad_path_test = refl

goodbye_test : main (record offline { start_initiator = done }) Ring ≡ whole_run
unfolding main Settings.from_env get_env_or_throw from_conf Watched.from_env split_last
goodbye_test = refl
