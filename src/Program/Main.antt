-- ===== src/Program/Main.antt =====
-- src/main.cpp: the stages of the program, and its exceptions.
pub mod Endings
pub mod Console
pub mod Examples
use trader_cpp.Base.{
  ℕ, ◌≡◌, refl, sym, ap, ◌⊎◌, inl, inr, Option, List, [], ◌∷◌, ◌++◌, append_assoc, Text, codes,
  Outcome, ok, throw, Outcome-cases, done, Exception, runtime_error, out_of_range, field_not_found,
  incorrect_format, unsupported_message, config_error, spdlog_ex, system_error, unknown,
}
use trader_cpp.Binance.Auth.{Crypto}
use trader_cpp.Binance.Settings
use trader_cpp.Binance.Settings.{Config}
use trader_cpp.Binance.Worker.{QuickFix, Worker, from_conf}
use trader_cpp.Core.OrderBook.{OrderBook}
use trader_cpp.Core.Trade.{Trade}
use trader_cpp.External.CircularBuffer.{CircularBuffer}
use trader_cpp.Program.App
use trader_cpp.Program.App.{App, Box, of_book, of_log, of_trade, rethrow}
use trader_cpp.Ui.LogBox.Watched.{FileSystem}
use trader_cpp.Utils.Crash.{ℤ}
use trader_cpp.Utils.Env.{Environment}
use trader_cpp.Utils.Process.Platforms.{Platform, set_high_priority}

-- What the system and the libraries do.
pub record World (S File Key OQ TQ B A : Type 0) : Type 0 where
  pub environment : Environment
  pub files : FileSystem
  pub platform : Platform
  -- The file sink of spdlog, for what `std::getenv` returns.
  pub file_sink : Option Text → Outcome (Unit {0})
  pub crypto : Crypto File Key
  pub quick_fix : QuickFix S
  pub start_initiator : Outcome (Unit {0})
  pub stop_initiator : Outcome (Unit {0})
  pub screen : Outcome (Unit {0})
  pub start_thread : Box → Outcome (Unit {0})
  pub loop : Outcome (Unit {0})
  pub order_queue : OQ
  pub trade_queue : TQ
  pub book : OrderBook B A

-- What `main` gets done, one after the other.
pub data Act : Type 0 where
  named_thread : Text → Act
  configured_logging installed_handlers raised_priority : Act
  started_initiator : Act
  started_box : Box → Act
  looped stopped_initiator said_goodbye : Act
  critical : Exception → Act
  critical_unknown : Act

-- A call that may throw, with what it got done before.
abbrev pub Doing : Type 0 → Type 0
Doing A = List Act × Outcome A

abbrev pub next : {A B : Type 0} → List Act → Outcome A → (A → Doing B) → Doing B
next acts (ok a) f = (acts ++ (f a).0, (f a).1)
next acts (throw e) f = (acts, throw e)

infixl 5 ◌>>=◌ ◌>>◌
abbrev pub ◌>>=◌ : {A B : Type 0} → Doing A → (A → Doing B) → Doing B
m >>= f = next m.0 m.1 f

abbrev pub ◌>>◌ : {B : Type 0} → Doing (Unit {0}) → Doing B → Doing B
m >> k = m >>= λ _. k

abbrev pub quietly : {A : Type 0} → Outcome A → Doing A
quietly r = ([], r)

abbrev pub act : Act → Outcome (Unit {0}) → Doing (Unit {0})
act a (ok u) = (a ∷ [], ok u)
act a (throw e) = ([], throw e)

abbrev pub main_name : Text
main_name = codes "main"

-- The two handlers of `main`.
unfoldable pub caught : Exception → Act
caught unknown = critical_unknown
caught e = critical e

module _ {S File Key OQ TQ B A : Type 0} (w : World S File Key OQ TQ B A) where
  unfoldable pub configure : Doing (Unit {0})
  configure = act configured_logging (w.file_sink (w.environment "LOG_PATH"))

  -- `ui::App::start`
  unfoldable pub start : Doing (Unit {0})
  start = do
    act (started_box of_book) (w.start_thread of_book)
    act (started_box of_log) (w.start_thread of_log)
    act (started_box of_trade) (w.start_thread of_trade)
    act looped w.loop

  -- `binance::Worker::start`, and `stop`
  abbrev pub start_worker : Doing (Unit {0})
  start_worker = act started_initiator w.start_initiator

  abbrev pub stop_worker : Doing (Unit {0})
  stop_worker = act stopped_initiator w.stop_initiator

  -- What `main` writes to the standard error stream itself: that of the priority of the process, if it
  -- comes to that.
  abbrev pub stderr_after : Outcome (Unit {0}) → List Text
  stderr_after (ok _) = (set_high_priority w.platform).0
  stderr_after (throw e) = []

  abbrev pub stderr : List Text
  stderr = stderr_after (w.file_sink (w.environment "LOG_PATH"))

  -- The body of `main` inside its `try`. `R` is the ring of the trade box.
  unfoldable pub body : (R : Type 0) ⦃ring : CircularBuffer Trade R⦄ → Doing (Unit {0})
  unfolding configure set_high_priority Settings.from_env from_conf App.from_env start
  body R = do
    act (named_thread main_name) done
    configure
    act installed_handlers done
    act raised_priority (set_high_priority w.platform).1
    conf ← quietly (Settings.from_env w.environment)
    _ ← quietly (from_conf w.quick_fix w.crypto w.order_queue w.trade_queue conf)
    start_worker
    ui ← quietly (App.from_env {R = R} w.screen w.files w.environment w.book)
    start
    quietly (rethrow ui.thread_exception)
    stop_worker
    act said_goodbye done

  abbrev pub report : Doing (Unit {0}) → List Act
  report (acts, ok _) = acts
  report (acts, throw e) = acts ++ caught e ∷ []

  unfoldable pub main : (R : Type 0) ⦃ring : CircularBuffer Trade R⦄ → List Act
  unfolding body caught
  main R = report (body R)
