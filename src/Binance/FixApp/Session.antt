-- ===== src/Binance/FixApp/Session.antt =====
-- src/binance/fix_app.cpp: what QuickFIX calls while a session lives, `onCreate`, `onLogon`,
-- `onLogout`, `toApp` and `fromAdmin`, with the thread on which the session runs.
--
-- Lines that are only logged are left out, but for the exceptions on the way to them. `sent` holds the
-- requests in the order in which they are sent. That the session is known to QuickFIX, which has just
-- called the application with it, is assumed.
pub mod Subscribed
use trader_cpp.Base.{
  ℕ, Bool, Option, none, some, false, List, [], ◌∷◌, ◌++◌, Text, text_eq, codes, Outcome, Attempt,
  using, ok, true, and_then, done, ◌>>=◌, if◌then◌else◌, ◌==◌, ◌&&◌, ltb,
}
use trader_cpp.External.Fix.{get}
use trader_cpp.Binance.FixApp.{
  FixApp, MarketDataRequest, thread_name, px_session_qualifier, tx_session_qualifier,
  subscribe_to_prices, subscribe_to_trades, replace_soh,
}
use trader_cpp.Utils.Threading.{
  Linux, get_cpu_count, set_thread_name, set_thread_cpu, set_thread_realtime,
}

-- A thread, as the calls on it leave it.
pub record Thread : Type 0 where
  pub name : Text
  pub cpu : Option ℕ
  pub realtime : Bool

-- The thread of the session's connection, and what the session has sent, each request with the thread
-- as it was then.
pub record Session : Type 0 where
  pub thread : Thread
  pub sent : List (Thread × MarketDataRequest)

-- The name of the session's thread, before it is cut.
unfoldable pub session_thread_name : Text → Text
session_thread_name qualifier = thread_name ++ codes "_" ++ qualifier

-- The CPU is set by the system's call, also where the line that is logged afterwards throws.
unfoldable pub pin : Linux → ℕ → Session → Attempt Session
unfolding set_thread_cpu
pin linux cpu_id s = (
  record s {
    thread = record s.thread {
      cpu =
          if ltb cpu_id (get_cpu_count linux) && (linux.pthread_setaffinity_np cpu_id == 0)
          then some cpu_id
          else s.thread.cpu;
    };
  },
  set_thread_cpu linux cpu_id,
)

unfoldable pub prioritise : Linux → Session → Attempt Session
unfolding set_thread_realtime
prioritise linux s = (
  record s {
    thread = record s.thread {
      realtime = if linux.pthread_setschedparam == 0 then true else s.thread.realtime;
    };
  },
  set_thread_realtime linux,
)

-- `FIX::Session::sendToTarget`
unfoldable pub send_to_target : MarketDataRequest → Session → Attempt Session
send_to_target request s = (record s { sent = s.sent ++ ((s.thread, request) ∷ []) }, done)

unfoldable pub on_logon :
    {OQ TQ : Type 0} → FixApp OQ TQ → Text → Linux → ℕ → Session → Attempt Session
unfolding set_thread_name session_thread_name pin prioritise send_to_target subscribe_to_prices
    subscribe_to_trades
on_logon app qualifier linux now s =
    let named = record s {
      thread = record s.thread {
        name = set_thread_name linux (session_thread_name qualifier) s.thread.name;
      };
    } in
    if text_eq qualifier px_session_qualifier
    then and_then (pin linux app.px_cpu named) (λ pinned.
      and_then (prioritise linux pinned)
        (λ ready. send_to_target (subscribe_to_prices app now) ready))
    else (if text_eq qualifier tx_session_qualifier
        then and_then (pin linux app.tx_cpu named)
            (λ pinned. send_to_target (subscribe_to_trades app now) pinned)
        else (named, done))

-- The text that `toApp` and `fromAdmin` log of a message, for its `MsgType`.
unfoldable pub logged_message : Option Text → Text → Outcome (Text × Text)
unfolding replace_soh
logged_message msg_type msg = get msg_type >>= λ t. ok (t, replace_soh msg)

-- The calls, each with what it reads: the thread, the time, and a message with its `MsgType`.
-- `FIX::ThreadedSocketInitiator` connects a session on a new thread each time, which has some name.
pub data Call : Type 0 where
  connected : Text → Call
  created logged_out : Call
  logged_on : Linux → ℕ → Call
  to_app from_admin : Option Text → Text → Call

unfoldable pub call : {OQ TQ : Type 0} → FixApp OQ TQ → Text → Call → Session → Attempt Session
unfolding on_logon logged_message
call app qualifier (connected name) s =
    (record s { thread = record { name = name; cpu = none; realtime = false } }, done)
call app qualifier created s = (s, done)
call app qualifier logged_out s = (s, done)
call app qualifier (logged_on linux now) s = on_logon app qualifier linux now s
call app qualifier (to_app msg_type msg) s = using s (logged_message msg_type msg) λ _. (s, done)
call app qualifier (from_admin msg_type msg) s =
    using s (logged_message msg_type msg) λ _. (s, done)

-- Calls in a row for one session. QuickFIX catches the exception of each.
unfoldable pub run : {OQ TQ : Type 0} → FixApp OQ TQ → Text → List Call → Session → Session
unfolding call
run app qualifier [] s = s
run app qualifier (c ∷ cs) s = run app qualifier cs (call app qualifier c s).0
