-- ===== src/Binance/FixApp.antt =====
-- src/binance/fix_app.cpp and fix_app.h: the application that QuickFIX calls back, on one thread for
-- each session. `src/binance/message_handling_mode.h` is here too.
--
-- The three sessions are told apart by their qualifiers. The subscriptions and the signed logon are
-- the values that are sent.
pub mod Routing
pub mod Soh
pub mod Logon
pub mod Accepted
pub mod Session
pub mod Examples
use trader_cpp.Base.{
  ℕ, suc, ◌+◌, Bool, true, false, Option, none, some, List, [], ◌∷◌, ◌++◌, map, Text, text_eq,
  codes, Outcome, ok, throw, unsupported_message, Attempt, using, done, ◌>>=◌, ◌>>◌, if◌then◌else◌,
  ◌==◌, length,
}
use trader_cpp.External.ConcurrentQueue.{ConcurrentQueue}
use trader_cpp.External.Fix.{get, Snapshot, Increment, entry_bid, entry_offer, entry_trade}
use trader_cpp.Binance.MarketMessageVariant.{MarketMessageVariant, snapshot, increment}
use trader_cpp.Utils.Chars.{to_string}
use trader_cpp.Utils.Threading.{Linux, set_thread_cpu, set_thread_realtime}

abbrev pub thread_name : Text
thread_name = codes "fix_session"

abbrev pub px_session_qualifier : Text
px_session_qualifier = codes "PX"

abbrev pub tx_session_qualifier : Text
tx_session_qualifier = codes "TX"

abbrev pub ox_session_qualifier : Text
ox_session_qualifier = codes "OX"

-- SubscriptionRequestType_SNAPSHOT_PLUS_UPDATES
abbrev pub snapshot_plus_updates : ℕ
snapshot_plus_updates = b'1'

pub record MarketDataRequest : Type 0 where
  pub req_id : Text
  pub subscription_request_type : ℕ
  pub market_depth : Option ℕ
  pub entry_types : List ℕ
  pub related_symbols : List Text

-- The application's parameters, and the queues that it fills.
pub record FixApp (OQ TQ : Type 0) : Type 0 where
  pub symbols : List Text
  pub max_depth : ℕ
  pub px_cpu : ℕ
  pub tx_cpu : ℕ
  pub order_queue : OQ
  pub trade_queue : TQ

-- `now` is `std::time(nullptr)`.
unfoldable pub request_id : ℕ → Text
request_id now = codes "MDReq-" ++ to_string now

-- What is sent to the session.
unfoldable pub subscribe_to_prices : {OQ TQ : Type 0} → FixApp OQ TQ → ℕ → MarketDataRequest
unfolding request_id
subscribe_to_prices app now = record {
  req_id = request_id now;
  subscription_request_type = snapshot_plus_updates;
  market_depth = some app.max_depth;
  entry_types = entry_bid ∷ entry_offer ∷ [];
  related_symbols = app.symbols;
}

unfoldable pub subscribe_to_trades : {OQ TQ : Type 0} → FixApp OQ TQ → ℕ → MarketDataRequest
unfolding request_id
subscribe_to_trades app now = record {
  req_id = request_id now;
  subscription_request_type = snapshot_plus_updates;
  market_depth = none;
  entry_types = entry_trade ∷ [];
  related_symbols = app.symbols;
}

abbrev pub soh : ℕ
soh = 1

-- `output.pop_back()` if the last byte is SOH.
unfoldable pub pop_soh : Text → Text
pop_soh [] = []
pop_soh (c ∷ []) = if c == soh then [] else c ∷ []
pop_soh (c ∷ d ∷ s) = c ∷ pop_soh (d ∷ s)

unfoldable pub replace_soh : Text → Text
unfolding pop_soh
replace_soh input = map (λ (c : ℕ). if c == soh then b'|' else c) (pop_soh input)

-- The payload that `toAdmin` signs for a logon, joined by SOH.
unfoldable pub logon_payload : Text → Text → Text → Text → Text
logon_payload sender target seq_num sending_time =
    codes "A" ++ (soh ∷ (sender ++ (soh ∷ (target ++ (soh ∷ (seq_num ++ (soh ∷ sending_time)))))))

-- `MessageHandlingMode`
pub data Mode : Type 0 where
  unordered sequential : Mode

unfoldable pub to_int : Mode → ℕ
to_int unordered = 1
to_int sequential = 2

abbrev pub field_id : ℕ
field_id = 25_035

-- An administrative message, as far as `toAdmin` reads and writes it.
pub record AdminMessage : Type 0 where
  pub msg_type : Option Text
  pub sender_comp_id : Option Text
  pub target_comp_id : Option Text
  pub msg_seq_num : Option Text
  pub sending_time : Option Text
  pub username : Option Text
  pub raw_data : Option Text
  pub raw_data_length : Option ℕ
  pub message_handling_mode : Option Text

-- FIX::MsgType_Logon
abbrev pub msg_type_logon : Text
msg_type_logon = codes "A"

-- The fields that are read, and the signature.
unfoldable pub sign_logon : (Text → Outcome Text) → Text → AdminMessage → Outcome Text
unfolding logon_payload
sign_logon sign now msg = do
  sender ← get msg.sender_comp_id
  target ← get msg.target_comp_id
  seq_num ← get msg.msg_seq_num
  sign (logon_payload sender target seq_num now)

-- `sign` is `auth_->sign_payload`, `api_key` is `auth_->get_api_key()`, and `now` is the text of the
-- time at which the message is sent.
unfoldable pub to_admin : (Text → Outcome Text) → Text → Text → AdminMessage → Attempt AdminMessage
unfolding sign_logon to_int
to_admin sign api_key now msg = using msg (get msg.msg_type) λ msg_type.
    if text_eq msg_type msg_type_logon
    then (using msg (sign_logon sign now msg) λ signature. (
      record msg {
        sending_time = some now;
        username = some api_key;
        raw_data = some signature;
        raw_data_length = some (length signature);
        message_handling_mode = some (to_string (to_int sequential));
      },
      done,
    ))
    else (msg, done)

-- A message from a session, as `FIX44::MessageCracker` tells the types apart.
pub data AppMessage (D : Type 0) : Type 0 where
  full_refresh : Snapshot D → AppMessage D
  incremental_refresh : Increment D → AppMessage D
  execution_report : AppMessage D
  other : AppMessage D

module _ {D OQ TQ : Type 0} ⦃oq : ConcurrentQueue (MarketMessageVariant D) OQ⦄
    ⦃tq : ConcurrentQueue (Increment D) TQ⦄ where
  -- `onMessage` of an incremental refresh.
  unfoldable pub on_increment : Text → Increment D → FixApp OQ TQ → FixApp OQ TQ
  on_increment qualifier m app =
      if text_eq qualifier px_session_qualifier
      then record app { order_queue = oq.enqueue (increment m) app.order_queue }
      else (if text_eq qualifier tx_session_qualifier
          then record app { trade_queue = tq.enqueue m app.trade_queue }
          else app)

  -- `crack` calls the `onMessage` of the message's type. For a type without one of its own, that of
  -- the cracker throws `UnsupportedMessageType`.
  unfoldable pub from_app : Text → AppMessage D → FixApp OQ TQ → Attempt (FixApp OQ TQ)
  unfolding on_increment
  from_app qualifier (full_refresh m) app =
      (record app { order_queue = oq.enqueue (snapshot m) app.order_queue }, done)
  from_app qualifier (incremental_refresh m) app = (on_increment qualifier m app, done)
  from_app qualifier execution_report app = (app, done)
  from_app qualifier other app = (app, throw unsupported_message)

  -- Calls in a row, from any sessions. QuickFIX catches the exception of each.
  unfoldable pub deliver : List (Text × AppMessage D) → FixApp OQ TQ → FixApp OQ TQ
  unfolding from_app
  deliver [] app = app
  deliver ((qualifier, m) ∷ ms) app = deliver ms (from_app qualifier m app).0
