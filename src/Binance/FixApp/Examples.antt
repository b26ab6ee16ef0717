-- ===== src/Binance/FixApp/Examples.antt =====
-- Examples for the logon of src/binance/fix_app.cpp.
use trader_cpp.Base.{
  All, false, List, [], ◌∷◌, true, text_eq_refl, ◌⊎◌, ◌≢◌, Exception, done, throw, ◌++◌, ◌++◌, ◌≡◌,
  refl, none, some, Text, codes, text_eq,
}
use trader_cpp.External.ConcurrentQueue.{list_queue}
use trader_cpp.Binance.Auth.{sign_payload}
use trader_cpp.Binance.FixApp.{AdminMessage, msg_type_logon, to_admin}
use trader_cpp.Binance.Auth.Signed.{HasSeed}
use trader_cpp.Binance.FixApp.Accepted.{Server, accepts, to_admin-accepts}
use trader_cpp.Binance.FixApp.Logon.{IsSigned, to_admin-IsSigned}
use trader_cpp.Binance.Examples.{idle, one_file, trader}
use trader_cpp.Binance.FixApp.Session.{
  Session, Call, connected, created, logged_out, logged_on, to_app, from_admin, run,
}
use trader_cpp.Binance.FixApp.Session.Subscribed.{
  times, requests, IsReady, IsPinned, asks_for_prices, asks_for_trades, run-subscribes,
}
use trader_cpp.Utils.Crash.{pos}
use trader_cpp.Utils.Threading.{Linux, get_cpu_count}
use trader_cpp.Utils.Examples.{eight_cpus}

abbrev logon : AdminMessage
logon = record {
  msg_type = some (codes "A");
  sender_comp_id = some (codes "ME");
  target_comp_id = some (codes "SPOT");
  msg_seq_num = some (codes "1");
  sending_time = none;
  username = none;
  raw_data = none;
  raw_data_length = none;
  message_handling_mode = none;
}

to_admin-IsSigned_example :
    let (msg, result) =
      to_admin (sign_payload one_file trader) trader.api_key (codes "12:00") logon in
    ((codes "A" ≡ msg_type_logon)
      × IsSigned (sign_payload one_file trader) trader.api_key msg
      × (result ≡ done))
    ⊎ ((codes "A" ≡ msg_type_logon) × (msg ≡ logon) × ((x : Exception) × (result ≡ throw x)))
    ⊎ ((codes "A" ≢ msg_type_logon) × (msg ≡ logon) × (result ≡ done))
to_admin-IsSigned_example =
    to_admin-IsSigned (sign_payload one_file trader) trader.api_key (codes "12:00") logon
      (codes "A") refl

-- The signature of a text is the text with the key behind it.
abbrev server : Server
server = record {
  verify = λ public_key payload sig. text_eq sig (payload ++ public_key);
  base642bin = λ text. text;
}

verified :
    (seed sk payload sig : Text)
    → one_file.sign_seed_keypair seed ≡ some sk
    → one_file.sign_detached payload sk ≡ some sig
    → server.verify seed payload sig ≡ true
verified seed sk payload sig h k =
    let same : sig ≡ payload ++ seed = cc (h, k) in rw same (text_eq_refl (payload ++ seed))

to_admin-accepts_example :
    let sent = (to_admin (sign_payload one_file trader) trader.api_key (codes "12:00") logon).0 in
    (seed : Text) × HasSeed one_file trader seed
    × (accepts server seed sent ≡ true)
    × (sent.username ≡ some trader.api_key)
unfolding to_admin sign_payload
to_admin-accepts_example =
    to_admin-accepts one_file server (λ seed. seed) verified (λ sig. refl) trader (codes "12:00")
      logon refl refl

-- A machine with a CPU 1 that it sets, and none of number 2.
abbrev two_cpus : Linux
two_cpus = record eight_cpus { processors_online = pos 2 }

-- A session that logs on, is cut off, and logs on again on another thread.
abbrev calls : List Call
calls =
    created
    ∷ connected (codes "main")
    ∷ to_app (some (codes "A")) (codes "35=A")
    ∷ logged_on two_cpus 100
    ∷ from_admin none []
    ∷ logged_out
    ∷ connected (codes "main")
    ∷ logged_on eight_cpus 200
    ∷ []

abbrev new_session : Session
new_session = record { thread = record { name = []; cpu = none; realtime = false }; sent = [] }

run-subscribes_example :
    let px = run idle (codes "PX") calls new_session in
    let tx = run idle (codes "TX") calls new_session in
    (requests px ≡ asks_for_prices idle 100 ∷ asks_for_prices idle 200 ∷ [])
    × All (IsReady idle) px.sent
    × (requests tx ≡ asks_for_trades idle 200 ∷ [])
    × All (IsPinned idle) tx.sent
    × ((run idle (codes "OX") calls new_session).sent ≡ [])
unfolding times get_cpu_count
run-subscribes_example = run-subscribes idle calls new_session refl
