-- ===== src/Binance/FixApp/Session/Subscribed.antt =====
-- The subscriptions that a session of src/binance/fix_app.cpp sends in its life.
use mathlib.Core.List.{map-append}
use mathlib.Core.Path.{subst}
use trader_cpp.Base.{
  All-append, none, codes, All, Bool-cases, ℕ, ◌≡◌, refl, ap, sym, ◌∙◌, Bool, true, false, List, [],
  ◌∷◌, ◌++◌, map, append_assoc, append-nil, Option, some, Text, if◌then◌else◌, ◌==◌, ◌&&◌, ltb,
  arith, inl, inr,
}
use trader_cpp.Binance.FixApp.{
  request_id, snapshot_plus_updates, entry_bid, entry_offer, entry_trade, FixApp, MarketDataRequest,
  px_session_qualifier, tx_session_qualifier, ox_session_qualifier, subscribe_to_prices,
  subscribe_to_trades,
}
use trader_cpp.Binance.FixApp.Session.{
  Session, Thread, Call, connected, created, logged_out, logged_on, to_app, from_admin, on_logon,
  call, run, session_thread_name,
}
use trader_cpp.Utils.Threading.{Linux, get_cpu_count, set_thread_name}
use trader_cpp.Utils.Chars.{to_string}

-- There is a CPU of that number, the system sets it, and it can say the thread's name.
abbrev pub can_pin : Linux → ℕ → Bool
can_pin linux cpu_id =
    ltb cpu_id (get_cpu_count linux)
    && (linux.pthread_setaffinity_np cpu_id == 0)
    && (linux.pthread_getname_np == 0)

-- ... and the system gives it the priority.
abbrev pub can_run_realtime : Linux → ℕ → Bool
can_run_realtime linux cpu_id = can_pin linux cpu_id && (linux.pthread_setschedparam == 0)

-- The times of the logons on threads that pass a test.
unfoldable pub times : (Linux → Bool) → List Call → List ℕ
times passes [] = []
times passes (logged_on linux now ∷ cs) = (if passes linux then now ∷ [] else []) ++ times passes cs
times passes (_ ∷ cs) = times passes cs

-- The requests, spelled out.
abbrev pub asks_for : {OQ TQ : Type 0} → FixApp OQ TQ → Option ℕ → List ℕ → ℕ → MarketDataRequest
asks_for app market_depth entry_types now = record {
  req_id = codes "MDReq-" ++ to_string now;
  subscription_request_type = snapshot_plus_updates;
  market_depth = market_depth;
  entry_types = entry_types;
  related_symbols = app.symbols;
}

abbrev pub requests : Session → List MarketDataRequest
requests s = map (λ (x : Thread × MarketDataRequest). x.1) s.sent

module _ {OQ TQ : Type 0} (app : FixApp OQ TQ) where
  -- What the threads have that send a request for prices, and one for trades.
  abbrev pub IsReady : Thread × MarketDataRequest → Type 0
  IsReady (t, _) = (t.cpu ≡ some app.px_cpu) × (t.realtime ≡ true)

  abbrev pub IsPinned : Thread × MarketDataRequest → Type 0
  IsPinned (t, _) = t.cpu ≡ some app.tx_cpu

  abbrev pub asks_for_prices : ℕ → MarketDataRequest
  asks_for_prices = asks_for app (some app.max_depth) (entry_bid ∷ entry_offer ∷ [])

  abbrev pub asks_for_trades : ℕ → MarketDataRequest
  asks_for_trades = asks_for app none (entry_trade ∷ [])

  -- A logon on a thread that passes the tests, and on one that does not.
  abbrev Sends :
      Text
      → (ℕ → MarketDataRequest)
      → (Thread × MarketDataRequest → Type 0)
      → (Linux → Bool)
      → Type 0
  Sends q f IsRight passes =
      (linux : Linux) (now : ℕ) (s : Session)
      → (passes linux ≡ true
          → (t : Thread) × IsRight (t, f now)
            × ((on_logon app q linux now s).0.sent ≡ s.sent ++ ((t, f now) ∷ [])))
        × (passes linux ≡ false → (on_logon app q linux now s).0.sent ≡ s.sent)

  on_logon-Sends_px :
      Sends px_session_qualifier asks_for_prices IsReady
        (λ linux. can_run_realtime linux app.px_cpu)
  unfolding on_logon subscribe_to_prices request_id
  on_logon-Sends_px linux now s =
      let name = set_thread_name linux (session_thread_name px_session_qualifier) s.thread.name in
      (
        λ h. (
          record { name = name; cpu = some app.px_cpu; realtime = true },
          (refl, refl),
          ground arith,
        ),
        λ h. ground arith,
      )

  on_logon-Sends_tx :
      Sends tx_session_qualifier asks_for_trades IsPinned (λ linux. can_pin linux app.tx_cpu)
  unfolding on_logon subscribe_to_trades request_id
  on_logon-Sends_tx linux now s =
      let name = set_thread_name linux (session_thread_name tx_session_qualifier) s.thread.name in
      (
        λ h. (
          record { name = name; cpu = some app.tx_cpu; realtime = s.thread.realtime },
          refl,
          ground arith,
        ),
        λ h. ground arith,
      )

  -- Only a connection and a logon change the session.
  call-to_app :
      (q : Text) (t : Option Text) (m : Text) (s : Session) → (call app q (to_app t m) s).0 ≡ s
  unfolding call
  call-to_app q t m s = ground arith

  call-from_admin :
      (q : Text) (t : Option Text) (m : Text) (s : Session) → (call app q (from_admin t m) s).0 ≡ s
  unfolding call
  call-from_admin q t m s = ground arith

  -- A session of which each logon sends one request if its thread passes the tests, and nothing else.
  module _ (q : Text) (f : ℕ → MarketDataRequest) (IsRight : Thread × MarketDataRequest → Type 0)
      (passes : Linux → Bool) (sends : Sends q f IsRight passes) where
    abbrev HasSent : List ℕ → List (Thread × MarketDataRequest) → Type 0
    HasSent ts sent =
        (map (λ (x : Thread × MarketDataRequest). x.1) sent ≡ map f ts) × All IsRight sent

    logon-HasSent :
        (linux : Linux) (now : ℕ) (s : Session) (ts : List ℕ)
        → HasSent ts s.sent
        → HasSent
            (ts ++ (if passes linux then now ∷ [] else []))
            (on_logon app q linux now s).0.sent
    logon-HasSent linux now s ts (same, right) = elim (Bool-cases (passes linux)) [
      | inl h ↦
          let (t, r, e) = (sends linux now s).0 h in
          rw (h, e)
            (
              map-append (λ (x : Thread × MarketDataRequest). x.1) s.sent ((t, f now) ∷ [])
                  ∙ ap (λ (l : List MarketDataRequest). l ++ (f now ∷ [])) same
                  ∙ sym (map-append f ts (now ∷ [])),
              All-append IsRight s.sent ((t, f now) ∷ []) right (r, tt),
            )
      | inr h ↦ rw (h, (sends linux now s).1 h, append-nil ts) (same, right)
    ]

    run-HasSent :
        (cs : List Call) (s : Session) (ts : List ℕ)
        → HasSent ts s.sent
        → HasSent (ts ++ times passes cs) (run app q cs s).sent
    unfolding run times call
    run-HasSent [] s ts h = rw (append-nil ts) h
    run-HasSent (connected name ∷ cs) s ts h = run-HasSent cs (call app q (connected name) s).0 ts h
    run-HasSent (created ∷ cs) s ts h = run-HasSent cs s ts h
    run-HasSent (logged_out ∷ cs) s ts h = run-HasSent cs s ts h
    run-HasSent (logged_on linux now ∷ cs) s ts h =
        subst (λ l. HasSent l (run app q cs (on_logon app q linux now s).0).sent)
          (append_assoc ts (if passes linux then now ∷ [] else []) (times passes cs))
          (run-HasSent cs (on_logon app q linux now s).0
            (ts ++ (if passes linux then now ∷ [] else [])) (logon-HasSent linux now s ts h))
    run-HasSent (to_app t m ∷ cs) s ts h =
        run-HasSent cs (call app q (to_app t m) s).0 ts (rw (call-to_app q t m s) h)
    run-HasSent (from_admin t m ∷ cs) s ts h =
        run-HasSent cs (call app q (from_admin t m) s).0 ts (rw (call-from_admin q t m s) h)

  run-silent : (cs : List Call) (s : Session) → (run app ox_session_qualifier cs s).sent ≡ s.sent
  unfolding run call on_logon
  run-silent [] s = refl
  run-silent (connected name ∷ cs) s =
      run-silent cs (call app ox_session_qualifier (connected name) s).0
  run-silent (created ∷ cs) s = run-silent cs s
  run-silent (logged_out ∷ cs) s = run-silent cs s
  run-silent (logged_on linux now ∷ cs) s =
      run-silent cs (on_logon app ox_session_qualifier linux now s).0
  run-silent (to_app t m ∷ cs) s =
      run-silent cs (call app ox_session_qualifier (to_app t m) s).0
      ∙ ap (λ x. x.sent) (call-to_app ox_session_qualifier t m s)
  run-silent (from_admin t m ∷ cs) s =
      run-silent cs (call app ox_session_qualifier (from_admin t m) s).0
      ∙ ap (λ x. x.sent) (call-from_admin ox_session_qualifier t m s)

  -- After any connections and calls in the life of a session that has sent nothing before: the session
  -- of the prices has sent one request for bids and offers, at the depth of the application and for its
  -- symbols, for each logon on a thread that could be given its CPU and the priority, in their order,
  -- and nothing else, each when its thread had both. The session of the trades has sent one
  -- request for trades for each logon on a thread that could be given its CPU, each when its thread had
  -- it. The session of the orders has sent nothing.
  pub run-subscribes :
      (cs : List Call) (s : Session)
      → s.sent ≡ []
      → let px = run app px_session_qualifier cs s in
        let tx = run app tx_session_qualifier cs s in
        let prices = times (λ linux. can_run_realtime linux app.px_cpu) cs in
        let trades = times (λ linux. can_pin linux app.tx_cpu) cs in
        (requests px ≡ map asks_for_prices prices)
        × All IsReady px.sent
        × (requests tx ≡ map asks_for_trades trades)
        × All IsPinned tx.sent
        × ((run app ox_session_qualifier cs s).sent ≡ [])
  run-subscribes cs s e =
      let (prices, ready) =
        run-HasSent px_session_qualifier asks_for_prices IsReady
          (λ linux. can_run_realtime linux app.px_cpu) on_logon-Sends_px cs s []
          (rw e (refl, tt)) in
      let (trades, pinned) =
        run-HasSent tx_session_qualifier asks_for_trades IsPinned
          (λ linux. can_pin linux app.tx_cpu) on_logon-Sends_tx cs s [] (rw e (refl, tt)) in
      (prices, ready, trades, pinned, run-silent cs s ∙ e)
