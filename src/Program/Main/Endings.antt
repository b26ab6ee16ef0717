-- ===== src/Program/Main/Endings.antt =====
-- How a run of src/main.cpp ends.
use trader_cpp.Base.{
  ◌≡◌, refl, sym, ap, ◌∙◌, ◌⊎◌, inl, inr, List, [], ◌∷◌, ◌++◌, append_assoc, Outcome, ok, throw,
  Outcome-cases, done, Exception,
}
use trader_cpp.Binance.Settings
use trader_cpp.Binance.Settings.{Config}
use trader_cpp.Binance.Worker.{Worker, from_conf}
use trader_cpp.Core.Trade.{Trade}
use trader_cpp.External.CircularBuffer.{CircularBuffer}
use trader_cpp.Program.App
use trader_cpp.Program.App.{App, Box, of_book, of_log, of_trade, rethrow}
use trader_cpp.Program.Main.{
  World, Act, named_thread, configured_logging, installed_handlers, raised_priority,
  started_initiator, started_box, looped, stopped_initiator, said_goodbye, Doing, next, quietly,
  act, main_name, caught, start, body, main,
}
use trader_cpp.Utils.Process.Platforms.{set_high_priority}

-- A call that, if it returns, has done `all` and returned what has `P`, and if it throws, has done
-- the first few of `some_of`.
abbrev Ends : {A : Type 0} → List Act → List Act → (A → Type 0) → Doing A → Type 0
Ends {A = A} all some_of P m =
    ((a : A) × P a × (m ≡ (all, ok a)))
    ⊎ ((e : Exception) × (acts : List Act) × (rest : List Act) × (acts ++ rest ≡ some_of)
        × (m ≡ (acts, throw e)))

quietly-Ends : {A : Type 0} (r : Outcome A) → Ends [] [] (λ (a : A). r ≡ ok a) (quietly r)
quietly-Ends (ok a) = inl (a, refl, refl)
quietly-Ends (throw e) = inr (e, [], [], refl, refl)

act-Ends :
    (a : Act) (r : Outcome (Unit {0}))
    → Ends (a ∷ []) (a ∷ []) (λ (_ : Unit {0}). r ≡ done) (act a r)
act-Ends a (ok tt) = inl (tt, refl, refl)
act-Ends a (throw e) = inr (e, [], a ∷ [], refl, refl)

-- One call after another.
next-Ends :
    {A B : Type 0} {P : A → Type 0} {Q : B → Type 0} {all later some_of : List Act} (m : Doing A)
    (f : A → Doing B)
    → Ends all all P m
    → ((a : A) → P a → Ends later some_of Q (f a))
    → Ends (all ++ later) (all ++ some_of) Q (next m.0 m.1 f)
next-Ends {all = all} {some_of = some_of} m f (inr (e, acts, rest, split, p)) k = inr (
  e,
  acts,
  rest ++ some_of,
  sym (append_assoc acts rest some_of) ∙ ap (λ (l : List Act). l ++ some_of) split,
  rw p refl,
)
next-Ends {all = all} m f (inl (a, h, p)) k = elim (k a h) [
  | inl (b, q, e) ↦ inl (b, q, rw (p, e) refl)
  | inr (e, acts, rest, split, q) ↦ inr (
    e,
    all ++ acts,
    rest,
    append_assoc all acts rest ∙ ap (λ (l : List Act). all ++ l) split,
    rw (p, q) refl,
  )
]

Ends-map :
    {A : Type 0} {P Q : A → Type 0} {all some_of : List Act} (m : Doing A)
    → ((a : A) → P a → Q a)
    → Ends all some_of P m
    → Ends all some_of Q m
Ends-map m f (inl (a, h, p)) = inl (a, f a h, p)
Ends-map m f (inr failure) = inr failure

-- The acts of a run in which nothing throws.
abbrev pub up_to_loop : List Act
up_to_loop =
    named_thread main_name
    ∷ configured_logging
    ∷ installed_handlers
    ∷ raised_priority
    ∷ started_initiator
    ∷ started_box of_book
    ∷ started_box of_log
    ∷ started_box of_trade
    ∷ looped
    ∷ []

abbrev pub whole_run : List Act
whole_run = up_to_loop ++ stopped_initiator ∷ said_goodbye ∷ []

module _ {S File Key OQ TQ B A : Type 0} (w : World S File Key OQ TQ B A) (R : Type 0)
    ⦃ring : CircularBuffer Trade R⦄ where
  -- Every call of `main` returns.
  pub record Succeeds : Type 0 where
    pub logging : w.file_sink (w.environment "LOG_PATH") ≡ done
    pub priority : (set_high_priority w.platform).1 ≡ done
    pub config : Config
    pub settings : Settings.from_env w.environment ≡ ok config
    pub worker : Worker S OQ TQ
    pub connection : from_conf w.quick_fix w.crypto w.order_queue w.trade_queue config ≡ ok worker
    pub initiator : w.start_initiator ≡ done
    pub app : App B A R
    pub boxes : App.from_env w.screen w.files w.environment w.book ≡ ok app
    pub threads : (b : Box) → w.start_thread b ≡ done
    pub loop : w.loop ≡ done
    pub no_exception : rethrow app.thread_exception ≡ done
    pub stop : w.stop_initiator ≡ done

  started_all :
      w.start_thread of_book ≡ done
      → w.start_thread of_log ≡ done
      → w.start_thread of_trade ≡ done
      → (b : Box) → w.start_thread b ≡ done
  started_all p q r of_book = p
  started_all p q r of_log = q
  started_all p q r of_trade = r

  stop-Ends :
      Ends
        (stopped_initiator ∷ said_goodbye ∷ [])
        []
        (λ (_ : Unit {0}). w.stop_initiator ≡ done)
        (next
          (act stopped_initiator w.stop_initiator).0
          (act stopped_initiator w.stop_initiator).1
          (λ _. act said_goodbye done))
  stop-Ends = elim (Outcome-cases w.stop_initiator) [
    | inl (tt, p) ↦ rw p (inl (tt, refl, refl))
    | inr (e, p) ↦ rw p (inr (e, [], [], refl, refl))
  ]

  start-Ends :
      let acts = started_box of_book ∷ started_box of_log ∷ started_box of_trade ∷ looped ∷ [] in
      Ends acts acts
        (λ (_ : Unit {0}). ((b : Box) → w.start_thread b ≡ done) × (w.loop ≡ done))
        (start w)
  unfolding start
  start-Ends = next-Ends _ _ (act-Ends (started_box of_book) (w.start_thread of_book)) λ _ p.
      next-Ends _ _ (act-Ends (started_box of_log) (w.start_thread of_log)) λ _ q.
        next-Ends _ _ (act-Ends (started_box of_trade) (w.start_thread of_trade))
          λ _ r. Ends-map _ (λ _ l. (started_all p q r, l)) (act-Ends looped w.loop)

  body-Ends : Ends whole_run up_to_loop (λ (_ : Unit {0}). Succeeds) (body w R)
  unfolding body
  body-Ends = next-Ends _ _ (act-Ends (named_thread main_name) done) λ _ _.
      next-Ends _ _ (act-Ends configured_logging (w.file_sink (w.environment "LOG_PATH")))
        λ _ logging. next-Ends _ _ (act-Ends installed_handlers done) λ _ _.
          next-Ends _ _ (act-Ends raised_priority (set_high_priority w.platform).1) λ _ priority.
            next-Ends _ _ (quietly-Ends (Settings.from_env w.environment)) λ config settings.
              next-Ends _ _
                (quietly-Ends (from_conf w.quick_fix w.crypto w.order_queue w.trade_queue config))
                λ worker connection.
                  next-Ends _ _ (act-Ends started_initiator w.start_initiator) λ _ initiator.
                    next-Ends _ _
                      (quietly-Ends (App.from_env w.screen w.files w.environment w.book))
                      λ app boxes. next-Ends _ _ start-Ends λ _ ran.
                        next-Ends _ _ (quietly-Ends (rethrow app.thread_exception))
                          λ _ no_exception.
                            Ends-map _
                              (λ _ stop. record {
                                logging = logging;
                                priority = priority;
                                config = config;
                                settings = settings;
                                worker = worker;
                                connection = connection;
                                initiator = initiator;
                                app = app;
                                boxes = boxes;
                                threads = ran.0;
                                loop = ran.1;
                                no_exception = no_exception;
                                stop = stop;
                              })
                              stop-Ends

-- A run of the program either gets everything done, the stop of the FIX initiator and the goodbye
-- last, and this only if every call returns; or a call throws, and it has done some of what comes
-- before the stop, from the start on and in order, and then the critical line about the exception,
-- and nothing else: whatever throws once the initiator has started, it is not stopped.
pub main-Ends :
    {S File Key OQ TQ B A : Type 0} (w : World S File Key OQ TQ B A) (R : Type 0)
    ⦃ring : CircularBuffer Trade R⦄
    → (Succeeds w R × (main w R ≡ whole_run))
      ⊎ ((e : Exception) × (acts : List Act) × (rest : List Act) × (acts ++ rest ≡ up_to_loop)
          × (main w R ≡ acts ++ caught e ∷ []))
unfolding main
main-Ends w R = elim (body-Ends w R) [
  | inl (_, h, p) ↦ inl (h, rw p refl)
  | inr (e, acts, rest, split, p) ↦ inr (e, acts, rest, split, rw p refl)
]
