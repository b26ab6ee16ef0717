-- ===== src/Program/Teardown/Members.antt =====
-- The members of the classes of src/, in the order of their declarations, and the steps in which the
-- locals of src/main.cpp go out of scope.
use trader_cpp.Base.{
  ◌≡◌, ◌⊎◌, inl, inr, refl, Bool, true, false, List, [], ◌∷◌, ◌++◌, if◌then◌else◌,
}
use trader_cpp.Program.Teardown.{
  Object, config, order_queue, trade_queue, auth, store, settings, fix_log, initiator, screen,
  book_exception, book_clear_flag, core_book, trade_exception, trade_ring, trade_ring_mutex,
  log_ring, log_ring_mutex, filename, file, watcher, callback, Thread, book_worker, trade_worker,
  fix_sessions, watch_starter, file_events, has_thread, Step, destroy, join, leaving, Turn, run,
  orderly,
}
use trader_cpp.Program.Teardown.Safety.{run-safe_iff, reach, reach-faults}

-- The members are destroyed in the opposite order; each comes with the steps that destroy it.
unfoldable pub destructor : List (List Step) → List Step
destructor [] = []
destructor (m ∷ ms) = destructor ms ++ m

abbrev pub value : Object → List Step
value o = destroy o ∷ []

-- A reference, or a value that no thread uses.
abbrev pub nothing : List Step
nothing = []

-- A `std::jthread` asks its thread to stop and waits for it.
abbrev pub jthread : Thread → List Step
jthread t = join t ∷ []

-- A thread runs a copy of `worker_task_`, and does not use the member.
unfoldable pub order_book_box : List Step
unfolding destructor
order_book_box = destructor (
    value book_exception  -- thread_exception
    ∷ value book_clear_flag  -- IS_BOOK_CLEAR_NEEDED_
    ∷ nothing  -- screen_
    ∷ value core_book  -- core_book_
    ∷ nothing  -- component_, scroll_y, columns_, header_
    ∷ jthread book_worker  -- worker_
    ∷ nothing  -- worker_task_
    ∷ nothing  -- queue_
    ∷ [])

unfoldable pub trade_box : List Step
unfolding destructor
trade_box = destructor (
    value trade_exception  -- thread_exception
    ∷ nothing  -- screen_, component_, scroll_y, columns_, header_, binance_config_
    ∷ value trade_ring  -- trade_ring_
    ∷ value trade_ring_mutex  -- trade_ring_mutex_
    ∷ nothing  -- queue_
    ∷ jthread trade_worker  -- worker_
    ∷ nothing  -- worker_task_
    ∷ [])

-- `joins` is whether efsw's watcher waits for its thread when it is destroyed.
unfoldable pub log_file_watcher : Bool → List Step
unfolding destructor
log_file_watcher joins = destructor (
    jthread watch_starter  -- worker_
    ∷ nothing  -- worker_task_
    ∷ nothing  -- directory_
    ∷ value filename  -- filename_
    ∷ value file  -- file_
    ∷ ((if joins then join file_events ∷ [] else []) ++ value watcher)  -- watcher_
    ∷ value callback  -- cb_
    ∷ [])

unfoldable pub log_box : Bool → List Step
unfolding destructor log_file_watcher
log_box joins = destructor (
    nothing  -- thread_exception, screen_, component_, scroll_x, scroll_y, columns_, header_
    ∷ value log_ring  -- log_ring_
    ∷ value log_ring_mutex  -- log_ring_mutex_
    ∷ log_file_watcher joins  -- log_watcher_
    ∷ [])

unfoldable pub app : Bool → List Step
unfolding destructor order_book_box trade_box log_box
app joins = destructor (
    nothing  -- thread_exception
    ∷ value screen  -- screen_
    ∷ order_book_box  -- book_box_
    ∷ log_box joins  -- log_box_
    ∷ trade_box  -- trade_box_
    ∷ nothing  -- traffic_box_
    ∷ [])

unfoldable pub fix_app : List Step
unfolding destructor
fix_app = destructor (
    value order_queue  -- order_queue_
    ∷ value trade_queue  -- trade_queue_
    ∷ nothing  -- symbols_
    ∷ value auth  -- auth_
    ∷ nothing  -- MAX_DEPTH_, px_cpu_, tx_cpu_
    ∷ [])

unfoldable pub worker : List Step
unfolding destructor fix_app
worker = destructor (
    fix_app  -- app_
    ∷ value store  -- store_
    ∷ value settings  -- settings_
    ∷ value fix_log  -- log_
    ∷ value initiator  -- initiator_
    ∷ [])

-- The locals of `main`.
unfoldable pub locals : Bool → List Step
unfolding destructor worker app
locals joins = destructor (
    value config  -- b_conf
    ∷ worker  -- b_worker
    ∷ app joins  -- ui
    ∷ [])

-- `stopped` is whether `main` gets to `b_worker.stop()`, which waits for the sessions' threads.
unfoldable pub teardown : Bool → Bool → List Step
unfolding locals
teardown stopped joins = (if stopped then join fix_sessions ∷ [] else []) ++ locals joins

boxes_orderly :
    (stopped joins : Bool)
    → (orderly book_worker (teardown stopped joins) ≡ true)
      × (orderly trade_worker (teardown stopped joins) ≡ true)
unfolding orderly teardown
boxes_orderly true true = (refl, refl)
boxes_orderly true false = (refl, refl)
boxes_orderly false true = (refl, refl)
boxes_orderly false false = (refl, refl)

sessions_orderly : (joins : Bool) → orderly fix_sessions (teardown true joins) ≡ true
unfolding orderly teardown
sessions_orderly true = refl
sessions_orderly false = refl

watcher_not_orderly :
    (stopped joins : Bool)
    → (orderly watch_starter (teardown stopped joins) ≡ false)
      × (orderly file_events (teardown stopped joins) ≡ false)
unfolding orderly teardown
watcher_not_orderly true true = (refl, refl)
watcher_not_orderly true false = (refl, refl)
watcher_not_orderly false true = (refl, refl)
watcher_not_orderly false false = (refl, refl)

sessions_safe :
    (stopped joins : Bool) (us : List Turn)
    → (stopped ≡ false)
      ⊎ (has_thread fix_sessions (run (leaving (teardown stopped joins)) us).faulted ≡ false)
sessions_safe false joins us = inl refl
sessions_safe true joins us =
    inr ((run-safe_iff fix_sessions (teardown true joins)).0 (sessions_orderly joins) us)

-- When the locals of `main` go out of scope, however the destructors and the other threads interleave:
-- the workers of the two boxes meet no object that has been destroyed, whether or not `main` has
-- stopped the FIX initiator, and the sessions' threads meet none if it has. For both threads of the log
-- watcher there is an interleaving in which they do.
pub teardown-safe :
    (stopped joins : Bool) (us : List Turn)
    → let steps = teardown stopped joins in
      let s = run (leaving steps) us in
      (has_thread book_worker s.faulted ≡ false)
      × (has_thread trade_worker s.faulted ≡ false)
      × ((stopped ≡ false) ⊎ (has_thread fix_sessions s.faulted ≡ false))
      × ((us' : List Turn) × (has_thread watch_starter (run (leaving steps) us').faulted ≡ true))
      × ((us' : List Turn) × (has_thread file_events (run (leaving steps) us').faulted ≡ true))
teardown-safe stopped joins us =
    let steps = teardown stopped joins in
    let (book, trade) = boxes_orderly stopped joins in
    let (starter, events) = watcher_not_orderly stopped joins in
    (
      (run-safe_iff book_worker steps).0 book us,
      (run-safe_iff trade_worker steps).0 trade us,
      sessions_safe stopped joins us,
      (
        reach watch_starter steps,
        reach-faults watch_starter steps (leaving steps) refl refl starter,
      ),
      (reach file_events steps, reach-faults file_events steps (leaving steps) refl refl events),
    )
