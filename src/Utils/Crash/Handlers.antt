-- ===== src/Utils/Crash/Handlers.antt =====
-- The handlers that `configure_handlers` of src/utils/crash.h installs, and how the process ends.
use trader_cpp.Base.{ℕ, ◌≡◌, ◌≤◌, refl, Bool, true, false, ◌||◌, Text, length, if◌then◌else◌}
use trader_cpp.Utils.Crash.{ℤ, handle_signal, buf_size}
use trader_cpp.Utils.Crash.Bounds.{handle_signal_fits}

pub data Signal : Type 0 where
  sigsegv sigabrt sigfpe sigill sigbus sigterm : Signal

-- Which handlers are the program's own.
pub record Handlers : Type 0 where
  pub terminate : Bool
  pub new_handler : Bool
  pub signal : Signal → Bool

abbrev pub same_signal : Signal → Signal → Bool
same_signal sigsegv sigsegv = true
same_signal sigabrt sigabrt = true
same_signal sigfpe sigfpe = true
same_signal sigill sigill = true
same_signal sigbus sigbus = true
same_signal sigterm sigterm = true
same_signal _ _ = false

-- `std::signal(s, handle_signal)`
unfoldable pub install : Signal → Handlers → Handlers
install s h = record h { signal = λ t. same_signal s t || h.signal t }

-- `unix` is whether `__unix__` is defined.
unfoldable pub configure_handlers : Bool → Handlers → Handlers
unfolding install
configure_handlers unix h =
    let own : Handlers = record h { terminate = true; new_handler = true } in
    let four = install sigill (install sigfpe (install sigabrt (install sigsegv own))) in
    if unix then install sigbus four else four

-- `_exit` with what has been written to the standard error, the default action of a signal, or an
-- exception that is thrown.
pub data Ending : Type 0 where
  exits : ℕ → Text → Ending
  by_default : Signal → Ending
  throws_bad_alloc : Ending

installed :
    (unix : Bool) (before : Handlers)
    → let h = configure_handlers unix before in
      (h.signal sigsegv ≡ true)
      × (h.signal sigabrt ≡ true)
      × (h.signal sigfpe ≡ true)
      × (h.signal sigill ≡ true)
unfolding configure_handlers
installed true before = (refl, refl, refl, refl)
installed false before = (refl, refl, refl, refl)

installed_bus :
    (unix : Bool) (before : Handlers)
    → unix ≡ true
    → (configure_handlers unix before).signal sigbus ≡ true
unfolding configure_handlers
installed_bus unix before e = rw e refl

new_handler_installed :
    (unix : Bool) (before : Handlers) → (configure_handlers unix before).new_handler ≡ true
unfolding configure_handlers
new_handler_installed true before = refl
new_handler_installed false before = refl

-- The number of a signal is the platform's.
module _ (number : Signal → ℤ) where
  unfoldable pub raise : Handlers → Signal → Ending
  unfolding handle_signal
  raise h s = if h.signal s then exits 1 (handle_signal (number s)) else by_default s

  -- `std::abort` raises SIGABRT.
  unfoldable pub abort : Handlers → Ending
  unfolding raise
  abort h = raise h sigabrt

  -- `std::terminate` calls its handler; the one by default aborts, as `handle_terminate` does.
  unfoldable pub terminate : Handlers → Ending
  unfolding abort
  terminate h = abort h

  -- An allocation that fails calls the new handler, if there is one.
  unfoldable pub fail_to_allocate : Handlers → Ending
  unfolding terminate
  fail_to_allocate h = if h.new_handler then terminate h else throws_bad_alloc

  abbrev pub EndsBy : Signal → Ending → Type 0
  EndsBy s r =
      (r ≡ exits 1 (handle_signal (number s))) × (length (handle_signal (number s)) ≤ buf_size)

  raised : (h : Handlers) (s : Signal) → h.signal s ≡ true → EndsBy s (raise h s)
  unfolding raise
  raised h s e = (rw e refl, (handle_signal_fits (number s)).1)

  -- Once the handlers are configured, whatever they were: an unhandled exception, an allocation that
  -- fails, and each of the signals SIGSEGV, SIGABRT, SIGFPE and SIGILL, and SIGBUS on Unix, end the
  -- process with status 1 and the line about a signal, which fits its buffer; for the first two that is
  -- the line about SIGABRT.
  pub configure_handlers-EndsBy :
      (unix : Bool) (before : Handlers)
      → let h = configure_handlers unix before in
        EndsBy sigabrt (terminate h)
        × EndsBy sigabrt (fail_to_allocate h)
        × EndsBy sigsegv (raise h sigsegv)
        × EndsBy sigabrt (raise h sigabrt)
        × EndsBy sigfpe (raise h sigfpe)
        × EndsBy sigill (raise h sigill)
        × ((unix ≡ true) → EndsBy sigbus (raise h sigbus))
  unfolding configure_handlers fail_to_allocate
  configure_handlers-EndsBy unix before =
      let h = configure_handlers unix before in
      let abrt = raised h sigabrt (installed unix before).1 in
      (
        abrt,
        (rw (new_handler_installed unix before) abrt.0, abrt.1),
        raised h sigsegv (installed unix before).0,
        abrt,
        raised h sigfpe (installed unix before).2,
        raised h sigill (installed unix before).3,
        λ p. raised h sigbus (installed_bus unix before p),
      )
