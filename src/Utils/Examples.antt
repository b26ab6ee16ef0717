-- ===== src/Utils/Examples.antt =====
-- Examples for src/utils/*.h and threading.cpp.
use trader_cpp.Base.{
  leb, none, [], throw, runtime_error, cpu_out_of_range, Bool, ℕ, false, ◌*◌, ◌⊎◌, ◌==◌, refl, true,
  some, ◌≤◌, ◌<◌, ◌≡◌, ◌↔◌, codes, length, done, arith,
}
use trader_cpp.Utils.Logging.{Spdlog, Level, trace, debug, severity, logger, log}
use trader_cpp.Utils.Testing.{returned, out_of_fuel, wait_for, wait_for-Answers}
use trader_cpp.Utils.Crash.{pos, int_to_str, handle_signal, buf_size}
use trader_cpp.Utils.Crash.Bounds.{handle_signal_fits}
use trader_cpp.Utils.Crash.{ℤ}
use trader_cpp.Utils.Crash.Handlers.{
  Signal, sigsegv, sigabrt, sigfpe, sigill, sigbus, sigterm, Handlers, configure_handlers,
  by_default, raise, terminate, fail_to_allocate, EndsBy, configure_handlers-EndsBy,
}
use trader_cpp.Utils.Double.{pretty_text, find_dot}
use trader_cpp.Utils.Double.Commas.{pretty_text-grouped}
use trader_cpp.Utils.Threading.{Linux}
use trader_cpp.Utils.Threading.Platforms.{linux, windows, get_cpu_count, set_thread_cpu}
use trader_cpp.Utils.Threading.Windows.{Windows}

handle_signal_fits_example :
    (length (int_to_str (pos 11)) ≤ 16) × (length (handle_signal (pos 11)) ≤ buf_size)
handle_signal_fits_example = handle_signal_fits (pos 11)

-- A machine with eight CPUs on which every call succeeds.
abbrev pub eight_cpus : Linux
eight_cpus = record {
  processors_online = pos 8;
  hardware_concurrency = 8;
  pthread_setname_np = λ _. 0;
  pthread_getname_np = 0;
  thread_name = codes "fix_session_PX";
  pthread_setaffinity_np = λ _. 0;
  pthread_setschedparam = 0;
}

-- A ninth CPU is refused, but not on a Windows machine whose system takes any mask.
abbrev eight_processors : Windows
eight_processors = record {
  number_of_processors = 8;
  get_thread_description = none;
  wide_char_to_multi_byte = λ _. [];
  multi_byte_to_wide_char = λ _. none;
  set_thread_description = λ _. true;
  wide_shift = λ _. 0;
  set_thread_affinity_mask = λ mask. mask;
  set_thread_priority = true;
}

ninth_cpu_tests :
    (set_thread_cpu (linux eight_cpus) 8 ≡ throw (runtime_error cpu_out_of_range))
    × (get_cpu_count (windows eight_processors) ≡ 8)
    × (set_thread_cpu (windows eight_processors) 8 ≡ done)
unfolding set_thread_cpu get_cpu_count
ninth_cpu_tests = (refl, refl, refl)

pretty_text-grouped_example :
    (pretty_text (some (codes "-1234567.890")) ≡ codes "-1,234,567.89")
    × (pretty_text (some (codes "-1234567")) ≡ codes "-1,234,567")
pretty_text-grouped_example =
    pretty_text-grouped true (codes "1234567") (codes "890")
      (
        (omega arith, omega arith),
        (
          (omega arith, omega arith),
          (
            (omega arith, omega arith),
            (
              (omega arith, omega arith),
              (
                (omega arith, omega arith),
                ((omega arith, omega arith), ((omega arith, omega arith), tt)),
              ),
            ),
          ),
        ),
      )
      (omega arith)

pretty_tests :
    (pretty_text (some (codes "1234567.89")) ≡ codes "1,234,567.89")
    × (pretty_text (some (codes "1000.0")) ≡ codes "1,000")
    × (pretty_text (some (codes "-1234567.890")) ≡ codes "-1,234,567.89")
    × (pretty_text (some (codes "-0")) ≡ codes "-0")
    × (pretty_text (some (codes "0.00123")) ≡ codes "0.00123")
    × (pretty_text (some (codes "1e-05")) ≡ codes "1e,-05")
    × (pretty_text (some (codes "1.5e+20")) ≡ codes "1.5e+2")
unfolding pretty_text find_dot
pretty_tests = (refl, refl, refl, refl, refl, refl, refl)

-- The third call returns true; 50 milliseconds lie between two calls.
wait_for-Answers_example :
    let condition : ℕ → Bool = λ n. n == 2 in
    let r = wait_for 1001 condition 1000 50 in
    ((r ≡ returned true) × ((n : ℕ) × (n * 50 < 1000) × (condition n ≡ true)))
    ⊎ ((r ≡ returned false) × ((n : ℕ) → n * 50 < 1000 → condition n ≡ false))
wait_for-Answers_example =
    wait_for-Answers 1001 (λ n. n == 2) 1000 50 (omega arith) (omega arith) (omega arith)

wait_for_tests :
    (wait_for 1001 (λ n. n == 2) 1000 50 ≡ returned true)
    × (wait_for 101 (λ n. n == 2) 100 50 ≡ returned false)
    × (wait_for 5 (λ _. false) 100 0 ≡ out_of_fuel)
unfolding wait_for
wait_for_tests = (refl, refl, refl)

-- The numbers of Linux.
abbrev number : Signal → ℤ
number sigsegv = pos 11
number sigabrt = pos 6
number sigfpe = pos 8
number sigill = pos 4
number sigbus = pos 7
number sigterm = pos 15

abbrev nothing_installed : Handlers
nothing_installed = record { terminate = false; new_handler = false; signal = λ _. false }

configure_handlers-EndsBy_example :
    let h = configure_handlers true nothing_installed in
    EndsBy number sigabrt (terminate number h)
    × EndsBy number sigabrt (fail_to_allocate number h)
    × EndsBy number sigsegv (raise number h sigsegv)
    × EndsBy number sigabrt (raise number h sigabrt)
    × EndsBy number sigfpe (raise number h sigfpe)
    × EndsBy number sigill (raise number h sigill)
    × ((true ≡ true) → EndsBy number sigbus (raise number h sigbus))
configure_handlers-EndsBy_example = configure_handlers-EndsBy number true nothing_installed

sigterm_test : raise number (configure_handlers true nothing_installed) sigterm ≡ by_default sigterm
unfolding raise configure_handlers
sigterm_test = refl

pub takes_iff :
    (at message : Level)
    → (leb (severity at) (severity message) ≡ true) ↔ (severity at ≤ severity message)
takes_iff at message = ground arith

-- Levels by their numbers, for a LOG_LEVEL that asks for all that there is.
abbrev pub verbose : Spdlog
verbose = record {
  load_env_levels = λ _ _. trace;
  should_log = λ a m. leb (severity a) (severity m);
  should_log_iff = takes_iff;
}

debug_test : log verbose (logger verbose (some (codes "trace"))) debug ≡ []
unfolding log logger severity
debug_test = refl
