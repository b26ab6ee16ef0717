-- ===== src/Program/Teardown/Examples.antt =====
-- An example of the end of src/main.cpp.
use trader_cpp.Base.{false, true, ◌≡◌, ◌⊎◌, List, []}
use trader_cpp.Program.Teardown.{
  Turn, book_worker, trade_worker, fix_sessions, watch_starter, file_events, has_thread, leaving,
  run,
}
use trader_cpp.Program.Teardown.Members.{teardown, teardown-safe}

abbrev turns : List Turn
turns = []

teardown-safe_example :
    let steps = teardown false true in
    let s = run (leaving steps) turns in
    (has_thread book_worker s.faulted ≡ false)
    × (has_thread trade_worker s.faulted ≡ false)
    × ((false ≡ false) ⊎ (has_thread fix_sessions s.faulted ≡ false))
    × ((us' : List Turn) × (has_thread watch_starter (run (leaving steps) us').faulted ≡ true))
    × ((us' : List Turn) × (has_thread file_events (run (leaving steps) us').faulted ≡ true))
teardown-safe_example = teardown-safe false true turns
