-- ===== src/Ui/LogBox/Examples.antt =====
-- Examples for src/ui/log_box/*.
use trader_cpp.Base.{
  ◌≤◌, ◌≡◌, ◌⊎◌, refl, some, List, [], ◌∷◌, ◌++◌, Text, codes, length, map, keep_last, ok, throw,
  runtime_error, bad_log_path, arith,
}
use trader_cpp.External.BtreeMap.{bid_list, ask_list}
use trader_cpp.External.CircularBuffer.{list_buffer}
use trader_cpp.External.ConcurrentQueue.{list_queue}
use trader_cpp.External.Float.{decimal_float}
use trader_cpp.Ui.LogBox.{LogBox, on_log_lines, watch_path, max_lines}
use trader_cpp.Ui.LogBox.Paths.{HasNoSlash, EndsInSlash, watch_path_lem}
use trader_cpp.Ui.LogBox.Shown.{
  LogEvent, wrote, reported, file_event, written, Follows, watch-shows,
}
use trader_cpp.Ui.LogBox.Watched.{Watched, action, notice, watch}
use trader_cpp.Ui.LogBox.Ring.{on_log_lines-eq-keep_last}
use trader_cpp.Ui.LogFileWatcher.{LogFileWatcher, modified, handle_file_action}
use trader_cpp.Ui.LogFileWatcher.Lines.{unlines, handle_file_action-unlines}
use trader_cpp.Utils.Env.{get_env_or_throw}

abbrev one_line : LogBox
one_line = record { log_ring = codes "started" ∷ []; posted = 1 }

abbrev two_lines : List Text
two_lines = codes "one" ∷ codes "two" ∷ []

on_log_lines-eq-keep_last_example :
    let b = on_log_lines two_lines one_line in
    (b.log_ring ≡ keep_last max_lines (one_line.log_ring ++ two_lines))
    × (length b.log_ring ≤ max_lines)
    × (b.posted ≡ 2)
on_log_lines-eq-keep_last_example = on_log_lines-eq-keep_last two_lines one_line (omega arith)

abbrev log_path : Text
log_path = codes "logs/trader.log"

watch_path_lem_example :
    (HasNoSlash log_path × (watch_path (λ _. some log_path) ≡ throw (runtime_error bad_log_path)))
    ⊎ ((directory : Text) × (filename : Text) × (watch_path (λ _. some log_path)
          ≡ ok (directory, filename))
        × (directory ++ filename ≡ log_path)
        × EndsInSlash directory
        × HasNoSlash filename)
unfolding get_env_or_throw
watch_path_lem_example = watch_path_lem (λ _. some log_path) log_path refl

abbrev watcher : LogFileWatcher
watcher = record { filename = codes "trader.log"; unread = unlines two_lines }

handle_file_action-unlines_example :
    handle_file_action watcher.filename modified watcher
    ≡ (record watcher { unread = [] }, some two_lines)
handle_file_action-unlines_example =
    handle_file_action-unlines watcher two_lines
      (
        (omega arith, (omega arith, (omega arith, tt))),
        ((omega arith, (omega arith, (omega arith, tt))), tt),
      )
      refl

-- A line is written, another file changes, the log changes, and one more line is written.
abbrev log_events : List LogEvent
log_events =
    wrote (codes "one" ∷ [])
    ∷ reported (codes "other.log") modified
    ∷ reported (codes "trader.log") modified
    ∷ wrote (codes "two" ∷ [])
    ∷ []

watch-shows_example :
    let start : Watched = record {
      watcher = record { filename = codes "trader.log"; unread = unlines [] };
      box = record { log_ring = []; posted = 0 };
    } in
    let w = watch start (map file_event log_events) in
    Follows ([] ++ written log_events) (codes "trader.log") w
    × ((notice w (action (codes "trader.log") modified)).box.log_ring
        ≡ keep_last max_lines ([] ++ written log_events))
watch-shows_example = watch-shows [] log_events (codes "trader.log") 0 tt (
  ((omega arith, (omega arith, (omega arith, tt))), tt),
  (tt, (tt, (((omega arith, (omega arith, (omega arith, tt))), tt), tt))),
)
