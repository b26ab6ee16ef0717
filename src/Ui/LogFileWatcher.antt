-- ===== src/Ui/LogFileWatcher.antt =====
-- src/ui/log_box/log_file_watcher.h: what is read from the log when the file system reports a
-- change of it.
pub mod Lines
use trader_cpp.Base.{
  ℕ, true, false, Option, none, some, List, [], ◌∷◌, ◌++◌, Text, text_eq, if◌then◌else◌, ◌==◌, not,
}

-- The `efsw::Action`s.
pub data Action : Type 0 where
  add delete modified moved : Action

pub record LogFileWatcher : Type 0 where
  pub filename : Text
  -- What `file_` has not yet read, to the end of the file as it now is.
  pub unread : Text

-- The end of the file after some bytes of a line.
abbrev pub unfinished : Text → List Text
unfinished [] = []
unfinished (c ∷ s) = (c ∷ s) ∷ []

-- The loop over `std::getline`: the lines up to the end of the file. What stands behind the last
-- newline is a line too, unless it is empty.
unfoldable pub lines_from : Text → Text → List Text
lines_from acc [] = unfinished acc
lines_from acc (c ∷ s) = elim (c == 10) [
  | true ↦ acc ∷ lines_from [] s
  | false ↦ lines_from (acc ++ c ∷ []) s
]

unfoldable pub read_lines : Text → List Text
unfolding lines_from
read_lines = lines_from []

-- The watcher after an event, and the lines that it calls back with, if it does.
unfoldable pub switch_event : Action → LogFileWatcher → LogFileWatcher × Option (List Text)
unfolding read_lines
switch_event modified w = (record w { unread = [] }, some (read_lines w.unread))
switch_event _ w = (w, none)

unfoldable pub handle_file_action :
    Text → Action → LogFileWatcher → LogFileWatcher × Option (List Text)
unfolding switch_event
handle_file_action filename action w =
    if not (text_eq filename w.filename) then (w, none) else switch_event action w
