-- ===== src/Ui/LogBox/Watched.antt =====
-- The log box with its watcher, as `from_env` of src/ui/log_box/log_box.cpp wires them: the watcher
-- calls back with the lines that it reads, and the box keeps the last of them.
use trader_cpp.Base.{
  Option, none, some, List, [], ◌∷◌, ◌++◌, Text, Outcome, ok, throw, ◌>>=◌, runtime_error,
  log_not_opened, watch_not_found,
}
use trader_cpp.Utils.Env.{Environment}
use trader_cpp.Ui.LogBox.{LogBox, on_log_lines, watch_path}
use trader_cpp.Ui.LogFileWatcher.{LogFileWatcher, Action, handle_file_action}

-- `efsw::WatchID`, as far as the constructor looks at it.
pub data WatchId : Type 0 where
  watching file_not_found other_error : WatchId

-- The file system: what a file holds, if it can be opened, and what `addWatch` returns for a
-- directory.
pub record FileSystem : Type 0 where
  pub open_file : Text → Option Text
  pub add_watch : Text → WatchId

abbrev pub opened : Option Text → Outcome Text
opened none = throw (runtime_error log_not_opened)
opened (some text) = ok text

-- Any error but `FileNotFound` goes unnoticed.
abbrev pub watched_by : WatchId → LogFileWatcher → Outcome LogFileWatcher
watched_by file_not_found w = throw (runtime_error watch_not_found)
watched_by _ w = ok w

-- The constructor of the watcher. It reads the file from its start.
unfoldable pub make_watcher : FileSystem → Text → Text → Outcome LogFileWatcher
make_watcher files directory filename = do
  unread ← opened (files.open_file (directory ++ filename))
  watched_by (files.add_watch directory) (record { filename = filename; unread = unread })

pub record Watched : Type 0 where
  pub watcher : LogFileWatcher
  pub box : LogBox

unfoldable pub from_env : FileSystem → Environment → Outcome Watched
unfolding watch_path make_watcher
from_env files env = do
  path ← watch_path env
  watcher ← make_watcher files path.0 path.1
  ok (record { watcher = watcher; box = record { log_ring = []; posted = 0 } })

-- The logger appends to the file, or the file system reports an action on a file.
pub data FileEvent : Type 0 where
  append : Text → FileEvent
  action : Text → Action → FileEvent

-- The callback that `from_env` sets.
abbrev pub callback : Option (List Text) → LogBox → LogBox
callback none box = box
callback (some lines) box = on_log_lines lines box

unfoldable pub notice : Watched → FileEvent → Watched
unfolding handle_file_action on_log_lines
notice w (append text) = record w {
  watcher = record w.watcher { unread = w.watcher.unread ++ text };
}
notice w (action filename a) =
    let (watcher, lines) = handle_file_action filename a w.watcher in
    record { watcher = watcher; box = callback lines w.box }

unfoldable pub watch : Watched → List FileEvent → Watched
unfolding notice
watch w [] = w
watch w (e ∷ es) = watch (notice w e) es
