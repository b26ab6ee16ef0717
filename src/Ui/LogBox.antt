-- ===== src/Ui/LogBox.antt =====
-- src/ui/log_box/log_box.cpp and log_box.h: the last lines of the log.
pub mod Ring
pub mod Paths
pub mod Watched
pub mod Shown
pub mod Examples
use trader_cpp.Base.{
  ℕ, suc, ◌+◌, Bool, true, false, ◌||◌, Option, none, some, List, [], ◌∷◌, ◌++◌, Text, Outcome, ok,
  throw, runtime_error, bad_log_path, leb, length, if◌then◌else◌, ◌==◌, ◌>>=◌,
}
use trader_cpp.Utils.Env.{Environment, get_env_or_throw}

abbrev pub max_lines : ℕ
max_lines = 100

pub record LogBox : Type 0 where
  -- A `std::deque`, oldest line first.
  pub log_ring : List Text
  pub posted : ℕ

abbrev pub pop_front : List Text → List Text
pop_front [] = []
pop_front (_ ∷ lines) = lines

unfoldable pub push_line : List Text → Text → List Text
push_line ring line = (if leb max_lines (length ring) then pop_front ring else ring) ++ line ∷ []

unfoldable pub push_lines : List Text → List Text → List Text
unfolding push_line
push_lines ring [] = ring
push_lines ring (line ∷ lines) = push_lines (push_line ring line) lines

unfoldable pub on_log_lines : List Text → LogBox → LogBox
unfolding push_lines
on_log_lines lines box = record {
  log_ring = push_lines box.log_ring lines;
  posted = box.posted + 1;
}

abbrev pub is_slash : ℕ → Bool
is_slash c = c == b'/' || c == b'\\'

-- `find_last_of("/\\")` and the two `substr`s: the text up to its last slash and the text behind it.
unfoldable pub split_last : Text → Option (Text × Text)
split_last [] = none
split_last (c ∷ s) = elim (split_last s) [
  | some (directory, filename) ↦ some (c ∷ directory, filename)
  | none ↦ if is_slash c then some (c ∷ [], s) else none
]

abbrev pub or_throw : Option (Text × Text) → Outcome (Text × Text)
or_throw none = throw (runtime_error bad_log_path)
or_throw (some p) = ok p

-- The directory and the file that `from_env` watches.
unfoldable pub watch_path : Environment → Outcome (Text × Text)
watch_path env = do log_path ← get_env_or_throw env "LOG_PATH"; or_throw (split_last log_path)
