-- ===== src/Program/Threads.antt =====
-- The threads of the program and the names that they give themselves: src/main.cpp, the tasks of
-- src/ui/order_book_box.cpp, trade_box.cpp and log_box/log_file_watcher.h, and the logon of
-- src/binance/fix_app.cpp.
use trader_cpp.Base.{Option, none, some, List, [], ◌∷◌, Text, codes}
use trader_cpp.Binance.FixApp.Session.{session_thread_name}
use trader_cpp.Program.App.{Box, of_book, of_log, of_trade}
use trader_cpp.Program.Main.{main_name}

pub data ProgramThread : Type 0 where
  main_thread : ProgramThread
  box_thread : Box → ProgramThread
  -- of the session with a qualifier
  session_thread : Text → ProgramThread

-- `THREAD_NAME_` of each box's worker.
unfoldable pub box_thread_name : Box → Text
box_thread_name of_book = codes "ui_orderbook"
box_thread_name of_log = codes "ui_logwatcher"
box_thread_name of_trade = codes "ui_tradebox"

-- What the task of a worker calls, one after the other.
pub data TaskCall : Type 0 where
  set_name : Text → TaskCall
  log_start : Text → TaskCall
  poll_queue watch : TaskCall

-- The task that the constructor of the order book box keeps, for the one that it is given.
unfoldable pub book_task : Option (List TaskCall) → List TaskCall
unfolding box_thread_name
book_task none =
    set_name (box_thread_name of_book) ∷ log_start (box_thread_name of_book) ∷ poll_queue ∷ []
book_task (some task) = task

unfoldable pub trade_task : Option (List TaskCall) → List TaskCall
unfolding box_thread_name
trade_task none =
    set_name (box_thread_name of_trade) ∷ log_start (box_thread_name of_trade) ∷ poll_queue ∷ []
trade_task (some task) = task

unfoldable pub watch_task : List TaskCall
unfolding box_thread_name
watch_task = set_name (box_thread_name of_log) ∷ log_start (box_thread_name of_log) ∷ watch ∷ []

-- The tasks of the boxes that `App::from_env` makes.
unfoldable pub task : Box → List TaskCall
unfolding book_task trade_task watch_task
task of_book = book_task none
task of_log = watch_task
task of_trade = trade_task none

-- The last name that a task gives.
unfoldable pub named_by : Text → List TaskCall → Text
named_by n [] = n
named_by n (set_name m ∷ calls) = named_by m calls
named_by n (_ ∷ calls) = named_by n calls

-- What a thread asks to be called. The system can refuse it, which is ignored.
unfoldable pub name : ProgramThread → Text
unfolding task named_by session_thread_name
name main_thread = main_name
name (box_thread box) = named_by [] (task box)
name (session_thread qualifier) = session_thread_name qualifier
