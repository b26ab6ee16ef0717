-- ===== src/Lib.antt =====
-- trader.cpp: a market data client of Binance with a terminal interface, modelled and verified.
--
-- The program. QuickFIX runs a session each for prices, trades and orders and calls the FIX
-- application back, which puts the market data messages on two queues, one for the order book and
-- one for the trades. Behind each queue runs a worker: that of the order book box applies the
-- snapshots and increments of BTCUSDT to the order book, that of the trade box keeps the last
-- trades in a ring. A third box shows the last lines of the log, which a file watcher reads. The
-- screen's thread draws the boxes.
--
-- The files. Each definition stands for the code that the comment at the top of its file names.
--   Core/OrderBook: src/core/order_book.cpp, order_book.h, bid_ask.h. `apply_snapshot`,
--     `apply_increment`, `handle_price_level_update` and `to_vector` have the names of the methods.
--     Core/OrderBook/View is the abstract book, a size for each price on each side; Increments and
--     Snapshots read a message as changes of it; Vector is about the rows, Format about
--     their texts, Top about a book of depth 1, Move the constructors.
--   Core/Trade: src/core/trade.h.
--   Ui/Backoff, Ui/Polling: the loop `poll_queue`, which src/ui/order_book_box.cpp and
--     src/ui/trade_box.cpp write alike, over any handler of messages. Order, Progress, Stopping,
--     CatchUp and Simulation are about its runs.
--   Ui/OrderBookBox: src/ui/order_book_box.cpp. Feed puts the worker and the book together,
--     Table is about what is shown, Reading and Prices about the prices that can be read of it,
--     and Classes about boxes up to how their maps hold the levels.
--   Ui/TradeBox: src/ui/trade_box.cpp. Trades is about one message, Feed about the
--     worker, Time and Table about what is shown.
--   Ui/Helpers, Ui/LogBox, Ui/LogFileWatcher: src/ui/helpers.h and src/ui/log_box/.
--     Ui/LogBox/Watched is the box with its watcher, Shown what it shows of the log.
--   Ui/Layout: the components that the constructors of the boxes and `App::start` build, in
--     src/ui/order_book_box.cpp, trade_box.cpp, log_box/log_box.cpp, traffic_box.cpp and
--     app/ui_app.cpp, as trees; Shown is about the texts in them.
--   Binance/FixApp: src/binance/fix_app.cpp and message_handling_mode.h. Routing is about the
--     queues, Soh about the text of a message, Logon about the logon that is signed,
--     Accepted about a server that verifies it. Session is the callbacks in the life of a session
--     with its thread, Subscribed what it has sent.
--   Binance/Worker: src/binance/worker.cpp.
--   Binance/Symbol, Side, Config, Settings, Auth, MarketMessageVariant: the files of src/binance/
--     with those names; Settings is config.cpp and the record of config.h.
--   Utils/Double, Crash, Env, Logging, Threading, Process, Testing, Types: the files of
--     src/utils/ with those names. The branches for macOS and Windows are below Utils/Threading
--     and Utils/Process, and the two modules Platforms are all of them together.
--     Utils/Crash/Handlers is about how the process ends. Utils/Chars is what the sources use of
--     std::to_string and std::from_chars.
--   Program/Pipeline: the FIX application and the workers of the two boxes over the queues that they
--     share, as src/main.cpp, src/binance/worker.cpp and src/ui/app/ui_app.cpp connect them. Projection
--     is each worker alone, Books and Trades what the boxes hold, CatchUp is about further turns
--     of the book's worker, Shutdown about stop requests, Screen about what is shown.
--     Program/Session is the pipeline between the objects as they are made.
--   Program/App, Program/Main: src/ui/app/ui_app.cpp and src/main.cpp, the stages from the start of the
--     program to its end; Endings is about its exceptions, Console about the lines that come to the
--     console.
--   Program/Teardown: how the locals of src/main.cpp go out of scope while threads still run. Members
--     is the order of the members in the headers, Safety when a thread meets a destroyed object.
--   Program/Locks: the calls that hold a mutex, in turns. Loops and Calls are the methods of
--     src/core/order_book.cpp, src/ui/trade_box.cpp and src/ui/log_box/log_box.cpp, Atomic what the
--     holder of a mutex finds, Shown what the screen's thread reads.
--   Program/Threads: what the workers of the boxes run, and the names that all threads ask for.
--   External: what the sources use of other libraries, as records of operations and laws: doubles
--     (Float), absl::btree_map (BtreeMap), QuickFIX messages (Fix), boost::circular_buffer
--     (CircularBuffer) and moodycamel::ConcurrentQueue. Each record has an instance that meets its
--     laws. Ftxui is the values that the interface builds of FTXUI's calls.
--   Base: exceptions as values (Results), lists, and the last elements of a list (Recent).
--
-- How state and errors are modelled. A call that may throw returns the state as it leaves it and how
-- it ended, so that what was changed before an exception is kept. A method that holds a mutex from its
-- first line to its end is one step, but in Program/Locks, where it is taken apart. A worker is a
-- step function on its phases; what other threads do in between are events of a run, which is any
-- list of events and turns.
--
-- Bounds and fuel. Ticks and sizes are below 2^64, as the conversion of a double gives them; the sums
-- of `size_t` in src/utils/double.h wrap at 2^64. The digits of a number take the number itself plus
-- one as fuel, and the commas the length of the text, since the position falls by three; the wait
-- loop takes its timeout plus one, since each turn waits for a millisecond or more. The count of a
-- message's groups, and the timeout and the interval of the wait loop, are taken as not negative.
-- Conversions of doubles to texts are parameters.
--
-- Not modelled. What is logged, apart from the stages of main and where a message of a level is
-- written; how FTXUI places, scrolls and draws the elements; the thread of a session on other
-- platforms than Linux. What the system and the libraries do is a parameter: the file system,
-- OpenSSL and libsodium, the QuickFIX objects, the calls on a thread, and, for main, whether
-- starting a thread or the initiator and the screen's loop throw. The conversion of a double that
-- does not fit a `uint64_t` is some number that does. A queue's calls are atomic and keep the
-- order of one producer, as moodycamel says; it says nothing of the order between several. So a
-- run of the pipeline is over one connection of each session, which has one thread, and what is
-- said of the order queue has the condition that snapshots, as increments, come from the session
-- of the prices.
pub mod Base
pub mod External
pub mod Utils
pub mod Binance
pub mod Core
pub mod Ui
pub mod Program
