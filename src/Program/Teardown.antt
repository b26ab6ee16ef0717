-- ===== src/Program/Teardown.antt =====
-- How the objects of src/main.cpp go out of scope while threads still run: the members of the classes,
-- as their headers declare them, are destroyed in the opposite order.
pub mod Safety
pub mod Members
pub mod Examples
use trader_cpp.Base.{ℕ, Bool, true, false, not, ◌||◌, List, [], ◌∷◌, ◌++◌, if◌then◌else◌, ◌==◌}

-- What the threads use.
pub data Object : Type 0 where
  config order_queue trade_queue auth store settings fix_log initiator : Object
  screen book_exception book_clear_flag core_book : Object
  trade_exception trade_ring trade_ring_mutex : Object
  log_ring log_ring_mutex filename file watcher callback : Object

abbrev pub object_id : Object → ℕ
object_id config = 0
object_id order_queue = 1
object_id trade_queue = 2
object_id auth = 3
object_id store = 4
object_id settings = 5
object_id fix_log = 6
object_id initiator = 7
object_id screen = 8
object_id book_exception = 9
object_id book_clear_flag = 10
object_id core_book = 11
object_id trade_exception = 12
object_id trade_ring = 13
object_id trade_ring_mutex = 14
object_id log_ring = 15
object_id log_ring_mutex = 16
object_id filename = 17
object_id file = 18
object_id watcher = 19
object_id callback = 20

-- The workers of the two boxes, the threads of the FIX sessions, the thread that the log watcher starts,
-- and the one on which the file system's events are handled.
pub data Thread : Type 0 where
  book_worker trade_worker fix_sessions watch_starter file_events : Thread

abbrev pub thread_id : Thread → ℕ
thread_id book_worker = 0
thread_id trade_worker = 1
thread_id fix_sessions = 2
thread_id watch_starter = 3
thread_id file_events = 4

abbrev pub same_thread : Thread → Thread → Bool
same_thread t u = thread_id t == thread_id u

abbrev pub has_object : Object → List Object → Bool
has_object o [] = false
has_object o (p ∷ ps) = (object_id o == object_id p) || has_object o ps

abbrev pub has_thread : Thread → List Thread → Bool
has_thread t [] = false
has_thread t (u ∷ us) = same_thread t u || has_thread t us

-- What the code that runs on a thread refers to.
unfoldable pub uses : Thread → List Object
uses book_worker = order_queue ∷ book_clear_flag ∷ core_book ∷ screen ∷ book_exception ∷ []
uses trade_worker =
    trade_queue ∷ config ∷ trade_ring_mutex ∷ trade_ring ∷ screen ∷ trade_exception ∷ []
uses fix_sessions =
    initiator ∷ fix_log ∷ settings ∷ store ∷ auth ∷ config ∷ order_queue ∷ trade_queue ∷ []
uses watch_starter = watcher ∷ []
uses file_events = filename ∷ file ∷ callback ∷ log_ring_mutex ∷ log_ring ∷ screen ∷ []

-- An object is destroyed, or a thread is asked to stop and waited for.
pub data Step : Type 0 where
  destroy : Object → Step
  join : Thread → Step

-- What is left to do and what has been done, and which threads have used an object after its end.
pub record Scope : Type 0 where
  pub left : List Step
  pub destroyed : List Object
  pub joined : List Thread
  pub faulted : List Thread

abbrev pub leaving : List Step → Scope
leaving steps = record { left = steps; destroyed = []; joined = []; faulted = [] }

-- The next step of the scope's own thread, or another thread that uses its objects.
pub data Turn : Type 0 where
  advance : Turn
  acts : Thread → Turn

unfoldable pub touches : Thread → List Object → Bool
unfolding uses
touches t [] = false
touches t (o ∷ os) = has_object o (uses t) || touches t os

abbrev pub take_step : List Step → Scope → Scope
take_step [] s = s
take_step (destroy o ∷ steps) s = record s { left = steps; destroyed = o ∷ s.destroyed }
take_step (join t ∷ steps) s = record s { left = steps; joined = t ∷ s.joined }

unfoldable pub happen : Scope → Turn → Scope
unfolding touches
happen s advance = take_step s.left s
happen s (acts t) =
    if has_thread t s.joined || not (touches t s.destroyed)
    then s
    else record s { faulted = t ∷ s.faulted }

unfoldable pub run : Scope → List Turn → Scope
unfolding happen
run s [] = s
run s (t ∷ ts) = run (happen s t) ts

-- A thread is waited for before anything that it uses is destroyed.
unfoldable pub orderly : Thread → List Step → Bool
unfolding uses
orderly t [] = true
orderly t (destroy o ∷ steps) =
    let rest = orderly t steps in if has_object o (uses t) then false else rest
orderly t (join u ∷ steps) = let rest = orderly t steps in if same_thread t u then true else rest
