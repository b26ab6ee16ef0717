-- ===== src/Program/Locks.antt =====
-- The mutexes of src/core/order_book.cpp, src/ui/trade_box.cpp and src/ui/log_box/log_box.cpp, with
-- calls that run in turns: one thread calls the methods that change what a mutex protects, the screen's
-- thread those that read it, and a turn of one can fall between any two of the other.
--
-- A `std::lock_guard` takes the mutex on the first line of such a method, and gives it back when the
-- method ends, by an exception too. The exception ends the loop that makes the calls as well. A thread
-- that finds the mutex taken waits.
pub mod Atomic
pub mod Loops
pub mod Calls
pub mod Shown
pub mod Examples
use trader_cpp.Base.{ℕ, List, [], ◌∷◌, ◌++◌, Attempt, Outcome, ok, throw}

-- What is left of a call: a turn changes the state, and what comes then depends on what it found.
pub data Call (S : Type 0) : Type 0 where
  finish : Outcome (Unit {0}) → Call S
  turn : (S → S) → (S → Call S) → Call S

-- The call without anybody between its turns.
unfoldable pub whole : {S : Type 0} → Call S → S → Attempt S
whole (finish r) s = (s, r)
whole (turn f rest) s = whole (rest s) (f s)

-- Who has the mutex: nobody, the thread that changes the state, with what is left of its call, or the
-- screen's thread, with what it has read since.
pub data Holder (S : Type 0) : Type 0 where
  nobody : Holder S
  writer : Call S → Holder S
  reader : List S → Holder S

-- The state, the calls that the first thread has still to make, and what the other has read in each of its
-- calls.
pub record Shared (S : Type 0) : Type 0 where
  pub state : S
  pub mutex : Holder S
  pub calls : List (Call S)
  pub readings : List (List S)

pub data Turn : Type 0 where
  -- The first thread enters its next call, or goes on in it, or leaves it.
  write : Turn
  -- The screen's thread enters a call, reads some of the state, or leaves the call.
  enter look leave : Turn

abbrev pub begin : {S : Type 0} → List (Call S) → Shared S → Shared S
begin [] s = s
begin (c ∷ cs) s = record s { mutex = writer c; calls = cs }

-- An exception of a call ends the thread that made it, which calls nothing any more.
abbrev pub still_to_make : {S : Type 0} → Outcome (Unit {0}) → List (Call S) → List (Call S)
still_to_make (ok _) calls = calls
still_to_make (throw e) calls = []

unfoldable pub write_turn : {S : Type 0} → Holder S → Shared S → Shared S
write_turn nobody s = begin s.calls s
write_turn (writer (finish r)) s = record s { mutex = nobody; calls = still_to_make r s.calls }
write_turn (writer (turn f rest)) s = record s { state = f s.state; mutex = writer (rest s.state) }
write_turn (reader seen) s = s

unfoldable pub enter_turn : {S : Type 0} → Holder S → Shared S → Shared S
enter_turn nobody s = record s { mutex = reader [] }
enter_turn _ s = s

unfoldable pub look_turn : {S : Type 0} → Holder S → Shared S → Shared S
look_turn (reader seen) s = record s { mutex = reader (s.state ∷ seen) }
look_turn _ s = s

unfoldable pub leave_turn : {S : Type 0} → Holder S → Shared S → Shared S
leave_turn (reader seen) s = record s { mutex = nobody; readings = seen ∷ s.readings }
leave_turn _ s = s

unfoldable pub happen : {S : Type 0} → Shared S → Turn → Shared S
unfolding write_turn enter_turn look_turn leave_turn
happen s write = write_turn s.mutex s
happen s enter = enter_turn s.mutex s
happen s look = look_turn s.mutex s
happen s leave = leave_turn s.mutex s

unfoldable pub run : {S : Type 0} → Shared S → List Turn → Shared S
unfolding happen
run s [] = s
run s (t ∷ ts) = run (happen s t) ts

-- Before any turn.
abbrev pub before : {S : Type 0} → S → List (Call S) → Shared S
before s calls = record { state = s; mutex = nobody; calls = calls; readings = [] }
