-- ===== src/Ui/Polling.antt =====
-- `poll_queue`, which src/ui/order_book_box.cpp and src/ui/trade_box.cpp write alike but for what
-- they do with a message: a worker that runs beside the thread that fills its queue and the one that
-- asks it to stop. A turn of the worker goes from one look at the outside to the next.
pub mod Order
pub mod Progress
pub mod Simulation
pub mod CatchUp
pub mod Stopping
use trader_cpp.Base.{
  Bool, true, false, Option, none, some, List, [], ◌∷◌, ok, throw, Exception, Attempt,
  if◌then◌else◌,
}
use trader_cpp.External.ConcurrentQueue.{ConcurrentQueue}
use trader_cpp.Ui.Backoff.{Backoff, reset, adaptive_backoff}

-- What the worker does next: the outer test of the stop token, `try_dequeue`, the test of the stop
-- token after a miss, or nothing any more.
pub data Phase : Type 0 where
  at_loop at_dequeue at_miss ended : Phase

pub record Worker (S Q : Type 0) : Type 0 where
  pub phase : Phase
  pub state : S
  pub backoff : Backoff
  -- `thread_exception`
  pub exception : Option Exception
  pub queue : Q
  pub stop_requested : Bool

-- What happens outside of the worker, and the worker's turns, in the order in which they happen.
pub data Event (M : Type 0) : Type 0 where
  send : M → Event M
  request_stop : Event M
  turn : Event M

-- `handle` is the body of the loop up to where it posts a screen event, which is `post`.
module _ {M Q S : Type 0} ⦃q : ConcurrentQueue M Q⦄ (handle : M → S → Attempt S)
    (post : S → S) where
  unfoldable pub after_message : Worker S Q → Attempt S → Worker S Q
  after_message w (s, ok _) = record w { phase = at_loop; state = post s; backoff = reset }
  after_message w (s, throw e) = record w { phase = ended; state = s; exception = some e }

  unfoldable pub after_dequeue : Worker S Q → Option (M × Q) → Worker S Q
  unfolding after_message
  after_dequeue w none = record w { phase = at_miss }
  after_dequeue w (some (m, rest)) = after_message (record w { queue = rest }) (handle m w.state)

  unfoldable pub turn_at : Phase → Worker S Q → Worker S Q
  unfolding after_dequeue adaptive_backoff
  turn_at at_loop w = record w { phase = if w.stop_requested then ended else at_dequeue }
  turn_at at_dequeue w = after_dequeue w (q.try_dequeue w.queue)
  turn_at at_miss w =
      if w.stop_requested
      then record w { phase = ended }
      else record w { phase = at_dequeue; backoff = (adaptive_backoff w.backoff).0 }
  turn_at ended w = w

  unfoldable pub take_turn : Worker S Q → Worker S Q
  unfolding turn_at
  take_turn w = turn_at w.phase w

  unfoldable pub happen : Worker S Q → Event M → Worker S Q
  unfolding take_turn
  happen w (send m) = record w { queue = q.enqueue m w.queue }
  happen w request_stop = record w { stop_requested = true }
  happen w turn = take_turn w

  unfoldable pub run : Worker S Q → List (Event M) → Worker S Q
  unfolding happen
  run w [] = w
  run w (e ∷ es) = run (happen w e) es

module _ {M S : Type 0} (handle : M → S → Attempt S) (post : S → S) where
  abbrev pub digest_after : Attempt S → (S → S × Option Exception) → S × Option Exception
  digest_after (s, ok _) rest = rest (post s)
  digest_after (s, throw e) rest = (s, some e)

  -- The messages of a list, handled one after the other up to one that throws.
  unfoldable pub digest : S → List M → S × Option Exception
  digest s [] = (s, none)
  digest s (m ∷ ms) = digest_after (handle m s) (λ s'. digest s' ms)

-- The worker as its thread starts.
abbrev pub started : {S Q : Type 0} → S → Q → Worker S Q
started s q = record {
  phase = at_loop;
  state = s;
  backoff = reset;
  exception = none;
  queue = q;
  stop_requested = false;
}

-- The messages that were sent, in order.
abbrev pub sent : {M : Type 0} → List (Event M) → List M
sent [] = []
sent (send m ∷ es) = m ∷ sent es
sent (request_stop ∷ es) = sent es
sent (turn ∷ es) = sent es
