-- ===== src/Ui/Polling/Stopping.antt =====
-- How soon the worker of `poll_queue` ends among other events.
use trader_cpp.Base.{
  ℕ, suc, ◌-◌, ◌≤◌, ◌≡◌, refl, ap, ◌∙◌, true, inl, inr, Option-cases, List, [], ◌∷◌, Outcome-cases,
  Attempt, arith,
}
use trader_cpp.External.ConcurrentQueue.{ConcurrentQueue}
use trader_cpp.Ui.Polling.{
  Phase, at_loop, at_dequeue, at_miss, ended, Worker, Event, send, request_stop, turn, turn_at, run,
  after_message, take_turn, happen,
}

-- The worker's turns among the events.
abbrev pub turns : {M : Type 0} → List (Event M) → ℕ
turns [] = 0
turns (send m ∷ es) = turns es
turns (request_stop ∷ es) = turns es
turns (turn ∷ es) = suc (turns es)

-- The turns that a worker takes at most before it ends, once it is asked to stop.
abbrev pub turns_left : Phase → ℕ
turns_left at_loop = 1
turns_left at_dequeue = 2
turns_left at_miss = 1
turns_left ended = 0

pub turns_left_bounded : (p : Phase) → turns_left p ≤ 2
turns_left_bounded at_loop = omega arith
turns_left_bounded at_dequeue = omega arith
turns_left_bounded at_miss = omega arith
turns_left_bounded ended = omega arith

ended-of_none : (p : Phase) → turns_left p ≤ 0 → p ≡ ended
ended-of_none at_loop h = absurd (omega arith)
ended-of_none at_dequeue h = absurd (omega arith)
ended-of_none at_miss h = absurd (omega arith)
ended-of_none ended h = refl

module _ {M Q S : Type 0} ⦃q : ConcurrentQueue M Q⦄ (handle : M → S → Attempt S)
    (post : S → S) where
  -- A turn is one of those that are left, and a worker that is to stop stays so.
  turn-lowers :
      (p : Phase) (w : Worker S Q)
      → w.phase ≡ p
      → w.stop_requested ≡ true
      → let v = turn_at handle post p w in
        (v.stop_requested ≡ true) × (turns_left v.phase ≤ turns_left p - 1)
  unfolding turn_at after_message
  turn-lowers at_loop w p e = rw e (refl, omega arith)
  turn-lowers at_miss w p e = rw e (refl, omega arith)
  turn-lowers ended w p e = rw p (e, omega arith)
  turn-lowers at_dequeue w p e = elim (Option-cases (q.try_dequeue w.queue)) [
    | inl d ↦ rw d (e, omega arith)
    | inr ((m, rest), d) ↦ elim (Outcome-cases (handle m w.state).1) [
      | inl (a, f) ↦ rw (d, f) (e, omega arith)
      | inr (x, f) ↦ rw (d, f) (e, omega arith)
    ]
  ]

  -- A worker that is asked to stop has ended after as many turns as are left, whatever else happens.
  pub run-stops :
      (w : Worker S Q) (es : List (Event M))
      → w.stop_requested ≡ true
      → turns_left w.phase ≤ turns es
      → (run handle post w es).phase ≡ ended
  unfolding run happen take_turn
  run-stops w [] e h = ended-of_none w.phase h
  run-stops w (send m ∷ es) e h = run-stops (record w { queue = q.enqueue m w.queue }) es e h
  run-stops w (request_stop ∷ es) e h = run-stops (record w { stop_requested = true }) es refl h
  run-stops w (turn ∷ es) e h =
      let (asked, fewer) = turn-lowers w.phase w refl e in
      run-stops (turn_at handle post w.phase w) es asked (omega arith)

  -- An ended worker does nothing more.
  pub run-of_ended :
      (w : Worker S Q) (es : List (Event M))
      → w.phase ≡ ended
      → let v = run handle post w es in (v.state ≡ w.state) × (v.exception ≡ w.exception)
  unfolding run happen take_turn turn_at
  run-of_ended w [] e = (refl, refl)
  run-of_ended w (send m ∷ es) e = run-of_ended (record w { queue = q.enqueue m w.queue }) es e
  run-of_ended w (request_stop ∷ es) e = run-of_ended (record w { stop_requested = true }) es e
  run-of_ended w (turn ∷ es) e =
      let stay : turn_at handle post w.phase w ≡ w =
        ap (λ (p : Phase). turn_at handle post p w) e in
      let same = ap (λ (v : Worker S Q). run handle post v es) stay in
      let (state, exception) = run-of_ended w es e in
      (
        ap (λ (v : Worker S Q). v.state) same ∙ state,
        ap (λ (v : Worker S Q). v.exception) same ∙ exception,
      )
