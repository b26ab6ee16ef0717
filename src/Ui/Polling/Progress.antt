-- ===== src/Ui/Polling/Progress.antt =====
-- The worker of `poll_queue` ends when it is asked to, and until then gets through its queue.
use trader_cpp.Base.{
  ◌≡◌, refl, ap, inl, inr, true, false, Option, none, some, Option-cases, List, [], ◌∷◌, Exception,
  Outcome-cases, Attempt,
}
use trader_cpp.External.ConcurrentQueue.{ConcurrentQueue}
use trader_cpp.Ui.Backoff.{reset}
use trader_cpp.Ui.Polling.{
  Phase, at_loop, at_dequeue, at_miss, ended, Worker, Event, turn, turn_at, run, digest,
  after_message, take_turn, happen,
}

-- Two turns for each message.
abbrev pub turns_for : {M : Type 0} → List M → List (Event M)
turns_for [] = []
turns_for (_ ∷ ms) = turn ∷ turn ∷ turns_for ms

module _ {M Q S : Type 0} ⦃q : ConcurrentQueue M Q⦄ (handle : M → S → Attempt S)
    (post : S → S) where
  -- From each phase two turns are enough.
  two_turns_end :
      (p : Phase) (w : Worker S Q)
      → w.phase ≡ p
      → w.stop_requested ≡ true
      → let v = turn_at handle post p w in (turn_at handle post v.phase v).phase ≡ ended
  unfolding turn_at after_message
  two_turns_end at_loop w p e = rw e
  two_turns_end at_miss w p e = rw e
  two_turns_end ended w p e = rw (p, turn_at)
  two_turns_end at_dequeue w p e = elim (Option-cases (q.try_dequeue w.queue)) [
    | inl d ↦ rw (d, e)
    | inr ((m, rest), d) ↦ elim (Outcome-cases (handle m w.state).1) [
      | inl (a, f) ↦ rw (d, f, e)
      | inr (x, f) ↦ rw (d, f)
    ]
  ]

  -- Once it is asked to stop, the worker has ended after two more turns, wherever it is: it handles
  -- at most one more message.
  pub run-ended :
      (w : Worker S Q)
      → w.stop_requested ≡ true
      → (run handle post w (turn ∷ turn ∷ [])).phase ≡ ended
  unfolding run happen take_turn
  run-ended w e = two_turns_end w.phase w refl e

  -- The test of the stop token and a dequeue that finds a message.
  two_turns :
      (w : Worker S Q) (m : M) (rest : Q)
      → w.phase ≡ at_loop
      → w.stop_requested ≡ false
      → q.try_dequeue w.queue ≡ some (m, rest)
      → take_turn handle post (take_turn handle post w)
        ≡ after_message handle post
            (record w { phase = at_dequeue; queue = rest })
            (handle m w.state)
  unfolding take_turn turn_at
  two_turns w m rest p e f = rw (p, turn_at) (rw (e, turn_at) (rw (f, turn_at) refl))

  run-nil : (w : Worker S Q) → run handle post w [] ≡ w
  unfolding run
  run-nil w = refl

  run-turns :
      (w : Worker S Q) (es : List (Event M))
      → run handle post w (turn ∷ turn ∷ es)
        ≡ run handle post (take_turn handle post (take_turn handle post w)) es
  unfolding run happen
  run-turns w es = refl

  -- While nobody asks it to stop, a worker that is about to test the stop token needs two turns for
  -- each message that waits, if none of them throws; then the queue is empty, and the state is that
  -- of handling them all in order.
  pub run-drains :
      (ms : List M) (w : Worker S Q) (s : S)
      → w.phase ≡ at_loop
      → w.stop_requested ≡ false
      → q.contents w.queue ≡ ms
      → digest handle post w.state ms ≡ (s, none)
      → let v = run handle post w (turns_for ms) in
        (q.contents v.queue ≡ []) × (v.state ≡ s) × (v.exception ≡ w.exception)
  unfolding digest after_message
  run-drains [] w s p e c d = rw run-nil (c, ap (λ (r : S × Option Exception). r.0) d, refl)
  run-drains (m ∷ ms) w s p e c d = elim (Option-cases (q.try_dequeue w.queue)) [
    | inl none_left ↦ cc (c, q.try_dequeue-none w.queue none_left)
    | inr ((m', rest), f) ↦
        let contents = q.try_dequeue-some w.queue m' rest f in
        let same : m' ≡ m = cc (contents, c) in
        let others : q.contents rest ≡ ms = cc (contents, c) in
        elim (Outcome-cases (handle m w.state).1) [
          | inl (a, g) ↦
              let step = two_turns w m' rest p e f in
              rw (run-turns w (turns_for ms), step, same, g)
                (run-drains ms
                  (record w {
                    phase = at_loop;
                    queue = rest;
                    state = post (handle m w.state).0;
                    backoff = reset;
                  })
                  s refl e others (rw g at d))
          | inr (x, g) ↦ cc (ap (λ (r : S × Option Exception). r.1) (rw g at d))
        ]
  ]
