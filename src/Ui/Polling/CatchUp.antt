-- ===== src/Ui/Polling/CatchUp.antt =====
-- The worker of `poll_queue` catches up with what was sent, if nobody asks it to stop.
use trader_cpp.Base.{
  ℕ, zero, suc, ◌≡◌, ◌≢◌, refl, sym, ap, ◌∙◌, ◌⊎◌, inl, inr, false, Option, none, some,
  Option-cases, List, [], ◌∷◌, ◌++◌, replicate, All, Exception, Outcome-cases, Attempt,
}
use trader_cpp.External.ConcurrentQueue.{ConcurrentQueue}
use trader_cpp.Ui.Backoff.{reset, adaptive_backoff}
use trader_cpp.Ui.Polling.{
  Phase, at_loop, at_dequeue, at_miss, ended, Worker, Event, send, request_stop, turn, turn_at, run,
  digest, after_dequeue, after_message, take_turn, happen, started, sent,
}
use trader_cpp.Ui.Polling.Order.{run-HasDigested}
use trader_cpp.Ui.Polling.Progress.{turns_for, run-drains}

abbrev pub IsQuiet : {M : Type 0} → Event M → Type 0
IsQuiet (send m) = Unit
IsQuiet request_stop = ⊥
IsQuiet turn = Unit

double_length : {M : Type 0} → List M → ℕ
double_length [] = zero
double_length (_ ∷ ms) = suc (suc (double_length ms))

turns_for-eq-replicate :
    {M : Type 0} (ms : List M) → turns_for ms ≡ replicate (double_length ms) turn
unfolding double_length
turns_for-eq-replicate [] = refl
turns_for-eq-replicate (m ∷ ms) =
    ap (λ (l : List (Event _)). turn ∷ turn ∷ l) (turns_for-eq-replicate ms)

-- Messages that can all be handled can be handled in two parts.
digest-append :
    {M S : Type 0} (handle : M → S → Attempt S) (post : S → S) (xs ys : List M) (s t : S)
    → digest handle post s (xs ++ ys) ≡ (t, none)
    → ((digest handle post s xs).1 ≡ none)
      × (digest handle post (digest handle post s xs).0 ys ≡ (t, none))
unfolding digest
digest-append handle post [] ys s t e = (refl, e)
digest-append {S = S} handle post (x ∷ xs) ys s t e = elim (Outcome-cases (handle x s).1) [
  | inl (a, f) ↦ rw f (digest-append handle post xs ys (post (handle x s).0) t (rw f at e))
  | inr (x', f) ↦ cc (ap (λ (r : S × Option Exception). r.1) (rw f at e))
]

module _ {M Q S : Type 0} ⦃q : ConcurrentQueue M Q⦄ (handle : M → S → Attempt S)
    (post : S → S) where
  -- Nobody has asked it to stop, and so it has ended only if it has an exception.
  record IsOn (w : Worker S Q) : Type 0 where
    pub unasked : w.stop_requested ≡ false
    pub going : (w.phase ≢ ended) ⊎ ((x : Exception) × (w.exception ≡ some x))

  turn_at-IsOn :
      (p : Phase) (w : Worker S Q) → w.phase ≡ p → IsOn w → IsOn (turn_at handle post p w)
  unfolding turn_at after_message
  turn_at-IsOn at_loop w e h = rw h.unasked (record { unasked = refl; going = inl (λ r. cc) })
  turn_at-IsOn ended w e h = h
  turn_at-IsOn at_miss w e h = rw h.unasked (record { unasked = refl; going = inl (λ r. cc) })
  turn_at-IsOn at_dequeue w e h = elim (Option-cases (q.try_dequeue w.queue)) [
    | inl d ↦ rw d (record { unasked = h.unasked; going = inl (λ r. cc) })
    | inr ((m, rest), d) ↦ elim (Outcome-cases (handle m w.state).1) [
      | inl (a, f) ↦ rw (d, f) (record { unasked = h.unasked; going = inl (λ r. cc) })
      | inr (x, f) ↦ rw (d, f) (record { unasked = h.unasked; going = inr (x, refl) })
    ]
  ]

  run-IsOn :
      (es : List (Event M)) (w : Worker S Q) → All IsQuiet es → IsOn w → IsOn (run handle post w es)
  unfolding run happen take_turn
  run-IsOn [] w k h = h
  run-IsOn (send m ∷ es) w k h =
      run-IsOn es (happen handle post w (send m)) k.1
        (record { unasked = h.unasked; going = h.going })
  run-IsOn (request_stop ∷ es) w k h = absurd k.0
  run-IsOn (turn ∷ es) w k h =
      run-IsOn es (happen handle post w turn) k.1 (turn_at-IsOn w.phase w refl h)

  -- The worker's queue and exception are empty, and its state is the given one.
  abbrev IsDone : Worker S Q → S → Type 0
  IsDone w t = (q.contents w.queue ≡ []) × (w.state ≡ t) × (w.exception ≡ none)

  abbrev Reaches : Worker S Q → S → Type 0
  Reaches w t = (n : ℕ) × IsDone (run handle post w (replicate n turn)) t

  Reaches-turn : (w : Worker S Q) (t : S) → Reaches (turn_at handle post w.phase w) t → Reaches w t
  unfolding run happen take_turn
  Reaches-turn w t (n, done) = (suc n, done)

  from_loop :
      (w : Worker S Q) (t : S)
      → w.phase ≡ at_loop
      → w.stop_requested ≡ false
      → w.exception ≡ none
      → digest handle post w.state (q.contents w.queue) ≡ (t, none)
      → Reaches w t
  from_loop w t p e x d =
      let (drained, state, exception) =
        run-drains handle post (q.contents w.queue) w t p e refl d in
      (
        double_length (q.contents w.queue),
        rw (← turns_for-eq-replicate (q.contents w.queue)) (drained, state, exception ∙ x),
      )

  from_dequeue :
      (w : Worker S Q) (t : S)
      → w.phase ≡ at_dequeue
      → w.stop_requested ≡ false
      → w.exception ≡ none
      → digest handle post w.state (q.contents w.queue) ≡ (t, none)
      → Reaches w t
  unfolding run digest
  from_dequeue w t p e x d = elim (Option-cases (q.try_dequeue w.queue)) [
    | inl none_left ↦
        let nothing = q.try_dequeue-none w.queue none_left in
        (zero, (nothing, ap (λ (r : S × Option Exception). r.0) (rw nothing at d), x))
    | inr ((m, rest), f) ↦
        let handled = rw (q.try_dequeue-some w.queue m rest f) at d in
        elim (Outcome-cases (handle m w.state).1) [
          | inr (y, g) ↦ cc (ap (λ (r : S × Option Exception). r.1) (rw g at handled))
          | inl (a, g) ↦
              let next : Worker S Q = record w {
                phase = at_loop;
                queue = rest;
                state = post (handle m w.state).0;
                backoff = reset;
              } in
              let step : turn_at handle post w.phase w ≡ next =
                rw p (unfold turn_at after_dequeue in rw f (unfold after_message in rw g refl)) in
              Reaches-turn w t (rw step (from_loop next t refl e x (rw g at handled)))
        ]
  ]

  from_miss :
      (w : Worker S Q) (t : S)
      → w.phase ≡ at_miss
      → w.stop_requested ≡ false
      → w.exception ≡ none
      → digest handle post w.state (q.contents w.queue) ≡ (t, none)
      → Reaches w t
  from_miss w t p e x d =
      let next : Worker S Q = record w {
        phase = at_dequeue;
        backoff = (adaptive_backoff w.backoff).0;
      } in
      let step : turn_at handle post w.phase w ≡ next = rw p (unfold turn_at in rw e refl) in
      Reaches-turn w t (rw step (from_dequeue next t refl e x d))

  from_phase :
      (p : Phase) (w : Worker S Q) (t : S)
      → w.phase ≡ p
      → IsOn w
      → w.exception ≡ none
      → digest handle post w.state (q.contents w.queue) ≡ (t, none)
      → Reaches w t
  from_phase at_loop w t p h x d = from_loop w t p h.unasked x d
  from_phase at_dequeue w t p h x d = from_dequeue w t p h.unasked x d
  from_phase at_miss w t p h x d = from_miss w t p h.unasked x d
  from_phase ended w t p h x d = elim h.going [
    | inl going ↦ absurd (going p)
    | inr (y, e) ↦ cc (x, e)
  ]

  -- However turns and messages interleave, if nobody asks the worker to stop and none of the messages
  -- throws: some number of further turns later the queue is empty, and the state is that of handling
  -- all the messages that were sent, in order.
  pub run-catches_up :
      (s t : S) (empty : Q) (es : List (Event M))
      → q.contents empty ≡ []
      → All IsQuiet es
      → digest handle post s (sent es) ≡ (t, none)
      → let w = run handle post (started s empty) es in
        (n : ℕ) × (let v = run handle post w (replicate n turn) in
          (q.contents v.queue ≡ []) × (v.state ≡ t) × (v.exception ≡ none))
  run-catches_up s t empty es e quiet d =
      let w = run handle post (started s empty) es in
      let h = run-HasDigested handle post s empty es e in
      let on =
        run-IsOn es (started s empty) quiet (record { unasked = refl; going = inl (λ r. cc) }) in
      let (fine, rest) =
        digest-append handle post h.taken (q.contents w.queue) s t (rw (← h.order) d) in
      from_phase w.phase w t refl on
        (sym (ap (λ (r : S × Option Exception). r.1) h.digested) ∙ fine)
        (rw (ap (λ (r : S × Option Exception). r.0) h.digested) at rest)
