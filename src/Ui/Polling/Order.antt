-- ===== src/Ui/Polling/Order.antt =====
-- What the worker of `poll_queue` has done with the messages, under every interleaving.
use trader_cpp.Base.{
  ◌≡◌, ◌≢◌, refl, sym, ap, ◌∙◌, ◌⊎◌, inl, inr, Bool-cases, Option, none, some, Option-cases, List,
  [], ◌∷◌, ◌++◌, Exception, Outcome-cases, Attempt, arith, append_assoc, append-nil,
}
use trader_cpp.External.ConcurrentQueue.{ConcurrentQueue}
use trader_cpp.Ui.Polling.{
  Phase, at_loop, at_dequeue, at_miss, ended, Worker, Event, send, request_stop, turn, turn_at,
  happen, run, digest, started, sent, after_message,
}

module _ {M S : Type 0} (handle : M → S → Attempt S) (post : S → S) where
  digest-snoc :
      (s : S) (ms : List M) (m : M) (s' : S)
      → digest handle post s ms ≡ (s', none)
      → digest handle post s (ms ++ m ∷ []) ≡ digest handle post s' (m ∷ [])
  unfolding digest
  digest-snoc s [] m s' e = cc
  digest-snoc s (x ∷ ms) m s' e = elim (Outcome-cases (handle x s).1) [
    | inl (a, f) ↦ rw f (digest-snoc (post (handle x s).0) ms m s' (rw f at e))
    | inr (x', f) ↦ cc (ap (λ (r : S × Option Exception). r.1) (rw f at e))
  ]

sent-cons :
    {M : Type 0} (before : List M) (e : Event M) (es : List (Event M))
    → (before ++ sent (e ∷ [])) ++ sent es ≡ before ++ sent (e ∷ es)
sent-cons before (send m) es = append_assoc before (m ∷ []) (sent es)
sent-cons before request_stop es = append_assoc before [] (sent es)
sent-cons before turn es = append_assoc before [] (sent es)

module _ {M Q S : Type 0} ⦃q : ConcurrentQueue M Q⦄ (handle : M → S → Attempt S)
    (post : S → S) where
  -- The messages of `before` were sent; those of `taken` have left the queue, oldest first, and the
  -- others wait in it. The state and the exception are those of handling what was taken.
  pub record HasDigested (s : S) (before : List M) (w : Worker S Q) : Type 0 where
    pub taken : List M
    pub order : before ≡ taken ++ q.contents w.queue
    pub digested : digest handle post s taken ≡ (w.state, w.exception)
    pub stopped : (w.exception ≡ none) ⊎ (w.phase ≡ ended)

  module _ (s : S) (before : List M) (w : Worker S Q) (h : HasDigested s before w) where
    running : w.phase ≢ ended → w.exception ≡ none
    running p = elim h.stopped [ inl e ↦ e | inr e ↦ absurd (p e) ]

    -- A message that is taken is handled, in the state that the earlier ones left.
    message-HasDigested :
        (m : M) (rest : Q)
        → w.exception ≡ none
        → q.try_dequeue w.queue ≡ some (m, rest)
        → HasDigested s before
            (after_message handle post (record w { queue = rest }) (handle m w.state))
    unfolding after_message digest
    message-HasDigested m rest e d =
        let contents = q.try_dequeue-some w.queue m rest d in
        let so_far : digest handle post s h.taken ≡ (w.state, none) = rw (← e) h.digested in
        let more = digest-snoc handle post s h.taken m w.state so_far in
        let order' : before ≡ (h.taken ++ m ∷ []) ++ q.contents rest =
          h.order
          ∙ ap (λ (l : List M). h.taken ++ l) contents
          ∙ sym (append_assoc h.taken (m ∷ []) (q.contents rest)) in
        elim (Outcome-cases (handle m w.state).1) [
          | inl (a, f) ↦ rw f (record {
            taken = h.taken ++ m ∷ [];
            order = order';
            digested = ground (arith, more, f, e);
            stopped = inl e;
          })
          | inr (x, f) ↦ rw f (record {
            taken = h.taken ++ m ∷ [];
            order = order';
            digested = ground (arith, more, f);
            stopped = inr refl;
          })
        ]

    same-HasDigested :
        (v : Worker S Q)
        → v.queue ≡ w.queue
        → v.state ≡ w.state
        → v.exception ≡ w.exception
        → (v.exception ≡ none) ⊎ (v.phase ≡ ended)
        → HasDigested s before v
    same-HasDigested v a b c d = record {
      taken = h.taken;
      order = rw a h.order;
      digested = rw (b, c) h.digested;
      stopped = d;
    }

    turn_at-HasDigested : (p : Phase) → w.phase ≡ p → HasDigested s before (turn_at handle post p w)
    unfolding turn_at
    turn_at-HasDigested at_loop e = same-HasDigested _ refl refl refl (inl (running (λ d. cc)))
    turn_at-HasDigested at_miss e = elim (Bool-cases w.stop_requested) [
      | inl d ↦ rw d (same-HasDigested _ refl refl refl (inr refl))
      | inr d ↦ rw d (same-HasDigested _ refl refl refl (inl (running (λ d. cc))))
    ]
    turn_at-HasDigested ended e = h
    turn_at-HasDigested at_dequeue e = elim (Option-cases (q.try_dequeue w.queue)) [
      | inl d ↦ rw d (same-HasDigested _ refl refl refl (inl (running (λ d. cc))))
      | inr ((m, rest), d) ↦ rw d (message-HasDigested m rest (running (λ d. cc)) d)
    ]

  happen-HasDigested :
      (s : S) (before : List M) (w : Worker S Q) (e : Event M)
      → HasDigested s before w
      → HasDigested s (before ++ sent (e ∷ [])) (happen handle post w e)
  unfolding happen
  happen-HasDigested s before w (send m) h = record {
    taken = h.taken;
    order = rw (q.contents-enqueue m w.queue) (
        ap (λ (l : List M). l ++ m ∷ []) h.order
        ∙ append_assoc h.taken (q.contents w.queue) (m ∷ []));
    digested = h.digested;
    stopped = h.stopped;
  }
  happen-HasDigested s before w request_stop h = record {
    taken = h.taken;
    order = append-nil before ∙ h.order;
    digested = h.digested;
    stopped = h.stopped;
  }
  happen-HasDigested s before w turn h =
      rw append-nil (turn_at-HasDigested s before w h w.phase refl)

  run_from :
      (s : S) (es : List (Event M)) (before : List M) (w : Worker S Q)
      → HasDigested s before w
      → HasDigested s (before ++ sent es) (run handle post w es)
  unfolding run
  run_from s [] before w h = rw append-nil h
  run_from s (e ∷ es) before w h = rw (← sent-cons before e es) (
      run_from s es (before ++ sent (e ∷ [])) (happen handle post w e)
        (happen-HasDigested s before w e h))

  -- However the turns of the worker, the sending of messages and the request to stop interleave: the
  -- messages sent are those that the worker has taken, in the order of sending, followed by those
  -- that wait in the queue; and the worker's state and exception are those of handling the taken
  -- messages one after the other, up to one that throws. None is lost, repeated or reordered.
  pub run-HasDigested :
      (s : S) (empty : Q) (es : List (Event M))
      → q.contents empty ≡ []
      → HasDigested s (sent es) (run handle post (started s empty) es)
  unfolding digest
  run-HasDigested s empty es e =
      run_from s es [] (started s empty)
        (record { taken = []; order = sym e; digested = refl; stopped = inl refl })
