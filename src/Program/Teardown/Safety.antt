-- ===== src/Program/Teardown/Safety.antt =====
-- Which threads can meet a destroyed object while the objects of src/main.cpp go out of scope.
use trader_cpp.Base.{
  ℕ, ◌≡◌, refl, sym, ap, ◌∙◌, ◌⊎◌, inl, inr, ◌↔◌, Bool, true, false, not, ◌||◌, Bool-cases, List,
  [], ◌∷◌, ◌==◌, ==_iff, if◌then◌else◌, arith,
}
use trader_cpp.Program.Teardown.{
  Thread, book_worker, trade_worker, fix_sessions, watch_starter, file_events, thread_id,
  same_thread, has_thread, has_object, uses, Step, destroy, join, Scope, leaving, Turn, advance,
  acts, touches, take_step, happen, run, orderly,
}

thread_of : ℕ → Thread
thread_of n =
    if n == 0
    then book_worker
    else (if n == 1
        then trade_worker
        else (if n == 2 then fix_sessions else (if n == 3 then watch_starter else file_events)))

thread_of-thread_id : (t : Thread) → thread_of (thread_id t) ≡ t
unfolding thread_of
thread_of-thread_id book_worker = refl
thread_of-thread_id trade_worker = refl
thread_of-thread_id fix_sessions = refl
thread_of-thread_id watch_starter = refl
thread_of-thread_id file_events = refl

same_thread_sound : (t u : Thread) → same_thread t u ≡ true → t ≡ u
same_thread_sound t u e =
    sym (thread_of-thread_id t)
    ∙ ap thread_of ((==_iff (thread_id t) (thread_id u)).0 e)
    ∙ thread_of-thread_id u

-- A thread that has met no destroyed object, and will not.
record IsSafe (t : Thread) (s : Scope) : Type 0 where
  no_fault : has_thread t s.faulted ≡ false
  ahead :
      (has_thread t s.joined ≡ true) ⊎ ((touches t s.destroyed ≡ false) × (orderly t s.left ≡ true))

take_step-IsSafe :
    (t : Thread) (steps : List Step) (s : Scope)
    → s.left ≡ steps
    → IsSafe t s
    → IsSafe t (take_step steps s)
unfolding touches orderly
take_step-IsSafe t [] s e h = h
take_step-IsSafe t (destroy o ∷ steps) s e h = ground (arith, e, h.no_fault, h.ahead)
take_step-IsSafe t (join u ∷ steps) s e h = ground (arith, e, h.no_fault, h.ahead)

-- What a thread may do when it acts.
abbrev may_act : Thread → Scope → Bool
may_act t s = has_thread t s.joined || not (touches t s.destroyed)

may_act-IsSafe : (t : Thread) (s : Scope) → IsSafe t s → may_act t s ≡ true
may_act-IsSafe t s h = ground (arith, h.ahead)

happen-IsSafe : (t : Thread) (s : Scope) (u : Turn) → IsSafe t s → IsSafe t (happen s u)
unfolding happen
happen-IsSafe t s advance h = take_step-IsSafe t s.left s refl h
happen-IsSafe t s (acts u) h = elim (Bool-cases (may_act u s)) [
  | inl may ↦ rw may h
  | inr fault ↦ elim (Bool-cases (same_thread t u)) [
    | inl same ↦
        let safe : may_act u s ≡ true = rw (← same_thread_sound t u same) (may_act-IsSafe t s h) in
        cc (safe, fault)
    | inr other ↦ rw fault (record { no_fault = rw other h.no_fault; ahead = h.ahead })
  ]
]

run-IsSafe : (t : Thread) (us : List Turn) (s : Scope) → IsSafe t s → IsSafe t (run s us)
unfolding run
run-IsSafe t [] s h = h
run-IsSafe t (u ∷ us) s h = run-IsSafe t us (happen s u) (happen-IsSafe t s u h)

leaving-IsSafe :
    (t : Thread) (steps : List Step) → orderly t steps ≡ true → IsSafe t (leaving steps)
unfolding touches
leaving-IsSafe t steps e = record { no_fault = refl; ahead = inr (refl, e) }

-- The turns up to where something is destroyed that a running thread uses.
abbrev pub reach : Thread → List Step → List Turn
reach t [] = []
reach t (destroy o ∷ steps) =
    let rest = reach t steps in advance ∷ (if has_object o (uses t) then acts t ∷ [] else rest)
reach t (join u ∷ steps) = advance ∷ reach t steps

same_thread_refl : (t : Thread) (us : List Thread) → has_thread t (t ∷ us) ≡ true
same_thread_refl t us = rw ((==_iff (thread_id t) (thread_id t)).1 refl) refl

pub reach-faults :
    (t : Thread) (steps : List Step) (s : Scope)
    → s.left ≡ steps
    → has_thread t s.joined ≡ false
    → orderly t steps ≡ false
    → has_thread t (run s (reach t steps)).faulted ≡ true
unfolding run happen orderly touches uses
reach-faults t [] s e running bad = cc bad
reach-faults t (destroy o ∷ steps) s e running bad = elim (Bool-cases (has_object o (uses t))) [
  | inl used ↦ rw (e, used, running, used) (same_thread_refl t s.faulted)
  | inr unused ↦
      rw (e, unused)
        (reach-faults t steps (record s { left = steps; destroyed = o ∷ s.destroyed }) refl running
          (rw unused at bad))
]
reach-faults t (join u ∷ steps) s e running bad = elim (Bool-cases (same_thread t u)) [
  | inl same ↦ cc (rw same at bad)
  | inr other ↦ rw e (
      reach-faults t steps (record s { left = steps; joined = u ∷ s.joined }) refl
        (rw other running) (rw other at bad))
]

-- However the steps and the threads interleave, a thread meets no destroyed object: this is so exactly
-- if the steps wait for it before they destroy anything that it uses.
pub run-safe_iff :
    (t : Thread) (steps : List Step)
    → (orderly t steps ≡ true)
      ↔ ((us : List Turn) → has_thread t (run (leaving steps) us).faulted ≡ false)
run-safe_iff t steps = (
  λ e us. (run-IsSafe t us (leaving steps) (leaving-IsSafe t steps e)).no_fault,
  λ safe. elim (Bool-cases (orderly t steps)) [
    | inl e ↦ e
    | inr bad ↦
        let fault = reach-faults t steps (leaving steps) refl refl bad in
        let none = safe (reach t steps) in cc (fault, none)
  ],
)
