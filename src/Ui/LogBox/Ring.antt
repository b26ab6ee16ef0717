-- ===== src/Ui/LogBox/Ring.antt =====
-- The ring of src/ui/log_box/log_box.cpp holds the last lines.
use trader_cpp.Base.{
  ℕ, ◌+◌, ◌≤◌, ◌<◌, ◌≡◌, refl, sym, ap, ◌∙◌, List, [], ◌∷◌, ◌++◌, Text, length, length-append,
  keep_last, keep_last-append, keep_last-all, length-keep_last, append_assoc, append-nil, arith,
}
use trader_cpp.Ui.LogBox.{LogBox, max_lines, pop_front, push_line, push_lines, on_log_lines}

keep_last-snoc :
    (n : ℕ) (xs : List Text) (x : Text)
    → length xs ≡ n
    → 0 < n
    → keep_last n (xs ++ x ∷ []) ≡ pop_front xs ++ x ∷ []
keep_last-snoc n [] x h p = absurd (omega arith)
keep_last-snoc n (y ∷ xs) x h p =
    ground (arith, length-append xs (x ∷ []), keep_last-all n (xs ++ x ∷ []))

push_line-eq-keep_last :
    (ring : List Text) (line : Text)
    → length ring ≤ max_lines
    → push_line ring line ≡ keep_last max_lines (ring ++ line ∷ [])
unfolding push_line
push_line-eq-keep_last ring line h = ground (
  arith,
  keep_last-snoc max_lines ring line,
  keep_last-all max_lines (ring ++ line ∷ []),
  length-append ring (line ∷ []),
)

push_lines-eq-keep_last :
    (ring lines : List Text)
    → length ring ≤ max_lines
    → push_lines ring lines ≡ keep_last max_lines (ring ++ lines)
unfolding push_lines
push_lines-eq-keep_last ring [] h =
    sym (ap (keep_last max_lines) (append-nil ring) ∙ keep_last-all max_lines ring h)
push_lines-eq-keep_last ring (line ∷ lines) h =
    let step = push_line-eq-keep_last ring line h in
    let short : length (push_line ring line) ≤ max_lines =
      rw step (length-keep_last max_lines (ring ++ line ∷ [])) in
    push_lines-eq-keep_last (push_line ring line) lines short
    ∙ ap (λ (r : List Text). keep_last max_lines (r ++ lines)) step
    ∙ keep_last-append max_lines (ring ++ line ∷ []) lines
    ∙ ap (keep_last max_lines) (append_assoc ring (line ∷ []) lines)

-- From a ring of at most 100 lines, and for any number of new lines: the ring then holds the last
-- 100 of its lines followed by the new ones, which are at most 100 again, and one screen event is
-- posted.
pub on_log_lines-eq-keep_last :
    (lines : List Text) (box : LogBox)
    → length box.log_ring ≤ max_lines
    → let box' = on_log_lines lines box in
      (box'.log_ring ≡ keep_last max_lines (box.log_ring ++ lines))
      × (length box'.log_ring ≤ max_lines)
      × (box'.posted ≡ box.posted + 1)
unfolding on_log_lines
on_log_lines-eq-keep_last lines box h =
    let kept = push_lines-eq-keep_last box.log_ring lines h in
    (kept, rw kept (length-keep_last max_lines (box.log_ring ++ lines)), refl)
