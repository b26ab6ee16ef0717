-- ===== src/Ui/LogBox/Shown.antt =====
-- What the log box of src/ui/log_box/ shows of the log.
use trader_cpp.Base.{
  ℕ, ◌≤◌, ◌≡◌, refl, sym, ap, ◌∙◌, false, Bool-cases, inl, inr, List, [], ◌∷◌, ◌++◌, Text, All,
  length, map, text_eq, text_eq_refl, text_eq_sound, keep_last, keep_last-append, length-keep_last,
  append-nil, append_assoc, All-append,
}
use trader_cpp.Ui.LogBox.{max_lines}
use trader_cpp.Ui.LogBox.Ring.{on_log_lines-eq-keep_last}
use trader_cpp.Ui.LogBox.Watched.{Watched, FileEvent, append, action, notice, watch}
use trader_cpp.Ui.LogFileWatcher.{Action, modified, add, delete, moved, handle_file_action}
use trader_cpp.Ui.LogFileWatcher.Lines.{IsLine, unlines, handle_file_action-unlines}

-- The logger writes whole lines, and actions on any files are reported, on other files too.
pub data LogEvent : Type 0 where
  wrote : List Text → LogEvent
  reported : Text → Action → LogEvent

abbrev pub file_event : LogEvent → FileEvent
file_event (wrote ls) = append (unlines ls)
file_event (reported filename a) = action filename a

abbrev pub written : List LogEvent → List Text
written [] = []
written (wrote ls ∷ es) = ls ++ written es
written (reported filename a ∷ es) = written es

abbrev pub WritesLines : LogEvent → Type 0
WritesLines (wrote ls) = All IsLine ls
WritesLines (reported filename a) = Unit

unlines-append : (xs ys : List Text) → unlines (xs ++ ys) ≡ unlines xs ++ unlines ys
unlines-append [] ys = refl
unlines-append (x ∷ xs) ys =
    ap (λ (t : Text). x ++ 10 ∷ t) (unlines-append xs ys)
    ∙ sym (append_assoc x (10 ∷ unlines xs) (unlines ys))

-- Of the lines written, some have been shown, and the others wait to be read.
pub record Follows (lines : List Text) (filename : Text) (w : Watched) : Type 0 where
  pub shown : List Text
  pub pending : List Text
  pub all : lines ≡ shown ++ pending
  pub unread : w.watcher.unread ≡ unlines pending
  pub pending_lines : All IsLine pending
  pub ring : w.box.log_ring ≡ keep_last max_lines shown
  pub same_file : w.watcher.filename ≡ filename

module _ (lines : List Text) (filename : Text) (w : Watched) (h : Follows lines filename w) where
  bounded : length w.box.log_ring ≤ max_lines
  bounded = rw h.ring (length-keep_last max_lines h.shown)

  append-Follows :
      (ls : List Text)
      → All IsLine ls
      → Follows (lines ++ ls) filename (notice w (append (unlines ls)))
  unfolding notice
  append-Follows ls k = record {
    shown = h.shown;
    pending = h.pending ++ ls;
    all = ap (λ (l : List Text). l ++ ls) h.all ∙ append_assoc h.shown h.pending ls;
    unread = ap (λ (t : Text). t ++ unlines ls) h.unread ∙ sym (unlines-append h.pending ls);
    pending_lines = All-append IsLine h.pending ls h.pending_lines k;
    ring = h.ring;
    same_file = h.same_file;
  }

  -- A change of the watched file: all is shown.
  notice-modified :
      let v = notice w (action w.watcher.filename modified) in
      (v.box.log_ring ≡ keep_last max_lines lines)
      × (v.watcher.unread ≡ [])
      × (v.watcher.filename ≡ filename)
  unfolding notice
  notice-modified =
      let read = handle_file_action-unlines w.watcher h.pending h.pending_lines h.unread in
      let kept = (on_log_lines-eq-keep_last h.pending w.box bounded).0 in
      rw read (
        kept
            ∙ ap (λ (r : List Text). keep_last max_lines (r ++ h.pending)) h.ring
            ∙ keep_last-append max_lines h.shown h.pending
            ∙ ap (keep_last max_lines) (sym h.all),
        refl,
        h.same_file,
      )

  modified-Follows : Follows lines filename (notice w (action w.watcher.filename modified))
  modified-Follows =
      let (ring, unread, same_file) = notice-modified in
      record {
        shown = lines;
        pending = [];
        all = sym (append-nil lines);
        unread = unread;
        pending_lines = tt;
        ring = ring;
        same_file = same_file;
      }

  -- An action on another file.
  notice-other :
      (name : Text) (a : Action)
      → text_eq name w.watcher.filename ≡ false
      → notice w (action name a) ≡ w
  unfolding notice
  notice-other name a e = rw (e, handle_file_action) refl

  notice-same : (a : Action) → Follows lines filename (notice w (action w.watcher.filename a))
  unfolding notice handle_file_action
  notice-same modified = modified-Follows
  notice-same add = rw (text_eq_refl w.watcher.filename) h
  notice-same delete = rw (text_eq_refl w.watcher.filename) h
  notice-same moved = rw (text_eq_refl w.watcher.filename) h

  action-Follows : (name : Text) (a : Action) → Follows lines filename (notice w (action name a))
  action-Follows name a = elim (Bool-cases (text_eq name w.watcher.filename)) [
    | inl same ↦ rw (text_eq_sound name w.watcher.filename same) (notice-same a)
    | inr other ↦ rw (notice-other name a other) h
  ]

watch-Follows :
    (es : List LogEvent) (lines : List Text) (filename : Text) (w : Watched)
    → All WritesLines es
    → Follows lines filename w
    → Follows (lines ++ written es) filename (watch w (map file_event es))
unfolding watch
watch-Follows [] lines filename w k h = rw append-nil h
watch-Follows (wrote ls ∷ es) lines filename w k h = rw (← append_assoc lines ls (written es)) (
    watch-Follows es (lines ++ ls) filename (notice w (append (unlines ls))) k.1
      (append-Follows lines filename w h ls k.0))
watch-Follows (reported name a ∷ es) lines filename w k h =
    watch-Follows es lines filename (notice w (action name a)) k.1
      (action-Follows lines filename w h name a)

-- The log, as it is when the watcher opens it, is whole lines, and the logger goes on to write whole
-- lines. However the writing and the reports of the file system interleave, actions on other files
-- and other actions on the log among them: the ring holds the last 100 of the lines shown so far,
-- the lines written are those shown, in order, followed by those not yet read; and one more report
-- of a change of the log shows them all.
pub watch-shows :
    (old : List Text) (es : List LogEvent) (filename : Text) (posted : ℕ)
    → All IsLine old
    → All WritesLines es
    → let start : Watched = record {
      watcher = record { filename = filename; unread = unlines old };
      box = record { log_ring = []; posted = posted };
    } in
      let w = watch start (map file_event es) in
      Follows (old ++ written es) filename w
      × ((notice w (action filename modified)).box.log_ring
          ≡ keep_last max_lines (old ++ written es))
watch-shows old es filename posted k ks =
    let start : Watched = record {
      watcher = record { filename = filename; unread = unlines old };
      box = record { log_ring = []; posted = posted };
    } in
    let w = watch start (map file_event es) in
    let h = watch-Follows es old filename start ks (record {
      shown = [];
      pending = old;
      all = refl;
      unread = refl;
      pending_lines = k;
      ring = refl;
      same_file = refl;
    }) in
    let last = notice-modified (old ++ written es) filename w h in
    (
      h,
      ap (λ (name : Text). (notice w (action name modified)).box.log_ring) (sym h.same_file)
          ∙ last.0,
    )
