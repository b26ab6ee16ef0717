-- ===== src/Ui/LogFileWatcher/Lines.antt =====
-- The lines that src/ui/log_box/log_file_watcher.h reads are those that were written.
use trader_cpp.Base.{
  ◌≡◌, ◌≢◌, refl, ap, ◌∙◌, sym, List, [], ◌∷◌, ◌++◌, Text, All, arith, append_assoc, append-nil,
  some, text_eq_refl,
}
use trader_cpp.Ui.LogFileWatcher.{
  LogFileWatcher, modified, lines_from, read_lines, handle_file_action,
}

-- No byte is a newline.
abbrev pub IsLine : Text → Type 0
IsLine = All (λ c. c ≢ 10)

-- The lines with a newline behind each.
abbrev pub unlines : List Text → Text
unlines [] = []
unlines (l ∷ ls) = l ++ 10 ∷ unlines ls

lines_from-line :
    (acc line rest : Text)
    → IsLine line
    → lines_from acc (line ++ 10 ∷ rest) ≡ (acc ++ line) ∷ lines_from [] rest
unfolding lines_from
lines_from-line acc [] rest h = rw append-nil
lines_from-line acc (c ∷ line) rest h =
    ground
      (arith, h.0, lines_from-line (acc ++ c ∷ []) line rest h.1, append_assoc acc (c ∷ []) line)

read_lines-nil : read_lines [] ≡ []
unfolding read_lines
read_lines-nil = refl

-- After lines that each end in a newline, reading gives those lines, and then what it gives of the
-- text behind them.
pub read_lines-unlines :
    (ls : List Text) (rest : Text)
    → All IsLine ls
    → read_lines (unlines ls ++ rest) ≡ ls ++ read_lines rest
unfolding read_lines
read_lines-unlines [] rest h = refl
read_lines-unlines (l ∷ ls) rest h =
    ap (lines_from []) (append_assoc l (10 ∷ unlines ls) rest)
    ∙ lines_from-line [] l (unlines ls ++ rest) h.0
    ∙ ap (◌∷◌ l) (read_lines-unlines ls rest h.1)

-- An event about the watched file that reports a change calls back with the lines written since the
-- last one, if each was written with its newline, and leaves nothing unread.
pub handle_file_action-unlines :
    (w : LogFileWatcher) (ls : List Text)
    → All IsLine ls
    → w.unread ≡ unlines ls
    → handle_file_action w.filename modified w ≡ (record w { unread = [] }, some ls)
unfolding handle_file_action
handle_file_action-unlines w ls h e =
    let all = ap read_lines (e ∙ sym (append-nil (unlines ls))) ∙ read_lines-unlines ls [] h in
    let same = all ∙ ap (λ (r : List Text). ls ++ r) read_lines-nil ∙ append-nil ls in
    rw (text_eq_refl w.filename, same)
