-- ===== src/Ui/LogBox/Paths.antt =====
-- The path of the log in src/ui/log_box/log_box.cpp.
use trader_cpp.Base.{
  ℕ, ◌≡◌, refl, ap, ◌⊎◌, inl, inr, false, true, Option, none, some, Option-cases, [], ◌∷◌, ◌++◌,
  Text, All, ok, throw, runtime_error, bad_log_path, Bool-cases,
}
use trader_cpp.Utils.Env.{Environment, get_env_or_throw}
use trader_cpp.Ui.LogBox.{is_slash, split_last, watch_path}

abbrev pub HasNoSlash : Text → Type 0
HasNoSlash = All (λ c. is_slash c ≡ false)

-- A directory's text ends in a slash.
abbrev pub EndsInSlash : Text → Type 0
EndsInSlash [] = ⊥
EndsInSlash (c ∷ []) = is_slash c ≡ true
EndsInSlash (c ∷ d ∷ s) = EndsInSlash (d ∷ s)

abbrev pub IsSplit : Text → Option (Text × Text) → Type 0
IsSplit s none = HasNoSlash s
IsSplit s (some (directory, filename)) =
    (directory ++ filename ≡ s) × EndsInSlash directory × HasNoSlash filename

EndsInSlash-cons : (c : ℕ) (s : Text) → EndsInSlash s → EndsInSlash (c ∷ s)
EndsInSlash-cons c [] h = absurd h
EndsInSlash-cons c (d ∷ s) h = h

split_last-IsSplit : (s : Text) → IsSplit s (split_last s)
unfolding split_last
split_last-IsSplit [] = tt
split_last-IsSplit (c ∷ s) =
    let rest = split_last-IsSplit s in
    elim (Option-cases (split_last s)) [
      | inl e ↦
          let clean : HasNoSlash s = rw e at rest in
          elim (Bool-cases (is_slash c)) [
            | inl slash ↦ rw (e, slash) (refl, slash, clean)
            | inr other ↦ rw (e, other) (other, clean)
          ]
      | inr ((directory, filename), e) ↦
          let (whole, slash, clean) = rw e at rest in
          rw e (ap (◌∷◌ c) whole, EndsInSlash-cons c directory slash, clean)
    ]

-- If LOG_PATH is set and not empty, then either it has no slash of either kind, and `from_env`
-- throws; or it is split behind its last slash: the directory and the file name make it up, the
-- directory ends in a slash, and there is none in the file name.
pub watch_path_lem :
    (env : Environment) (path : Text)
    → get_env_or_throw env "LOG_PATH" ≡ ok path
    → (HasNoSlash path × (watch_path env ≡ throw (runtime_error bad_log_path)))
      ⊎ ((directory : Text) × (filename : Text) × (watch_path env ≡ ok (directory, filename))
          × (directory ++ filename ≡ path)
          × EndsInSlash directory
          × HasNoSlash filename)
unfolding watch_path
watch_path_lem env path e =
    let found = split_last-IsSplit path in
    elim (Option-cases (split_last path)) [
      | inl f ↦ inl (rw f at found, rw (e, f))
      | inr ((directory, filename), f) ↦
          let (whole, slash, clean) = rw f at found in
          inr (directory, filename, rw (e, f), whole, slash, clean)
    ]
