-- ===== src/Ui/Polling/Simulation.antt =====
-- Two ways to handle messages, one of which follows the other.
use trader_cpp.Base.{◌≡◌, refl, Option, List, [], ◌∷◌, ok, throw, Exception, Attempt}
use trader_cpp.Ui.Polling.{digest, digest_after}

-- Two calls that end alike in related states.
abbrev pub Alike : {S V : Type 0} → (S → V → Type 0) → Attempt S → Attempt V → Type 0
Alike rel r r' = rel r.0 r'.0 × (r.1 ≡ r'.1)

abbrev pub StopAlike :
    {S V : Type 0} → (S → V → Type 0) → S × Option Exception → V × Option Exception → Type 0
StopAlike rel r r' = rel r.0 r'.0 × (r.1 ≡ r'.1)

module _ {M S V : Type 0} (rel : S → V → Type 0) (handle : M → S → Attempt S) (post : S → S)
    (handle' : M → V → Attempt V) (post' : V → V) where
  after-simulates :
      ((s : S) (v : V) → rel s v → rel (post s) (post' v))
      → (k : S → S × Option Exception) (k' : V → V × Option Exception)
      → ((s : S) (v : V) → rel s v → StopAlike rel (k s) (k' v))
      → (r : Attempt S) (r' : Attempt V) → Alike rel r r'
      → StopAlike rel (digest_after handle post r k) (digest_after handle' post' r' k')
  after-simulates posts k k' rest (s, ok _) (v, ok _) (h, e) = rest (post s) (post' v) (posts s v h)
  after-simulates posts k k' rest (s, throw x) (v, throw y) (h, e) = (h, cc e)
  after-simulates posts k k' rest (s, ok _) (v, throw y) (h, e) = cc e
  after-simulates posts k k' rest (s, throw x) (v, ok _) (h, e) = cc e

  pub digest-simulates :
      ((s : S) (v : V) → rel s v → rel (post s) (post' v))
      → ((m : M) (s : S) (v : V) → rel s v → Alike rel (handle m s) (handle' m v))
      → (ms : List M) (s : S) (v : V) → rel s v
      → StopAlike rel (digest handle post s ms) (digest handle' post' v ms)
  unfolding digest
  digest-simulates posts steps [] s v h = (h, refl)
  digest-simulates posts steps (m ∷ ms) s v h =
      after-simulates posts (λ s'. digest handle post s' ms) (λ v'. digest handle' post' v' ms)
        (digest-simulates posts steps ms) (handle m s) (handle' m v) (steps m s v h)
