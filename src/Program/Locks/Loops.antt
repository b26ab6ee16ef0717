-- ===== src/Program/Locks/Loops.antt =====
-- Loops over the groups of a message, each turn by itself: those of src/core/order_book.cpp and
-- src/ui/trade_box.cpp.
use trader_cpp.Base.{
  ℕ, zero, suc, ◌≡◌, refl, Bool, true, false, List, [], ◌∷◌, Outcome, ok, throw, Attempt, and_then,
  using, on_part, done, field_not_found, ◌∙◌, if◌then◌else◌,
}
use trader_cpp.External.Fix.{for_groups}
use trader_cpp.Program.Locks.{Call, finish, turn, whole}

module _ {S : Type 0} where
  -- What comes after something that was read of the message.
  abbrev pub with_value : {A : Type 0} → Outcome A → (A → Call S) → Call S
  with_value (ok a) rest = rest a
  with_value (throw e) rest = finish (throw e)

  whole-with_value :
      {A : Type 0} (r : Outcome A) (rest : A → Call S) (s : S)
      → whole (with_value r rest) s ≡ using s r (λ a. whole (rest a) s)
  unfolding whole
  whole-with_value (ok a) rest s = refl
  whole-with_value (throw e) rest s = refl

module _ {L S : Type 0} where
  -- What comes after a turn of a loop with local variables.
  abbrev pub resume : Attempt (L × S) → (L → Call S) → Call S
  resume ((l, _), ok _) rest = rest l
  resume (_, throw e) rest = finish (throw e)

module _ {G L S : Type 0} (body : Bool → G → L × S → Attempt (L × S)) where
  -- The loop over the groups of a message, `for_groups` in turns.
  unfoldable pub loop : Bool → ℕ → List G → L → Call S
  loop first zero gs l = finish done
  loop first (suc n) [] l = finish (throw field_not_found)
  loop first (suc n) (g ∷ gs) l =
      turn (λ s. (body first g (l, s)).0.1) (λ s. resume (body first g (l, s)) (loop false n gs))

  resume-whole :
      (n : ℕ) (gs : List G) (r : Attempt (L × S))
      → ((l : L) (s : S)
          → whole (loop false n gs l) s ≡ on_part (λ p. p.1) (for_groups body false n gs (l, s)))
      → whole (resume r (loop false n gs)) r.0.1
        ≡ on_part (λ p. p.1) (and_then r (for_groups body false n gs))
  unfolding whole
  resume-whole n gs ((l, s), ok _) h = h l s
  resume-whole n gs ((l, s), throw e) h = refl

  pub whole-loop :
      (first : Bool) (n : ℕ) (gs : List G) (l : L) (s : S)
      → whole (loop first n gs l) s ≡ on_part (λ p. p.1) (for_groups body first n gs (l, s))
  unfolding whole loop for_groups
  whole-loop first zero gs l s = refl
  whole-loop first (suc n) [] l s = refl
  whole-loop first (suc n) (g ∷ gs) l s =
      resume-whole n gs (body first g (l, s)) (whole-loop false n gs)

using-ext :
    {S A : Type 0} (s : S) (r : Outcome A) {f g : A → Attempt S}
    → ((a : A) → f a ≡ g a)
    → using s r f ≡ using s r g
using-ext s (ok a) h = h a
using-ext s (throw e) h = refl

-- A call that reads something of the message first.
pub whole-reads :
    {S A : Type 0} (r : Outcome A) (rest : A → Call S) (s : S) {f : A → Attempt S}
    → ((a : A) → whole (rest a) s ≡ f a)
    → whole (with_value r rest) s ≡ using s r f
whole-reads r rest s h = whole-with_value r rest s ∙ using-ext s r h

module _ {G S : Type 0} (body : Bool → G → S → Attempt S) where
  -- A loop without local variables.
  abbrev pub no_locals : Bool → G → Unit {0} × S → Attempt (Unit {0} × S)
  no_locals first g (_, s) = on_part (λ s. (tt, s)) (body first g s)

  and_then-part :
      (n : ℕ) (gs : List G) (r : Attempt S)
      → ((s : S)
          → on_part (λ p. p.1) (for_groups no_locals false n gs (tt, s))
            ≡ for_groups body false n gs s)
      → on_part (λ p. p.1) (and_then (on_part (λ s. (tt, s)) r) (for_groups no_locals false n gs))
        ≡ and_then r (for_groups body false n gs)
  and_then-part n gs (s, ok _) h = h s
  and_then-part n gs (s, throw e) h = refl

  for_groups-no_locals :
      (first : Bool) (n : ℕ) (gs : List G) (s : S)
      → on_part (λ p. p.1) (for_groups no_locals first n gs (tt, s)) ≡ for_groups body first n gs s
  unfolding for_groups
  for_groups-no_locals first zero gs s = refl
  for_groups-no_locals first (suc n) [] s = refl
  for_groups-no_locals first (suc n) (g ∷ gs) s =
      and_then-part n gs (body first g s) (for_groups-no_locals false n gs)

  pub whole-loop_no_locals :
      (first : Bool) (n : ℕ) (gs : List G) (s : S)
      → whole (loop no_locals first n gs tt) s ≡ for_groups body first n gs s
  whole-loop_no_locals first n gs s =
      whole-loop no_locals first n gs tt s ∙ for_groups-no_locals first n gs s

pub whole-if :
    {S : Type 0} (b : Bool) (c d : Call S) (s : S) {x y : Attempt S}
    → whole c s ≡ x
    → whole d s ≡ y
    → whole (if b then c else d) s ≡ (if b then x else y)
whole-if true c d s p q = p
whole-if false c d s p q = q
