-- ===== src/Program/Locks/Atomic.antt =====
-- What a thread that has taken a mutex of src/core/order_book.cpp, src/ui/trade_box.cpp or
-- src/ui/log_box/log_box.cpp sees of the calls of another.
use trader_cpp.Base.{
  ◌≡◌, refl, sym, ap, ◌∙◌, List, [], ◌∷◌, ◌++◌, append_assoc, append-nil, All, ok, throw,
}
use trader_cpp.Program.Locks.{
  Call, finish, turn, whole, Holder, nobody, writer, reader, Shared, Turn, write, enter, look,
  leave, write_turn, enter_turn, look_turn, leave_turn, happen, run, before,
}

module _ {S : Type 0} where
  -- The state after calls that are made whole, one after the other.
  unfoldable pub after : List (Call S) → S → S
  after [] s = s
  after (c ∷ cs) s = after cs (whole c s).0

  after-append :
      (cs : List (Call S)) (c : Call S) (s : S)
      → after (cs ++ (c ∷ [])) s ≡ (whole c (after cs s)).0
  unfolding after
  after-append [] c s = refl
  after-append (d ∷ cs) c s = after-append cs c (whole d s).0

  module _ (start : S) (all : List (Call S)) where
    -- The states are all the one that the first calls make, each of them whole.
    pub record AreWhole (seen : List S) : Type 0 where
      pub made : List (Call S)
      pub others : List (Call S)
      pub in_order : all ≡ made ++ others
      pub same : All (λ s. s ≡ after made start) seen

    -- The calls made, those to be made, those that an exception has left behind, and the state between
    -- two calls.
    abbrev Between : List (Call S) → List (Call S) → S → Type 0
    Between made left s =
        ((gone : List (Call S)) × (all ≡ made ++ (left ++ gone))) × (s ≡ after made start)

    abbrev Holds : List (Call S) → Holder S → List (Call S) → S → Type 0
    Holds made nobody left s = Between made left s
    Holds made (reader seen) left s = Between made left s × All (λ x. x ≡ after made start) seen
    Holds made (writer c) left s =
        (c₀ : Call S) × ((gone : List (Call S)) × (all ≡ made ++ (c₀ ∷ (left ++ gone))))
        × ((whole c s).0 ≡ (whole c₀ (after made start)).0)

    pub record Inv (s : Shared S) : Type 0 where
      pub made : List (Call S)
      pub held : Holds made s.mutex s.calls s.state
      pub seen : All AreWhole s.readings

    abbrev AllWhole : List (List S) → Type 0
    AllWhole readings = All AreWhole readings

    write-Inv :
        (m : Holder S) (calls made : List (Call S)) (x : S) (readings : List (List S))
        → Holds made m calls x
        → AllWhole readings
        → Inv (write_turn m (record { state = x; mutex = m; calls = calls; readings = readings }))
    unfolding write_turn whole
    write-Inv nobody [] made x readings h seen = record { made = made; held = h; seen = seen }
    write-Inv nobody (c ∷ cs) made x readings (order, e) seen = record {
      made = made;
      held = (c, order, ap (λ x. (whole c x).0) e);
      seen = seen;
    }
    write-Inv (writer (finish (ok u))) calls made x readings (c, (gone, order), e) seen = record {
      made = made ++ (c ∷ []);
      held = (
        (gone, order ∙ sym (append_assoc made (c ∷ []) (calls ++ gone))),
        e ∙ sym (after-append made c start),
      );
      seen = seen;
    }
    write-Inv (writer (finish (throw t))) calls made x readings (c, (gone, order), e) seen =
        record {
          made = made ++ (c ∷ []);
          held = (
            (calls ++ gone, order ∙ sym (append_assoc made (c ∷ []) (calls ++ gone))),
            e ∙ sym (after-append made c start),
          );
          seen = seen;
        }
    write-Inv (writer (turn f rest)) calls made x readings h seen = record {
      made = made;
      held = h;
      seen = seen;
    }
    write-Inv (reader xs) calls made x readings h seen = record {
      made = made;
      held = h;
      seen = seen;
    }

    enter-Inv :
        (m : Holder S) (calls made : List (Call S)) (x : S) (readings : List (List S))
        → Holds made m calls x
        → AllWhole readings
        → Inv (enter_turn m (record { state = x; mutex = m; calls = calls; readings = readings }))
    unfolding enter_turn
    enter-Inv nobody calls made x readings h seen = record {
      made = made;
      held = (h, tt);
      seen = seen;
    }
    enter-Inv (writer c) calls made x readings h seen = record {
      made = made;
      held = h;
      seen = seen;
    }
    enter-Inv (reader xs) calls made x readings h seen = record {
      made = made;
      held = h;
      seen = seen;
    }

    look-Inv :
        (m : Holder S) (calls made : List (Call S)) (x : S) (readings : List (List S))
        → Holds made m calls x
        → AllWhole readings
        → Inv (look_turn m (record { state = x; mutex = m; calls = calls; readings = readings }))
    unfolding look_turn
    look-Inv nobody calls made x readings h seen = record { made = made; held = h; seen = seen }
    look-Inv (writer c) calls made x readings h seen = record { made = made; held = h; seen = seen }
    look-Inv (reader xs) calls made x readings ((order, e), same) seen = record {
      made = made;
      held = ((order, e), (e, same));
      seen = seen;
    }

    leave-Inv :
        (m : Holder S) (calls made : List (Call S)) (x : S) (readings : List (List S))
        → Holds made m calls x
        → AllWhole readings
        → Inv (leave_turn m (record { state = x; mutex = m; calls = calls; readings = readings }))
    unfolding leave_turn
    leave-Inv nobody calls made x readings h seen = record { made = made; held = h; seen = seen }
    leave-Inv (writer c) calls made x readings h seen = record {
      made = made;
      held = h;
      seen = seen;
    }
    leave-Inv (reader xs) calls made x readings ((order, e), same) seen = record {
      made = made;
      held = (order, e);
      seen = (
        record { made = made; others = calls ++ order.0; in_order = order.1; same = same },
        seen,
      );
    }

    happen-Inv : (s : Shared S) (t : Turn) → Inv s → Inv (happen s t)
    unfolding happen
    happen-Inv s write inv = write-Inv s.mutex s.calls inv.made s.state s.readings inv.held inv.seen
    happen-Inv s enter inv = enter-Inv s.mutex s.calls inv.made s.state s.readings inv.held inv.seen
    happen-Inv s look inv = look-Inv s.mutex s.calls inv.made s.state s.readings inv.held inv.seen
    happen-Inv s leave inv = leave-Inv s.mutex s.calls inv.made s.state s.readings inv.held inv.seen

    pub run-Inv : (s : Shared S) (ts : List Turn) → Inv s → Inv (run s ts)
    unfolding run
    run-Inv s [] inv = inv
    run-Inv s (t ∷ ts) inv = run-Inv (happen s t) ts (happen-Inv s t inv)

    -- However the turns fall, all that is read in one call is the state that some first calls of the other
    -- thread make, each of them whole.
    pub run-AreWhole : (ts : List Turn) → All AreWhole (run (before start all) ts).readings
    unfolding after
    run-AreWhole ts =
        (run-Inv (before start all) ts
          (record { made = []; held = (([], sym (append-nil all)), refl); seen = tt })).seen
