-- ===== src/Core/OrderBook/Top.antt =====
-- A book of depth 1, for which `apply_increment` of src/core/order_book.cpp is told to clear.
use trader_cpp.Base.{
  ℕ, ◌≡◌, refl, ap, ◌∙◌, ◌⊎◌, inl, inr, Bool, true, [], ◌∷◌, List, if◌then◌else◌, ◌==◌, ok, throw,
  Exception, Outcome-cases, done, some,
}
use trader_cpp.External.BtreeMap.{BtreeMap, Level, find, entries-ext, IsAsymmetric}
use trader_cpp.External.Float.{Float}
use trader_cpp.External.Fix.{MdEntry, wellformed, action_change}
use trader_cpp.Binance.Symbol.{SymbolEnum}
use trader_cpp.Core.OrderBook.{price_ticks, size_ticks, handle_price_level_update}

module _ {before : ℕ → ℕ → Bool} {M : Type 0} (m : BtreeMap before M)
    (asym : IsAsymmetric before) where
  entries-assign-empty : (px sz : ℕ) → m.entries (m.assign px sz m.empty) ≡ (px, sz) ∷ []
  entries-assign-empty px sz =
      entries-ext before asym (m.entries (m.assign px sz m.empty)) ((px, sz) ∷ [])
        (m.entries-IsSorted (m.assign px sz m.empty)) (tt, tt)
        (λ q.
          m.find-assign px sz q m.empty
          ∙ ap (λ (l : List Level). if px == q then some sz else find q l) m.entries-empty)

  module _ {D : Type 0} ⦃float : Float D⦄ where
    -- A change with a readable price, on a side that is to be cleared first: whatever levels there
    -- were, the new one is the only one left; or, if the size cannot be read, none is left, and the
    -- call throws.
    pub change_clears :
        (symbol : SymbolEnum) (group : MdEntry D) (px : ℕ) (levels : M)
        → price_ticks symbol group.px ≡ ok px
        → let r = handle_price_level_update m symbol (wellformed action_change) group true levels in
          ((sz : ℕ) × (size_ticks symbol group.size ≡ ok sz)
            × (m.entries r.0 ≡ (px, sz) ∷ [])
            × (r.1 ≡ done))
          ⊎ ((e : Exception) × (size_ticks symbol group.size ≡ throw e)
              × (m.entries r.0 ≡ [])
              × (r.1 ≡ throw e))
    unfolding handle_price_level_update
    change_clears symbol group px levels priced =
        elim (Outcome-cases (size_ticks symbol group.size)) [
          | inl (sz, e) ↦
              inl (sz, e, rw (priced, e) (entries-assign-empty px sz), rw (priced, e) refl)
          | inr (x, e) ↦ inr (x, e, rw (priced, e) m.entries-empty, rw (priced, e) refl)
        ]
