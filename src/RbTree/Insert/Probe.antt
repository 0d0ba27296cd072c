-- ===== src/RbTree/Insert/Probe.antt =====
-- The loop of rb_tree_find_or_insert goes down to the place of the key.
use trading_base.Base.{
  ℕ, zero, suc, Bool, true, false, ◌==◌, Ends, ends, Ends-if, ◌≡◌, ◌≢◌, ◌<◌, refl, inl, inr, [],
  ◌∷◌, arith,
}
use trading_base.Base.Int.{is_zero, sign-cases, zero-nonneg}
use trading_base.RbTree.{Ptr, null, Tree}
use trading_base.RbTree.Shape.{Shape, leaf, node, left_of, right_of, Context, top, above, occurs}
use trading_base.RbTree.Balance.{plug, occurs-plug}
use trading_base.RbTree.Sorted.{Compare, IsOrder}
use trading_base.RbTree.Valid.{size}
use trading_base.RbTree.Insert.{probe_loop, Arrival, arrived}
use trading_base.RbTree.Insert.Down.{Focused, focus_left, focus_right, is_rightmost}

-- The last step was to the right.
abbrev pub went_right : Context → Bool
went_right [] = false
went_right (left_of p c r ∷ k) = false
went_right (right_of p c l ∷ k) = true

module _ (compare : Compare) (order : IsOrder compare) (t : Tree) (x : Ptr) where
  pub data Arrived (whole : Shape) : Arrival → Type 0 where
    on_node :
        (a prev : Ptr) (dir rightmost : Bool)
        → a ≢ null
        → 0 < occurs a whole
        → is_zero (compare (t.key x) (t.key a)) ≡ true
        → Arrived whole (arrived a prev dir rightmost)
    on_leaf :
        (k : Context) (n : ℕ)
        → plug leaf k ≡ whole
        → Focused compare order t x leaf k n
        → Arrived whole (arrived null (above k) (went_right k) (is_rightmost k))

  pub probe_loop-Arrived :
      (fuel : ℕ) (s : Shape) (k : Context) (n : ℕ)
      → size s < fuel
      → Focused compare order t x s k n
      → Ends
          (Arrived (plug s k))
          (probe_loop compare fuel t (t.key x) (top s) (above k) (went_right k) (is_rightmost k))
  unfolding probe_loop
  probe_loop-Arrived zero s k n enough h = absurd (omega arith)
  probe_loop-Arrived (suc fuel) leaf k n enough h = ends (on_leaf k n refl h)
  probe_loop-Arrived (suc fuel) (node p c l r) k n enough h =
      let (np, hl, hr, hp, hc, tl, tr) = h.spells.tree in
      Ends-if (p == null) (λ e. absurd (np (ground arith)))
        λ _. elim (sign-cases (compare (t.key x) (t.key p))) [
          | inl same ↦
              rw (zero-nonneg _ same, same)
                (ends (
                  on_node p (above k) (went_right k) (is_rightmost k) np
                    (ground (arith, occurs-plug p (node p c l r) k)) same))
          | inr (inl (nz, neg)) ↦
              let (m, down) = focus_left compare order t x p c l r k n h neg in
              rw (neg, hl) (probe_loop-Arrived fuel l (left_of p c r ∷ k) m (omega arith) down)
          | inr (inr (nz, nn, more)) ↦
              let (m, down) = focus_right compare order t x p c l r k n h more in
              rw (nn, nz, hr) (probe_loop-Arrived fuel r (right_of p c l ∷ k) m (omega arith) down)
        ]
