-- ===== src/RbTree/Insert/Placed.antt =====
-- rb_tree_find_or_insert: every run ends, with the candidate in its place or with a node of an equal
-- key.
use trading_base.Base.{
  ℕ, true, false, ◌==◌, done, ◌>>=◌, Ends, ends, Ends-bind, Ends-if, ◌≡◌, ◌≢◌, ◌<◌, refl, sym, ◌∙◌,
  ap, inl, inr, List, [], ◌∷◌, ◌++◌, arith, length, Bool-cases,
}
use trading_base.Base.Int.{is_zero}
use trading_base.ResultCode.{AResult, a_ok}
use trading_base.RbTree.{Ptr, null, black, red, Tree, insert_rebalance}
use trading_base.RbTree.Shape.{
  Shape, leaf, node, Frame, left_of, right_of, Context, top, above, Spells, occurs, occurs_in,
}
use trading_base.RbTree.Occurs.{top-null}
use trading_base.RbTree.Writes.{
  put_key, put_left, put_right, put_parent, put_key-root, set_key-done, set_parent-done,
  set_left-done, set_right-done,
}
use trading_base.RbTree.Balance.{inorder, plug, occurs-plug}
use trading_base.RbTree.Focus.{put_color, set_color-done}
use trading_base.RbTree.Rebalance.{insert_rebalance-Rebuilt}
use trading_base.RbTree.Sorted.{
  Compare, All, All-map, IsOrder, IsSorted, IsSorted-same, before, after,
}
use trading_base.RbTree.Valid.{IsRbTree, length-inorder, Spells-same}
use trading_base.RbTree.Insert.{
  rb_tree_find_or_insert, place_given, settle_candidate, insert_first, probe_loop, Arrival, arrived,
}
use trading_base.RbTree.Insert.Down.{Focused, is_rightmost}
use trading_base.RbTree.Insert.Whole.{
  keyed, prepared, start, ready, ready-Spells, parted, depth_bound, grown, absent,
}
use trading_base.RbTree.Insert.Link.{linked-kept}
use trading_base.RbTree.Insert.Probe.{Arrived, on_node, on_leaf, probe_loop-Arrived}

-- The candidate `x` is in its place, or a node of the tree has an equal key; `*value` is that node.
pub data Placed (compare : Compare) (t : Tree) (xs : List Ptr) (key x : Ptr)
    : AResult × Ptr × Tree → Type 0 where
  placed :
      {u : Tree} (ys zs : List Ptr)
      → xs ≡ ys ++ zs
      → IsRbTree compare u (ys ++ x ∷ zs)
      → ((a : Ptr) → u.key a ≡ keyed t x key a)
      → Placed compare t xs key x (a_ok, x, u)
  existing :
      {u : Tree} (s : Shape) (a : Ptr)
      → inorder s ≡ xs
      → 0 < occurs a s
      → is_zero (compare key (t.key a)) ≡ true
      → IsRbTree compare u xs
      → ((b : Ptr) → u.key b ≡ keyed t x key b)
      → Placed compare t xs key x (a_ok, a, u)

module _ (compare : Compare) (order : IsOrder compare) (t : Tree) (xs : List Ptr) (key x : Ptr)
    (h : IsRbTree compare t xs) (nx : x ≢ null) (new : All (λ a. a ≢ x) xs) (hl : t.left x ≡ null)
    (hr : t.right x ≡ null) (hp : t.parent x ≡ null) where
  abbrev begun : Tree
  begun = start compare order t xs key x h nx new hl hr hp

  abbrev held : Tree
  held = put_key t x key

  held-key : (a : Ptr) → held.key a ≡ keyed t x key a
  unfolding put_key
  held-key a = refl

  held-kept : (held.rightmost ≡ t.rightmost) × (held.root ≡ t.root)
  unfolding put_key
  held-kept = (refl, refl)

  held-Spells : Spells held h.shape []
  unfolding put_key
  held-Spells =
      Spells-same held refl
        (λ a o. record { left = refl; right = refl; parent = refl; color = refl }) h.spells

  held-IsSorted : IsSorted compare held.key xs
  unfolding put_key
  held-IsSorted =
      IsSorted-same compare t.key held.key xs
        (All-map (λ a. a ≢ x) (λ a. held.key a ≡ t.key a) xs (λ a ne. ground arith) new) h.sorted

  held-IsRbTree : IsRbTree compare held xs
  held-IsRbTree = record {
    shape = h.shape;
    height = h.height;
    spells = held-Spells;
    black_root = h.black_root;
    balanced = h.balanced;
    order = h.order;
    sorted = held-IsSorted;
    rightmost = rw (held-kept.0) h.rightmost;
  }

  held-Focused : Focused compare order held x h.shape [] h.height
  held-Focused = record {
    spells = held-Spells;
    balanced = h.balanced;
    fits = tt;
    colors = inl h.black_root;
    sorted = rw h.order held-IsSorted;
    bounds = record { lower = tt; upper = tt };
  }

  -- The color of the node may change at any time before it is linked.
  repainted :
      (f : Frame) (k : Context) (n : ℕ)
      → plug leaf (f ∷ k) ≡ h.shape
      → Focused compare order held x leaf (f ∷ k) n
      → Focused compare order begun x leaf (f ∷ k) n
  unfolding prepared put_key put_color
  repainted f k n e at =
      let out : occurs_in x (f ∷ k) ≡ 0 = omega (
        arith,
        occurs-plug x leaf (f ∷ k),
        ap (occurs x) e,
        absent compare order t xs key x h nx new hl hr hp,
      ) in
      record {
        spells =
            Spells-same begun refl
              (λ a o. record {
                left = refl;
                right = refl;
                parent = refl;
                color = let other : a ≢ x = λ q. ground arith in ground arith;
              })
              at.spells;
        balanced = at.balanced;
        fits = at.fits;
        colors = at.colors;
        sorted = at.sorted;
        bounds = record { lower = at.bounds.lower; upper = at.bounds.upper };
      }

  rebalanced :
      (fuel : ℕ) (f : Frame) (k : Context) (n : ℕ) (e : plug leaf (f ∷ k) ≡ h.shape)
      (at : Focused compare order begun x leaf (f ∷ k) n)
      → length xs < fuel
      → Ends (Placed compare t xs key x) (
          insert_rebalance fuel (ready compare order t xs key x h nx new hl hr hp f k n e at) x
          >>= λ v. done (a_ok, x, v))
  unfolding prepared put_key put_color
  rebalanced fuel f k n e at enough =
      let kept = linked-kept begun (f ∷ k) x (above (f ∷ k)) (is_rightmost (f ∷ k)) in
      Ends-bind
        (insert_rebalance-Rebuilt fuel (ready compare order t xs key x h nx new hl hr hp f k n e at)
          x leaf leaf f k n (ready-Spells compare order t xs key x h nx new hl hr hp f k n e at)
          (tt, tt, at.balanced, at.balanced) at.fits
          (omega
            (arith, enough, depth_bound compare order t xs key x h nx new hl hr hp f k n e at)))
        λ v g. ends (
          placed (before (f ∷ k)) (after (f ∷ k))
            (parted compare order t xs key x h nx new hl hr hp f k n e at)
            (grown compare order t xs key x h nx new hl hr hp f k n e at v g)
            (λ a. g.became.keys a ∙ kept.0 a))

  settle_candidate-Placed :
      (fuel : ℕ) (a : Arrival)
      → length xs < fuel
      → top h.shape ≢ null
      → Arrived compare order held x h.shape a
      → Ends (Placed compare t xs key x) (settle_candidate fuel held x a)
  unfolding settle_candidate prepared put_key put_left put_right put_parent put_color
  settle_candidate-Placed fuel (arrived _ _ _ _) enough ne
        (on_node a prev dir rightmost na o same) =
      let own : held.key x ≡ key = held-key x ∙ ground arith in
      let other : a ≢ x = λ q. ground (arith, absent compare order t xs key x h nx new hl hr hp) in
      let theirs : held.key a ≡ t.key a = held-key a ∙ ground arith in
      Ends-if (a == null) (λ e. absurd (na (ground arith)))
        (λ _. ends (existing h.shape a h.order o (rw (own, theirs) at same) held-IsRbTree held-key))
  settle_candidate-Placed fuel (arrived _ _ _ _) enough ne (on_leaf [] n e at) =
      absurd (ne (ap top (sym e)))
  settle_candidate-Placed fuel (arrived _ _ _ _) enough ne (on_leaf (left_of p c r ∷ k) n e at) =
      rw
        (
          set_left-done held p x at.spells.context.0,
          set_parent-done (put_left held p x) x p nx,
          set_color-done (put_parent (put_left held p x) x p) x red nx,
        )
        (rebalanced fuel (left_of p c r) k n e (repainted (left_of p c r) k n e at) enough)
  settle_candidate-Placed fuel (arrived _ _ _ _) enough ne (on_leaf (right_of p c l ∷ k) n e at) =
      rw
        (
          set_right-done held p x at.spells.context.0,
          set_parent-done (put_right held p x) x p nx,
          set_color-done (put_parent (put_right held p x) x p) x red nx,
        )
        (rebalanced fuel (right_of p c l) k n e (repainted (right_of p c l) k n e at) enough)

  probed :
      (fuel : ℕ) (q k : Ptr)
      → q ≡ top h.shape
      → k ≡ held.key x
      → length xs < fuel
      → Ends
          (Arrived compare order held x h.shape)
          (probe_loop compare fuel held k q null false true)
  probed fuel q k at own enough =
      rw (at, own)
        (probe_loop-Arrived compare order held x fuel h.shape [] h.height
          (omega (arith, enough, length-inorder h.shape, ap length h.order)) held-Focused)

  first-Placed :
      h.shape ≡ leaf
      → Ends (Placed compare t xs key x) (insert_first held x >>= λ (code, u). done (code, x, u))
  unfolding insert_first put_key put_color
  first-Placed empty = rw (set_color-done (record held { root = x; rightmost = x }) x black nx) (
      ends (
        placed [] [] (sym h.order ∙ ap inorder empty)
          (record {
            shape = node x black leaf leaf;
            height = 1;
            spells = record {
              tree = (nx, hl, hr, hp, ground arith, tt, tt);
              context = refl;
              linear = λ a. ground arith;
            };
            black_root = tt;
            balanced = (0, refl, refl, refl);
            order = refl;
            sorted = (tt, tt);
            rightmost = refl;
          })
          (λ a. refl)))

  place_given-Placed :
      (fuel : ℕ)
      → length xs < fuel
      → Ends (Placed compare t xs key x) (place_given compare fuel t key x)
  unfolding place_given put_key
  place_given-Placed fuel enough =
      let root : (put_key t x key).root ≡ t.root = put_key-root t x key in
      let own : key ≡ held.key x = sym (held-key x ∙ ground arith) in
      rw (set_key-done t x key nx, root)
        (elim (Bool-cases (t.root == null)) [
          | inl test ↦
              let empty : h.shape ≡ leaf =
                top-null t null h.shape h.spells.tree (sym h.spells.context ∙ ground arith) in
              rw test (first-Placed empty)
          | inr test ↦ rw test (
              Ends-bind (probed fuel held.root key (held-kept.1 ∙ h.spells.context) own enough)
                (λ a.
                  settle_candidate-Placed fuel a enough (λ e. ground (arith, h.spells.context))))
        ])

  -- rb_tree_find_or_insert on a red-black tree with the nodes `xs`, in a comparison that is a strict
  -- order, of a candidate that is not in the tree and has null links: with fuel for more rounds than
  -- there are nodes the run ends with A_OK, in one of two ways. Either `*value` is the candidate, and
  -- the memory holds a red-black tree of the same nodes and the candidate between them. Or `*value` is
  -- a node of the tree with an equal key, and the memory holds a red-black tree of the same nodes.
  pub rb_tree_find_or_insert-Placed :
      (fuel : ℕ) (value : Ptr)
      → length xs < fuel
      → Ends (Placed compare t xs key x) (rb_tree_find_or_insert compare fuel t key x value)
  unfolding rb_tree_find_or_insert
  rb_tree_find_or_insert-Placed fuel value enough =
      Ends-if (x == null) (λ e. absurd (nx (ground arith))) (λ _. place_given-Placed fuel enough)
