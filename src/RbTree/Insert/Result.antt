-- ===== src/RbTree/Insert/Result.antt =====
-- rb_tree_insert: every run ends, with the new node in its place or with a node of an equal key.
use trading_base.Base.{
  ℕ, true, ◌==◌, Ends, ends, Ends-bind, Ends-if, ◌≡◌, ◌≢◌, ◌<◌, refl, sym, ◌∙◌, ap, inl, inr, List,
  [], ◌∷◌, arith, length, Bool-cases,
}
use trading_base.RbTree.{Ptr, null, black, red, Tree}
use trading_base.RbTree.Shape.{leaf, node, top, above}
use trading_base.RbTree.Occurs.{top-null}
use trading_base.RbTree.Writes.{put_key, put_key-root, set_key-done, set_parent-done}
use trading_base.RbTree.Balance.{inorder}
use trading_base.RbTree.Focus.{put_color, set_color-done}
use trading_base.RbTree.Rebalance.{insert_rebalance-Rebuilt}
use trading_base.RbTree.Sorted.{Compare, All, IsOrder, before, after}
use trading_base.RbTree.Valid.{IsRbTree, length-inorder}
use trading_base.RbTree.Insert.{
  insert_loop, rb_tree_insert, insert_given, insert_first, finish_insert, Descent, taken, linked,
}
use trading_base.RbTree.Insert.Down.{
  Descended, at_node, at_leaf, insert_loop-Descended, link, is_rightmost,
}
use trading_base.RbTree.Insert.Whole.{
  keyed, Inserted, added, present, prepared, start, start-Spells, start-IsSorted, focused, ready,
  ready-Spells, parted, depth_bound, grown, absent,
}
use trading_base.RbTree.Insert.Link.{linked-kept}

module _ (compare : Compare) (order : IsOrder compare) (t : Tree) (xs : List Ptr) (key x : Ptr)
    (h : IsRbTree compare t xs) (nx : x ≢ null) (new : All (λ a. a ≢ x) xs) (hl : t.left x ≡ null)
    (hr : t.right x ≡ null) (hp : t.parent x ≡ null) where
  abbrev begun : Tree
  begun = start compare order t xs key x h nx new hl hr hp

  begun-key : (a : Ptr) → begun.key a ≡ keyed t x key a
  unfolding prepared put_key put_color
  begun-key a = refl

  begun-kept : (begun.rightmost ≡ t.rightmost) × (begun.root ≡ t.root)
  unfolding prepared put_key put_color
  begun-kept = (refl, refl)

  finish_insert-Inserted :
      (fuel : ℕ) (d : Descent)
      → length xs < fuel
      → Descended compare order begun x h.shape d
      → Ends (Inserted compare t xs key x) (finish_insert fuel begun x d)
  unfolding finish_insert
  finish_insert-Inserted fuel taken enough (at_node a o same) =
      let other : a ≢ x = λ e. ground (arith, absent compare order t xs key x h nx new hl hr hp) in
      let own : begun.key x ≡ key = begun-key x ∙ ground arith in
      let theirs : begun.key a ≡ t.key a = begun-key a ∙ ground arith in
      ends (
        present h.shape a h.order o (rw (own, theirs) at same)
          (record {
            shape = h.shape;
            height = h.height;
            spells = start-Spells compare order t xs key x h nx new hl hr hp;
            black_root = h.black_root;
            balanced = h.balanced;
            order = h.order;
            sorted = start-IsSorted compare order t xs key x h nx new hl hr hp;
            rightmost = rw (begun-kept.0) h.rightmost;
          })
          begun-key)
  finish_insert-Inserted fuel (linked _ _ _) enough (at_leaf f k n e at) =
      let kept = linked-kept begun (f ∷ k) x (above (f ∷ k)) (is_rightmost (f ∷ k)) in
      rw (set_parent-done (link begun (f ∷ k) x) x (above (f ∷ k)) nx) (
        Ends-bind
          (insert_rebalance-Rebuilt fuel
            (ready compare order t xs key x h nx new hl hr hp f k n e at) x leaf leaf f k n
            (ready-Spells compare order t xs key x h nx new hl hr hp f k n e at)
            (tt, tt, at.balanced, at.balanced) at.fits
            (omega (arith, depth_bound compare order t xs key x h nx new hl hr hp f k n e at)))
          λ v g. ends (
            added (before (f ∷ k)) (after (f ∷ k))
              (parted compare order t xs key x h nx new hl hr hp f k n e at)
              (grown compare order t xs key x h nx new hl hr hp f k n e at v g)
              (λ a. g.became.keys a ∙ kept.0 a ∙ begun-key a)))

  insert_first-Inserted :
      xs ≡ [] → Ends (Inserted compare t xs key x) (insert_first (put_key t x key) x)
  unfolding insert_first put_key put_color
  insert_first-Inserted none_ =
      rw (set_color-done (record (put_key t x key) { root = x; rightmost = x }) x black nx) (
        ends (
          added [] [] none_
            (record {
              shape = node x black leaf leaf;
              height = 1;
              spells = record {
                tree = (nx, hl, hr, hp, ground arith, tt, tt);
                context = refl;
                linear = λ a. ground arith;
              };
              black_root = tt;
              balanced = (0, refl, refl, refl);
              order = refl;
              sorted = (tt, tt);
              rightmost = refl;
            })
            (λ a. refl)))

  loop-Descended :
      (fuel : ℕ) (q : Ptr)
      → q ≡ top h.shape
      → length xs < fuel
      → t.root ≢ null
      → Ends (Descended compare order begun x h.shape) (insert_loop compare fuel begun x q true)
  loop-Descended fuel q at enough ne = rw at (
      insert_loop-Descended compare order begun x fuel h.shape [] h.height
        (λ e. ne (h.spells.context ∙ e)) (omega (arith, length-inorder h.shape, ap length h.order))
        (focused compare order t xs key x h nx new hl hr hp))

  insert_given-Inserted :
      (fuel : ℕ)
      → length xs < fuel
      → Ends (Inserted compare t xs key x) (insert_given compare fuel t key x)
  unfolding insert_given prepared
  insert_given-Inserted fuel enough =
      let root : (put_key t x key).root ≡ t.root = put_key-root t x key in
      rw (set_key-done t x key nx, root)
        (elim (Bool-cases (t.root == null)) [
          | inl test ↦
              let empty : h.shape ≡ leaf =
                top-null t null h.shape h.spells.tree (sym h.spells.context ∙ ground arith) in
              rw test (insert_first-Inserted (sym h.order ∙ ap inorder empty))
          | inr test ↦
              rw (test, set_color-done (put_key t x key) x red nx)
                (Ends-bind
                  (loop-Descended fuel begun.root (begun-kept.1 ∙ h.spells.context) enough
                    (λ e. ground arith))
                  (λ d. finish_insert-Inserted fuel d enough))
        ])

  -- rb_tree_insert on a red-black tree with the nodes `xs`, in a comparison that is a strict order,
  -- of a node that is not in the tree and has null links: with fuel for more rounds than there are
  -- nodes the run ends, and it does one of two things. It returns A_OK, and the memory holds a
  -- red-black tree (linked, balanced, with a black root, sorted by the keys, with the right
  -- `rightmost`) of the same nodes and the new one between them. Or it returns A_E_BUSY, a node of the
  -- tree has an equal key, and the memory holds a red-black tree of the same nodes. The keys of all
  -- other nodes stay.
  pub rb_tree_insert-Inserted :
      (fuel : ℕ)
      → length xs < fuel
      → Ends (Inserted compare t xs key x) (rb_tree_insert compare fuel t key x)
  unfolding rb_tree_insert
  rb_tree_insert-Inserted fuel enough =
      Ends-if (x == null) (λ e. absurd (nx (ground arith))) (λ _. insert_given-Inserted fuel enough)
