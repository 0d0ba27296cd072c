-- ===== src/RbTree/Neighbours/Traverse.antt =====
-- rb_tree_traverse calls the callback on the nodes in pre-order, until it says to stop.
use trading_base.Base.{
  ℕ, zero, suc, ◌==◌, Run, done, ◌≡◌, ◌<◌, refl, ◌∙◌, ap, false, List, [], ◌∷◌, ◌++◌, arith,
}
use trading_base.RbTree.{Ptr, null, Tree}
use trading_base.RbTree.Shape.{Shape, leaf, node, top, IsTree, Spells}
use trading_base.RbTree.Valid.{size}
use trading_base.RbTree.Neighbours.{
  Control, rb_stop, rb_continue, Callback, go_on, traverse_node, rb_tree_traverse,
}

abbrev pub preorder : Shape → List Ptr
preorder leaf = []
preorder (node p c l r) = p ∷ (preorder l ++ preorder r)

-- What a visit does after another one, where that did not stop.
abbrev pub resume : {S : Type 0} → Control × S → (S → Control × S) → Control × S
resume (rb_stop, s) next = (rb_stop, s)
resume (rb_continue, s) next = next s

-- The callback on the nodes of a list, one after the other.
abbrev pub visit : {S : Type 0} → Callback S → List Ptr → S → Control × S
visit cb [] s = (rb_continue, s)
visit cb (x ∷ xs) s = resume (cb x s) (visit cb xs)

module _ {S : Type 0} (t : Tree) (cb : Callback S) where
  resume-resume :
      (a : Control × S) (f g : S → Control × S)
      → resume (resume a f) g ≡ resume a (λ s. resume (f s) g)
  resume-resume (rb_stop, s) f g = refl
  resume-resume (rb_continue, s) f g = refl

  resume_same :
      (a : Control × S) (f g : S → Control × S) → ((s : S) → f s ≡ g s) → resume a f ≡ resume a g
  resume_same (rb_stop, s) f g e = refl
  resume_same (rb_continue, s) f g e = e s

  visit-append :
      (xs ys : List Ptr) (s : S) → resume (visit cb xs s) (visit cb ys) ≡ visit cb (xs ++ ys) s
  visit-append [] ys s = refl
  visit-append (x ∷ xs) ys s =
      resume-resume (cb x s) (visit cb xs) (visit cb ys)
      ∙ resume_same (cb x s) _ (visit cb (xs ++ ys)) (visit-append xs ys)

  go_on-resume :
      (a : Control × S) (run : S → Run (Control × S)) (f : S → Control × S)
      → ((s : S) → run s ≡ done (f s))
      → go_on (done a) run ≡ done (resume a f)
  go_on-resume (rb_stop, s) run f e = refl
  go_on-resume (rb_continue, s) run f e = e s

  traverse_node-visit :
      (fuel : ℕ) (up : Ptr) (sh : Shape) (s : S)
      → size sh < fuel
      → IsTree t up sh
      → traverse_node fuel t cb (top sh) s ≡ done (visit cb (preorder sh) s)
  unfolding traverse_node
  traverse_node-visit zero up sh s enough h = absurd (omega arith)
  traverse_node-visit (suc fuel) up leaf s enough h = refl
  traverse_node-visit (suc fuel) up (node p c l r) s enough h =
      let given : (p == null) ≡ false = ground (arith, h.0) in
      let lefts = λ (s : S).
        ap (λ q. traverse_node fuel t cb q s) h.1
        ∙ traverse_node-visit fuel p l s (omega arith) h.5 in
      let rights = λ (s : S).
        ap (λ q. traverse_node fuel t cb q s) h.2
        ∙ traverse_node-visit fuel p r s (omega arith) h.6 in
      rw given (
        go_on-resume (cb p s)
          (λ s'.
            go_on (traverse_node fuel t cb (t.left p) s') (traverse_node fuel t cb (t.right p)))
          (visit cb (preorder l ++ preorder r))
          (λ s'.
            ap (λ w. go_on w (traverse_node fuel t cb (t.right p))) (lefts s')
            ∙ go_on-resume (visit cb (preorder l) s') (traverse_node fuel t cb (t.right p))
                (visit cb (preorder r)) rights
            ∙ ap done (visit-append (preorder l) (preorder r) s')))

  traverse_from :
      (fuel : ℕ) (q : Ptr) (sh : Shape) (s : S)
      → q ≡ top sh
      → size sh < fuel
      → IsTree t null sh
      → traverse_node fuel t cb q s ≡ done (visit cb (preorder sh) s)
  traverse_from fuel q sh s at enough h = rw at (traverse_node-visit fuel null sh s enough h)

  -- rb_tree_traverse of a tree in memory, with fuel for one more level than there are nodes and a
  -- callback that leaves the tree alone: the run ends, and its result and the state of the callback
  -- are those of the callback on the nodes in pre-order, up to the first one where it does not say
  -- RB_CONTINUE.
  pub rb_tree_traverse-visit :
      (fuel : ℕ) (sh : Shape) (s : S)
      → size sh < fuel
      → Spells t sh []
      → rb_tree_traverse fuel t cb s ≡ done (visit cb (preorder sh) s)
  unfolding rb_tree_traverse
  rb_tree_traverse-visit fuel sh s enough h = traverse_from fuel t.root sh s h.context enough h.tree
