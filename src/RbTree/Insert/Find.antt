-- ===== src/RbTree/Insert/Find.antt =====
-- rb_tree_find finds the node with the key, if there is one.
use trading_base.Base.{
  ℕ, zero, suc, true, false, ◌==◌, if◌then◌else◌, done, ◌>>=◌, Ends, ends, Ends-bind, Ends-mono,
  Ends-if, ◌≡◌, ◌≢◌, ◌<◌, refl, sym, ◌∙◌, ap, inl, inr, List, ◌∷◌, arith, length,
}
use trading_base.Base.Int.{
  is_neg, is_pos, is_zero, sign-cases, neg-nonzero, pos-nonzero, zero-nonneg,
}
use trading_base.ResultCode.{AResult, a_ok, a_e_notfound}
use trading_base.RbTree.{Ptr, null, Color, Tree}
use trading_base.RbTree.Shape.{Shape, leaf, node, top, IsTree, occurs}
use trading_base.RbTree.Balance.{inorder}
use trading_base.RbTree.Occurs.{top-null}
use trading_base.RbTree.Sorted.{
  Compare, All, IsOrder, Less, IsSorted, All-map, All-append, IsSorted-parts,
}
use trading_base.RbTree.Valid.{IsRbTree, size, length-inorder}
use trading_base.RbTree.Insert.{find_loop, rb_tree_find}

module _ (compare : Compare) (order : IsOrder compare) (t : Tree) (key : Ptr) where
  abbrev Differs : Ptr → Type 0
  Differs a = is_zero (compare key (t.key a)) ≡ false

  -- A node with the key, or NULL where no node has it.
  data Sought (s : Shape) : Ptr → Type 0 where
    hit :
        (a : Ptr) → a ≢ null → 0 < occurs a s → is_zero (compare key (t.key a)) ≡ true → Sought s a
    miss : All Differs (inorder s) → Sought s null

  wider_left :
      (p : Ptr) (c : Color) (l r : Shape)
      → IsSorted compare t.key (inorder (node p c l r))
      → is_neg (compare key (t.key p)) ≡ true
      → (v : Ptr) → Sought l v
      → Sought (node p c l r) v
  wider_left p c l r sorted less v (hit a ne o same) = hit a ne (omega arith) same
  wider_left p c l r sorted less v (miss none_) =
      let (sl, lp, pr, sr) = IsSorted-parts compare t.key (inorder l) p (inorder r) sorted in
      miss (
        All-append Differs (inorder l) (p ∷ inorder r) none_ (
          neg-nonzero _ less,
          All-map (Less compare t.key p) Differs (inorder r)
              (λ b q. neg-nonzero _ (order.trans key (t.key p) (t.key b) less q)) pr,
        ))

  wider_right :
      (p : Ptr) (c : Color) (l r : Shape)
      → IsSorted compare t.key (inorder (node p c l r))
      → is_pos (compare key (t.key p)) ≡ true
      → (v : Ptr) → Sought r v
      → Sought (node p c l r) v
  wider_right p c l r sorted more v (hit a ne o same) = hit a ne (omega arith) same
  wider_right p c l r sorted more v (miss none_) =
      let (sl, lp, pr, sr) = IsSorted-parts compare t.key (inorder l) p (inorder r) sorted in
      let less = order.flip key (t.key p) more in
      miss (
        All-append Differs (inorder l) (p ∷ inorder r)
          (All-map (λ a. Less compare t.key a p) Differs (inorder l)
            (λ a q.
              pos-nonzero _ (order.back (t.key a) key (order.trans (t.key a) (t.key p) key q less)))
            lp)
          (pos-nonzero _ more, none_))

  find_loop-Sought :
      (fuel : ℕ) (s : Shape) (up : Ptr)
      → size s < fuel
      → IsTree t up s
      → IsSorted compare t.key (inorder s)
      → Ends (Sought s) (find_loop compare fuel t key (top s))
  unfolding find_loop
  find_loop-Sought zero s up enough h sorted = absurd (omega arith)
  find_loop-Sought (suc fuel) leaf up enough h sorted = ends (miss tt)
  find_loop-Sought (suc fuel) (node p c l r) up enough h sorted =
      let (np, hl, hr, hp, hc, tl, tr) = h in
      let (sl, lp, pr, sr) = IsSorted-parts compare t.key (inorder l) p (inorder r) sorted in
      Ends-if (p == null) (λ e. absurd (np (ground arith)))
        λ _. elim (sign-cases (compare key (t.key p))) [
          | inl same ↦ rw (zero-nonneg _ same, same) (ends (hit p np (ground arith) same))
          | inr (inl (nz, neg)) ↦
              rw (neg, hl)
                (Ends-mono (find_loop-Sought fuel l p (omega arith) tl sl)
                  (wider_left p c l r sorted neg))
          | inr (inr (nz, nn, more)) ↦
              rw (nn, nz, hr)
                (Ends-mono (find_loop-Sought fuel r p (omega arith) tr sr)
                  (wider_right p c l r sorted more))
        ]

  -- What rb_tree_find gives out: A_OK and a node of the tree with the key, or A_E_NOTFOUND and NULL.
  pub data Found (xs : List Ptr) : AResult × Ptr → Type 0 where
    found :
        (s : Shape) (a : Ptr)
        → inorder s ≡ xs
        → 0 < occurs a s
        → is_zero (compare key (t.key a)) ≡ true
        → Found xs (a_ok, a)
    missing : All Differs xs → Found xs (a_e_notfound, null)

  answer :
      (s : Shape) (v : Ptr)
      → Sought s v
      → Ends (Found (inorder s)) (if v == null then done (a_e_notfound, null) else done (a_ok, v))
  answer s v (hit a ne o same) =
      Ends-if (a == null) (λ e. absurd (ne (ground arith))) (λ _. ends (found s a refl o same))
  answer s v (miss none_) = ends (missing none_)

  search_from :
      (fuel : ℕ) (s : Shape) (q : Ptr)
      → q ≡ top s
      → size s < fuel
      → IsTree t null s
      → IsSorted compare t.key (inorder s)
      → Ends (Found (inorder s)) (
          find_loop compare fuel t key q >>= λ nd.
          if nd == null then done (a_e_notfound, null) else done (a_ok, nd))
  search_from fuel s q at enough h sorted =
      rw at (Ends-bind (find_loop-Sought fuel s null enough h sorted) (answer s))

  -- rb_tree_find on a red-black tree with the nodes `xs`, in a comparison that is a strict order: with
  -- a key that is not NULL and fuel for more rounds than there are nodes the run ends, with A_OK and a node of the tree whose key
  -- compares equal, or with A_E_NOTFOUND and NULL where no key of the tree compares equal.
  pub rb_tree_find-Found :
      (fuel : ℕ) (xs : List Ptr) (value : Ptr)
      → key ≢ null
      → IsRbTree compare t xs
      → length xs < fuel
      → Ends (Found xs) (rb_tree_find compare fuel t key value)
  unfolding rb_tree_find
  rb_tree_find-Found fuel xs value nk h enough =
      let search =
        search_from fuel h.shape t.root h.spells.context
          (omega (arith, enough, length-inorder h.shape, ap length h.order)) h.spells.tree
          (rw h.order h.sorted) in
      Ends-if (key == null) (λ e. absurd (nk (ground arith)))
        λ _.
          Ends-if (t.root == null)
            (λ e.
              let empty : h.shape ≡ leaf =
                top-null t null h.shape h.spells.tree (sym h.spells.context ∙ ground arith) in
              ends (missing (rw (sym h.order ∙ ap inorder empty) tt)))
            (λ _. rw h.order at search)
