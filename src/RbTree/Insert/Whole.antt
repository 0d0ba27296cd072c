-- ===== src/RbTree/Insert/Whole.antt =====
-- rb_tree_insert as a whole.
use trading_base.Base.{
  ℕ, true, ◌==◌, if◌then◌else◌, ◌≡◌, ◌≢◌, ◌≤◌, ◌<◌, ◌+◌, refl, sym, ◌∙◌, ap, inl, List, [], ◌∷◌,
  ◌++◌, arith, length,
}
use trading_base.Base.Int.{is_zero}
use trading_base.ResultCode.{AResult, a_ok, a_e_busy}
use trading_base.RbTree.{Ptr, null, Color, red, Tree}
use trading_base.RbTree.Shape.{
  Shape, leaf, node, Frame, Context, above, Spells, SameAt, occurs, occurs_in,
}
use trading_base.RbTree.Writes.{put_parent, put_key}
use trading_base.RbTree.Balance.{inorder, plug, occurs-plug}
use trading_base.RbTree.Focus.{put_color}
use trading_base.RbTree.Rebalance.{Rebuilt}
use trading_base.RbTree.Sorted.{
  Compare, All, IsOrder, IsSorted, All-map, All-of, IsSorted-insert, IsSorted-same, before, after,
  inorder-between,
}
use trading_base.RbTree.Valid.{IsRbTree, size, length-inorder, size-plug, occurs-apart, Spells-same}
use trading_base.RbTree.Insert.Down.{Focused, link, is_rightmost}
use trading_base.RbTree.Insert.Link.{
  link-Spells, crowned, crowned-Spells, crowned-rightmost, linked-kept, crowned-IsLast,
}

-- The keys after the key of `x` has been written.
abbrev pub keyed : Tree → Ptr → Ptr → Ptr → Ptr
keyed t x key a = if a == x then key else t.key a

-- The new node `x` is in its place, or a node of the tree has an equal key.
pub data Inserted (compare : Compare) (t : Tree) (xs : List Ptr) (key x : Ptr)
    : AResult × Tree → Type 0 where
  added :
      {u : Tree} (ys zs : List Ptr)
      → xs ≡ ys ++ zs
      → IsRbTree compare u (ys ++ x ∷ zs)
      → ((a : Ptr) → u.key a ≡ keyed t x key a)
      → Inserted compare t xs key x (a_ok, u)
  present :
      {u : Tree} (s : Shape) (a : Ptr)
      → inorder s ≡ xs
      → 0 < occurs a s
      → is_zero (compare key (t.key a)) ≡ true
      → IsRbTree compare u xs
      → ((b : Ptr) → u.key b ≡ keyed t x key b)
      → Inserted compare t xs key x (a_e_busy, u)

-- The node has its key, and its color.
unfoldable pub prepared : Tree → Ptr → Ptr → Color → Tree
unfolding put_key put_color
prepared t x key c = put_color (put_key t x key) x c

module _ (compare : Compare) (order : IsOrder compare) (t : Tree) (xs : List Ptr) (key x : Ptr)
    (h : IsRbTree compare t xs) (nx : x ≢ null) (new : All (λ a. a ≢ x) xs) (hl : t.left x ≡ null)
    (hr : t.right x ≡ null) (hp : t.parent x ≡ null) where
  abbrev pub start : Tree
  start = prepared t x key red

  new_keys : All (λ a. start.key a ≡ t.key a) xs
  unfolding prepared put_key put_color
  new_keys = All-map (λ a. a ≢ x) (λ a. start.key a ≡ t.key a) xs (λ a ne. ground arith) new

  start-SameAt : (a : Ptr) → a ≢ x → SameAt t start a
  unfolding prepared put_key put_color
  start-SameAt a ne = record { left = refl; right = refl; parent = refl; color = ground arith }

  pub absent : occurs x h.shape ≡ 0
  absent = occurs-apart x h.shape (rw h.order new)

  pub start-Spells : Spells start h.shape []
  unfolding prepared put_key put_color
  start-Spells =
      Spells-same start refl (λ a o. start-SameAt a (λ e. ground (arith, absent))) h.spells

  pub start-IsSorted : IsSorted compare start.key xs
  start-IsSorted = IsSorted-same compare t.key start.key xs new_keys h.sorted

  pub focused : Focused compare order start x h.shape [] h.height
  focused = record {
    spells = start-Spells;
    balanced = h.balanced;
    fits = tt;
    colors = inl h.black_root;
    sorted = rw h.order start-IsSorted;
    bounds = record { lower = tt; upper = tt };
  }

  module _ (f : Frame) (k : Context) (n : ℕ) (e : plug leaf (f ∷ k) ≡ h.shape)
      (at : Focused compare order start x leaf (f ∷ k) n) where
    abbrev pub hung : Tree
    hung = put_parent (link start (f ∷ k) x) x (above (f ∷ k))

    abbrev pub ready : Tree
    ready = crowned hung x (is_rightmost (f ∷ k))

    outside : occurs_in x (f ∷ k) ≡ 0
    outside = omega (arith, occurs-plug x leaf (f ∷ k), ap (occurs x) e, absent)

    pub ready-Spells : Spells ready (node x red leaf leaf) (f ∷ k)
    unfolding prepared put_key put_color
    ready-Spells =
        crowned-Spells hung x (is_rightmost (f ∷ k)) (node x red leaf leaf) (f ∷ k)
          (link-Spells start x f k at.spells nx outside hl hr (ground arith))

    pub parted : xs ≡ before (f ∷ k) ++ after (f ∷ k)
    parted = sym h.order ∙ ap inorder (sym e) ∙ inorder-between leaf (f ∷ k)

    pub depth_bound : length k + 1 ≤ length xs
    depth_bound =
        omega (arith, size-plug leaf (f ∷ k), ap size e, length-inorder h.shape, ap length h.order)

    pub grown :
        (v : Tree)
        → Rebuilt ready (inorder (plug (node x red leaf leaf) (f ∷ k))) v
        → IsRbTree compare v (before (f ∷ k) ++ x ∷ after (f ∷ k))
    unfolding prepared put_key put_color
    grown v g =
        let kept = linked-kept start (f ∷ k) x (above (f ∷ k)) (is_rightmost (f ∷ k)) in
        record {
          shape = g.shape;
          height = g.height;
          spells = g.became.spells;
          black_root = g.black_root;
          balanced = g.balanced;
          order = g.order ∙ inorder-between (node x red leaf leaf) (f ∷ k);
          sorted =
              IsSorted-same compare start.key v.key (before (f ∷ k) ++ x ∷ after (f ∷ k))
                (All-of (λ a. v.key a ≡ start.key a) _ (λ a. g.became.keys a ∙ kept.0 a))
                (IsSorted-insert compare start.key (before (f ∷ k)) x (after (f ∷ k))
                  (rw parted at start-IsSorted) at.bounds.lower at.bounds.upper);
          rightmost =
              rw (g.became.rightmost, crowned-rightmost hung x (is_rightmost (f ∷ k)), kept.1)
                (crowned-IsLast (f ∷ k) t.rightmost x (rw parted at h.rightmost));
        }
