-- ===== src/RbTree/Remove/Settle.antt =====
-- __helper_rb_tree_delete_rebalance: the loop ends, at a red-black tree of the same nodes in the same
-- order.
use trading_base.Base.{
  ℕ, zero, suc, ◌<◌, ◌+◌, ◌⊎◌, inl, inr, List, length, ◌≡◌, ◌≢◌, refl, sym, ◌∙◌, [], ◌∷◌, ◌==◌,
  arith, true, false, Bool, Ends, ends, Ends-bind, Ends-mono, Ends-if,
}
use trading_base.RbTree.{Ptr, null, Color, black, red, Tree}
use trading_base.RbTree.Shape.{
  Shape, leaf, node, Frame, left_of, right_of, Context, top, above, IsContext, Spells, occurs,
}
use trading_base.RbTree.Balance.{
  IsBlack, IsRoot, IsBalanced, Fits, plug, inorder, around, inorder-plug, plug-IsBalanced,
}
use trading_base.RbTree.Steps.{is_red_top}
use trading_base.RbTree.Rebalance.{Rebuilt, root-occurs, apart, plug-IsBlack}
use trading_base.RbTree.Focus.{up_left, up_right, plugged, Became, Became-then, set_color-Became}
use trading_base.RbTree.Remove.{blacken, delete_step, delete_loop, delete_rebalance}
use trading_base.RbTree.Remove.Cases.{went_left}
use trading_base.RbTree.Remove.Lean.{IsLoose, Lacking, Mended, Round, lacking, mended, black_at-top}
use trading_base.RbTree.Remove.Loop.{step_left, step_right, Round-then}

-- Where the loop stops.
data Exit (t : Tree) (xs : List Ptr) : Tree × Ptr → Type 0 where
  at_focus :
      {u : Tree} {x : Ptr} (s : Shape) (k : Context) (n : ℕ)
      → Became t s k u
      → x ≡ top s
      → IsLoose n s
      → Fits (suc n) k
      → around k (inorder s) ≡ xs
      → IsRoot k ⊎ (is_red_top s ≡ true)
      → Exit t xs (u, x)
  at_top : {u : Tree} {x : Ptr} → Mended t xs u x → Exit t xs (u, x)

root-ne-null :
    (t : Tree) (q : Ptr) (f : Frame) (k : Context) → IsContext t q (f ∷ k) → t.root ≢ null
root-ne-null t q (left_of p c r) [] h e = h.0 (sym h.6 ∙ e)
root-ne-null t q (right_of p c r) [] h e = h.0 (sym h.6 ∙ e)
root-ne-null t q (left_of p c r) (f ∷ k) h e = root-ne-null t p f k h.6 e
root-ne-null t q (right_of p c r) (f ∷ k) h e = root-ne-null t p f k h.6 e

-- Below the root, the focus is not the root.
not_root :
    (t : Tree) (s : Shape) (f : Frame) (k : Context)
    → Spells t s (f ∷ k)
    → (top s == t.root) ≡ false
not_root t leaf f k h = let ne = root-ne-null t null f k h.context in ground arith
not_root t (node p c l r) f k h =
    let ne =
      apart t.root p (occurs p l + occurs p r) (f ∷ k) (omega (arith, h.linear p))
        (root-occurs t p f k h.context) in
    ground arith

shade : (s : Shape) → (is_red_top s ≡ true) ⊎ ((is_red_top s ≡ false) × IsBlack s)
shade leaf = inr (refl, tt)
shade (node p black l r) = inr (refl, tt)
shade (node p red l r) = inl refl

tight : (n : ℕ) (s : Shape) → IsBlack s → IsLoose n s → IsBalanced n s
tight n leaf b h = h
tight n (node p black l r) b h = h
tight n (node p red l r) b h = absurd b

-- A round at a black focus below the root.
round :
    (t : Tree) (xs : List Ptr) (s : Shape) (f : Frame) (k : Context) (n d : ℕ)
    → Spells t s (f ∷ k)
    → IsBlack s
    → IsBalanced n s
    → Fits (suc n) (f ∷ k)
    → around (f ∷ k) (inorder s) ≡ xs
    → length k < d
    → Ends (Round t xs d) (delete_step t (above (f ∷ k)) (went_left (f ∷ k)))
round t xs s (left_of p c o) k n d h bs hs fits order deep =
    step_left t xs p s k n d bs hs deep c o (up_left h) fits order
round t xs s (right_of p c o) k n d h bs hs fits order deep =
    step_right t xs p s k n d bs hs deep c o (up_right h) fits order

loop_at :
    (d : ℕ) (t u : Tree) (xs : List Ptr) (s : Shape) (k : Context) (n : ℕ)
    → Became t s k u
    → IsLoose n s
    → Fits (suc n) k
    → around k (inorder s) ≡ xs
    → (length k < suc d) ⊎ ((is_red_top s ≡ true) × (0 < suc d))
    → ((r : Tree × Ptr × Ptr × Bool)
        → Round t xs d r
        → 0 < d
        → Ends (Exit t xs) (delete_loop d r.0 r.1 r.2 r.3))
    → Ends (Exit t xs) (delete_loop (suc d) u (top s) (above k) (went_left k))
unfolding delete_loop
loop_at d t u xs s [] n b loose fits order deep next =
    let here : (top s == u.root) ≡ true = ground (arith, b.spells.context) in
    rw here (ends (at_focus s [] n b refl loose fits order (inl tt)))
loop_at d t u xs s (f ∷ k) n b loose fits order deep next = elim (shade s) [
  | inl bright ↦
      rw (not_root u s f k b.spells, black_at-top u (above (f ∷ k)) s b.spells.tree, bright)
        (ends (at_focus s (f ∷ k) n b refl loose fits order (inr bright)))
  | inr (dark, bs) ↦
      let room : length (f ∷ k) < suc d = ground (arith, deep) in
      rw (not_root u s f k b.spells, black_at-top u (above (f ∷ k)) s b.spells.tree, dark)
        (Ends-bind
          (round u xs s f k n d b.spells bs (tight n s bs loose) fits order (omega (arith, room)))
          λ r m. next r (Round-then b m) (omega (arith, room)))
]

stop_at_root :
    (d : ℕ) (t u : Tree) (xs : List Ptr) (x xp : Ptr) (il : Bool)
    → Mended t xs u x
    → 0 < d
    → Ends (Exit t xs) (delete_loop d u x xp il)
unfolding delete_loop
stop_at_root zero t u xs x xp il m room = absurd (omega arith)
stop_at_root (suc d) t u xs x xp il m room =
    let here : (x == u.root) ≡ true = ground (arith, m.at_root) in rw here (ends (at_top m))

resume :
    (d : ℕ) (t : Tree) (xs : List Ptr)
    → ((u : Tree) (x xp : Ptr) (il : Bool)
        → Lacking t xs d (u, x, xp, il)
        → Ends (Exit t xs) (delete_loop d u x xp il))
    → (r : Tree × Ptr × Ptr × Bool) → Round t xs d r
    → 0 < d
    → Ends (Exit t xs) (delete_loop d r.0 r.1 r.2 r.3)
resume d t xs again (u, x, xp, il) (lacking f) room = again u x xp il f
resume d t xs again (u, x, xp, il) (mended m) room = stop_at_root d t u xs x xp il m room

delete_loop-Exit :
    (d : ℕ) (t u : Tree) (xs : List Ptr) (x xp : Ptr) (il : Bool)
    → Lacking t xs d (u, x, xp, il)
    → Ends (Exit t xs) (delete_loop d u x xp il)
delete_loop-Exit zero t u xs x xp il f = absurd (ground (arith, f.depth))
delete_loop-Exit (suc d) t u xs x xp il f =
    rw (f.at.1, f.at.2, f.at.3)
      (loop_at d t u xs f.s f.k f.n f.at.0 f.loose f.fits f.order f.depth
        (resume d t xs (λ u x xp il g. delete_loop-Exit d t u xs x xp il g)))

-- The last write paints the focus, or the root, black.
painted :
    (t u : Tree) (xs : List Ptr) (p : Ptr) (l r : Shape) (k : Context) (n : ℕ)
    → Became t (node p black l r) k u
    → IsBalanced (suc n) (node p black l r)
    → Fits (suc n) k
    → around k (inorder (node p black l r)) ≡ xs
    → Rebuilt t xs u
painted t u xs p l r k n b h fits order =
    let (m, whole) = plug-IsBalanced (suc n) (node p black l r) k h fits (inl tt) in
    record {
      shape = plug (node p black l r) k;
      height = m;
      became = record { spells = plugged u _ k b.spells; keys = b.keys; rightmost = b.rightmost };
      black_root = top_black k fits;
      balanced = whole;
      order = inorder-plug (node p black l r) k ∙ order;
    }
  where
    top_black : (k : Context) → Fits (suc n) k → IsBlack (plug (node p black l r) k)
    top_black [] f = tt
    top_black (g ∷ k) f = plug-IsBlack (node p black l r) g k (suc n) f

blacken-done :
    (t u : Tree) (p : Ptr) (c : Color) (l r : Shape) (k : Context)
    → Became t (node p c l r) k u
    → Ends (Became t (node p black l r) k) (blacken u p)
unfolding blacken
blacken-done t u p c l r k b =
    Ends-if (p == null) (λ e. absurd (b.spells.tree.0 (ground arith)))
      λ _. Ends-mono (set_color-Became u p c black l r k b.spells) (λ v w. Became-then b w)

blacken_focus :
    (t u : Tree) (xs : List Ptr) (s : Shape) (k : Context) (n : ℕ)
    → Became t s k u
    → IsLoose n s
    → Fits (suc n) k
    → around k (inorder s) ≡ xs
    → IsRoot k ⊎ (is_red_top s ≡ true)
    → Ends (Rebuilt t xs) (blacken u (top s))
unfolding blacken
blacken_focus t u xs leaf [] n b h fits order v =
    ends (record {
      shape = leaf;
      height = n;
      became = b;
      black_root = tt;
      balanced = h;
      order = order;
    })
blacken_focus t u xs leaf (f ∷ k) n b h fits order (inl e) = absurd e
blacken_focus t u xs leaf (f ∷ k) n b h fits order (inr e) = absurd (ground (arith, e))
blacken_focus t u xs (node p black l r) [] n b h fits order v =
    Ends-mono (blacken-done t u p black l r [] b) λ w q. record {
      shape = node p black l r;
      height = n;
      became = q;
      black_root = tt;
      balanced = h;
      order = order;
    }
blacken_focus t u xs (node p black l r) (f ∷ k) n b h fits order (inl e) = absurd e
blacken_focus t u xs (node p black l r) (f ∷ k) n b h fits order (inr e) =
    absurd (ground (arith, e))
blacken_focus t u xs (node p red l r) k n b h fits order v =
    Ends-mono (blacken-done t u p red l r k b)
      λ w q. painted t w xs p l r k n q (n, refl, h.0, h.1) fits order

blacken_root :
    (t u : Tree) (xs : List Ptr) (s : Shape) (n : ℕ)
    → Became t s [] u
    → IsBlack s
    → IsBalanced n s
    → inorder s ≡ xs
    → Ends (Rebuilt t xs) (blacken u (top s))
unfolding blacken
blacken_root t u xs leaf n b dark h order =
    ends (record {
      shape = leaf;
      height = n;
      became = b;
      black_root = tt;
      balanced = h;
      order = order;
    })
blacken_root t u xs (node p red l r) n b dark h order = absurd dark
blacken_root t u xs (node p black l r) n b dark h order =
    Ends-mono (blacken-done t u p black l r [] b) λ w q. record {
      shape = node p black l r;
      height = n;
      became = q;
      black_root = tt;
      balanced = h;
      order = order;
    }

blacken-Rebuilt :
    (t : Tree) (xs : List Ptr) (r : Tree × Ptr)
    → Exit t xs r
    → Ends (Rebuilt t xs) (blacken r.0 r.1)
blacken-Rebuilt t xs (u, x) (at_focus s k n b e h fits order v) =
    rw e (blacken_focus t u xs s k n b h fits order v)
blacken-Rebuilt t xs (u, x) (at_top m) =
    let e : x ≡ top m.shape = m.at_root ∙ m.became.spells.context in
    rw e (blacken_root t u xs m.shape m.height m.became m.black_root m.balanced m.order)

-- __helper_rb_tree_delete_rebalance at a focus whose subtree has one black node too few on each path,
-- in a tree that is a red-black tree otherwise: with fuel above the depth
-- of the focus the run ends, and the memory spells a red-black tree with a black root and the same
-- nodes in the same order; the keys and `rightmost` stay.
pub delete_rebalance-Rebuilt :
    (fuel : ℕ) (t : Tree) (s : Shape) (k : Context) (n : ℕ)
    → Spells t s k
    → IsLoose n s
    → Fits (suc n) k
    → length k < fuel
    → Ends
        (Rebuilt t (inorder (plug s k)))
        (delete_rebalance fuel t (top s) (above k) (went_left k))
unfolding delete_rebalance
delete_rebalance-Rebuilt fuel t s k n h loose fits enough =
    Ends-bind
      (delete_loop-Exit fuel t t (inorder (plug s k)) (top s) (above k) (went_left k) (record {
        s = s;
        k = k;
        n = n;
        at = (record { spells = h; keys = λ a. refl; rightmost = refl }, refl, refl, refl);
        loose = loose;
        fits = fits;
        order = sym (inorder-plug s k);
        depth = inl enough;
      }))
      (blacken-Rebuilt t (inorder (plug s k)))
