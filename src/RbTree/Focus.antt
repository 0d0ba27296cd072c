-- ===== src/RbTree/Focus.antt =====
-- Moving the focus through the tree in memory, and what single writes and rotations do at the focus.
use trading_base.Base.{◌<◌, ◌≡◌, ◌≢◌, refl, ◌∙◌, [], ◌∷◌, arith, done, Ends, ends}
use trading_base.RbTree.{Ptr, null, Color, Tree, update, set_color, rotate_left, rotate_right}
use trading_base.RbTree.Shape.{
  Shape, node, left_of, right_of, Context, IsTree, occurs, Spells, SameAt, IsTree-same,
  IsContext-same,
}
use trading_base.RbTree.Balance.{plug}
use trading_base.RbTree.RotateLeft.{rotated_left-key, rotated_left-rightmost}
use trading_base.RbTree.RotateRight.{rotated_right-key, rotated_right-rightmost}
use trading_base.RbTree.RotateLeft.Spelled.{rotate_left-run, rotate_left-Spells}
use trading_base.RbTree.RotateRight.Spelled.{rotate_right-run, rotate_right-Spells}

module _ {t : Tree} {s : Shape} {p : Ptr} {c : Color} {o : Shape} {k : Context} where
  pub up_left : Spells t s (left_of p c o ∷ k) → Spells t (node p c s o) k
  up_left h =
      let (ne, hl, hr, hp, hc, tr, rest) = h.context in
      record {
        tree = (ne, hl, hr, hp, hc, h.tree, tr);
        context = rest;
        linear = λ a. omega (arith, h.linear a);
      }

  pub up_right : Spells t s (right_of p c o ∷ k) → Spells t (node p c o s) k
  up_right h =
      let (ne, hl, hr, hp, hc, tl, rest) = h.context in
      record {
        tree = (ne, hl, hr, hp, hc, tl, h.tree);
        context = rest;
        linear = λ a. omega (arith, h.linear a);
      }

  pub down_left : Spells t (node p c s o) k → Spells t s (left_of p c o ∷ k)
  down_left h =
      let (ne, hl, hr, hp, hc, tl, tr) = h.tree in
      record {
        tree = tl;
        context = (ne, hl, hr, hp, hc, tr, h.context);
        linear = λ a. omega (arith, h.linear a);
      }

  pub down_right : Spells t (node p c o s) k → Spells t s (right_of p c o ∷ k)
  down_right h =
      let (ne, hl, hr, hp, hc, tl, tr) = h.tree in
      record {
        tree = tr;
        context = (ne, hl, hr, hp, hc, tl, h.context);
        linear = λ a. omega (arith, h.linear a);
      }

pub plugged : (t : Tree) (s : Shape) (k : Context) → Spells t s k → Spells t (plug s k) []
plugged t s [] h = h
plugged t s (left_of p c r ∷ k) h = plugged t (node p c s r) k (up_left h)
plugged t s (right_of p c l ∷ k) h = plugged t (node p c l s) k (up_right h)

-- The memory `u` after a run from `t` that leaves the keys and the rightmost pointer alone.
pub record Became (t : Tree) (s : Shape) (k : Context) (u : Tree) : Type 0 where
  pub spells : Spells u s k
  pub keys : (a : Ptr) → u.key a ≡ t.key a
  pub rightmost : u.rightmost ≡ t.rightmost

pub Became-then :
    {t u v : Tree} {s s' : Shape} {k k' : Context}
    → Became t s k u
    → Became u s' k' v
    → Became t s' k' v
Became-then f g = record {
  spells = g.spells;
  keys = λ a. g.keys a ∙ f.keys a;
  rightmost = g.rightmost ∙ f.rightmost;
}

pub Became-at :
    {t u : Tree} {s s' : Shape} {k k' : Context}
    → (Spells u s k → Spells u s' k')
    → Became t s k u
    → Became t s' k' u
Became-at f h = record { spells = f h.spells; keys = h.keys; rightmost = h.rightmost }

-- __helper_rotate_left at a node `x` with a right child `y`, anywhere in a tree in memory: the run ends,
-- and the memory spells the same tree but that `y` is above `x` and the middle subtree has moved
-- to `x`. Every pointer of the tree, the colors, the keys and `rightmost` are as they should be.
pub rotate_left-Became :
    (t : Tree) (x y : Ptr) (cx cy : Color) (a b c : Shape) (k : Context)
    → Spells t (node x cx a (node y cy b c)) k
    → Ends (Became t (node y cy (node x cx a b) c) k) (rotate_left t x)
rotate_left-Became t x y cx cy a b c k h = rw (rotate_left-run t x y cx cy a b c k h) (
    ends (record {
      spells = rotate_left-Spells t x y cx cy a b c k h;
      keys = rotated_left-key t x;
      rightmost = rotated_left-rightmost t x;
    }))

-- __helper_rotate_right at a node `x` with a left child `y`, anywhere in a tree in memory: the run
-- ends, and the memory spells the same tree but that `y` is above `x` and the middle subtree has
-- moved to `x`. Every pointer of the tree, the colors, the keys and `rightmost` are as they should be.
pub rotate_right-Became :
    (t : Tree) (x y : Ptr) (cx cy : Color) (a b c : Shape) (k : Context)
    → Spells t (node x cx (node y cy c b) a) k
    → Ends (Became t (node y cy c (node x cx b a)) k) (rotate_right t x)
rotate_right-Became t x y cx cy a b c k h = rw (rotate_right-run t x y cx cy a b c k h) (
    ends (record {
      spells = rotate_right-Spells t x y cx cy a b c k h;
      keys = rotated_right-key t x;
      rightmost = rotated_right-rightmost t x;
    }))

unfoldable pub put_color : Tree → Ptr → Color → Tree
put_color t p v = record t { color = update t.color p v }

put_color-SameAt : (t : Tree) (p a : Ptr) (v : Color) → a ≢ p → SameAt t (put_color t p v) a
unfolding put_color
put_color-SameAt t p a v ne = record {
  left = refl;
  right = refl;
  parent = refl;
  color = ground arith;
}

pub set_color-done :
    (t : Tree) (p : Ptr) (v : Color) → p ≢ null → set_color t p v ≡ done (put_color t p v)
unfolding set_color put_color
set_color-done t p v ne = ground arith

put_color-tree :
    (t : Tree) (p up : Ptr) (v : Color) (s : Shape)
    → ((a : Ptr) → 0 < occurs a s → a ≢ p)
    → IsTree t up s
    → IsTree (put_color t p v) up s
put_color-tree t p up v s out =
    IsTree-same t (put_color t p v) up s (λ a o. put_color-SameAt t p a v (out a o))

-- Painting the node in focus.
pub set_color-Became :
    (t : Tree) (p : Ptr) (c v : Color) (l r : Shape) (k : Context)
    → Spells t (node p c l r) k
    → Ends (Became t (node p v l r) k) (set_color t p v)
unfolding put_color
set_color-Became t p c v l r k h =
    let (ne, hl, hr, hp, hc, tl, tr) = h.tree in
    rw (set_color-done t p v ne) (
      ends (record {
        spells = record {
          tree = (
            ne,
            hl,
            hr,
            hp,
            ground arith,
            put_color-tree t p p v l (λ a o e. ground (arith, h.linear a)) tl,
            put_color-tree t p p v r (λ a o e. ground (arith, h.linear a)) tr,
          );
          context =
              IsContext-same t (put_color t p v) p k refl
                (λ a o. put_color-SameAt t p a v (λ e. ground (arith, h.linear a))) h.context;
          linear = h.linear;
        };
        keys = λ a. refl;
        rightmost = refl;
      }))
