-- ===== src/RbTree/Writes.antt =====
-- The writes through pointers that are not NULL.
use trading_base.Base.{◌≡◌, ◌≢◌, refl, ◌==◌, if◌then◌else◌, arith, done}
use trading_base.RbTree.{
  Ptr, null, Tree, update, load, set_left, set_right, set_parent, set_key, adopt, replace_child,
}

pub load-done {ℓ} : {A : Type ℓ} (f : Ptr → A) (p : Ptr) → p ≢ null → load f p ≡ done (f p)
unfolding load
load-done f p ne = ground arith

-- The effect of each write, away from NULL.
unfoldable pub put_left : Tree → Ptr → Ptr → Tree
put_left t p v = record t { left = update t.left p v }

unfoldable pub put_right : Tree → Ptr → Ptr → Tree
put_right t p v = record t { right = update t.right p v }

unfoldable pub put_parent : Tree → Ptr → Ptr → Tree
put_parent t p v = record t { parent = update t.parent p v }

unfoldable pub adopted : Tree → Ptr → Ptr → Tree
unfolding put_parent
adopted t p v = if p == null then t else put_parent t p v

unfoldable pub relinked : Tree → Ptr → Ptr → Ptr → Tree
unfolding put_left put_right
relinked t xp x y =
    if xp == null
    then record t { root = y }
    else if x == t.left xp
    then put_left t xp y
    else put_right t xp y

pub set_left-done : (t : Tree) (p v : Ptr) → p ≢ null → set_left t p v ≡ done (put_left t p v)
unfolding set_left put_left
set_left-done t p v ne = ground arith

pub set_right-done : (t : Tree) (p v : Ptr) → p ≢ null → set_right t p v ≡ done (put_right t p v)
unfolding set_right put_right
set_right-done t p v ne = ground arith

pub set_parent-done : (t : Tree) (p v : Ptr) → p ≢ null → set_parent t p v ≡ done (put_parent t p v)
unfolding set_parent put_parent
set_parent-done t p v ne = ground arith

pub adopt-done : (t : Tree) (p v : Ptr) → adopt t p v ≡ done (adopted t p v)
unfolding adopt adopted
adopt-done t p v = ground arith

pub replace_child-done :
    (t : Tree) (xp x y : Ptr) → replace_child t xp x y ≡ done (relinked t xp x y)
unfolding replace_child relinked
replace_child-done t xp x y = ground arith

-- The first two writes of a rotation keep the parent of `x`.
pub adopted-parent :
    (t : Tree) (x m : Ptr)
    → m ≢ x
    → ((adopted (put_right t x m) m x).parent x ≡ t.parent x)
      × ((adopted (put_left t x m) m x).parent x ≡ t.parent x)
unfolding adopted put_right put_left put_parent
adopted-parent t x m hm = (ground arith, ground arith)

unfoldable pub put_key : Tree → Ptr → Ptr → Tree
put_key t p v = record t { key = update t.key p v }

pub set_key-done : (t : Tree) (p v : Ptr) → p ≢ null → set_key t p v ≡ done (put_key t p v)
unfolding set_key put_key
set_key-done t p v ne = ground arith

pub put_key-root : (t : Tree) (p v : Ptr) → (put_key t p v).root ≡ t.root
unfolding put_key
put_key-root t p v = refl
