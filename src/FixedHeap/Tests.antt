-- ===== src/FixedHeap/Tests.antt =====
-- Runs of the heap functions on numbers compared by value, and the theorems at such heaps.
use mathlib.Core.Path.{subst}
use mathlib.Core.Option.{some-injective}
use trading_base.Base.{
  ap, ℕ, zero, suc, ◌+◌, ◌≤◌, ◌<◌, ◌/◌, ◌^◌, ◌≡◌, refl, List, [], ◌∷◌, Option, some, arith, length,
  take, replicate, ltb, if◌then◌else◌, Run, done, Ends, ◌>>=◌,
}
use trading_base.Base.Int.{pos, negsuc}
use trading_base.ResultCode.{AResult, a_ok}
use trading_base.FixedHeap.{
  Ptr, null, Compare, FixedHeap, fixed_heap_parent, fixed_heap_push, fixed_heap_pop,
  fixed_heap_remove_item, fixed_heap_resize,
}
use trading_base.FixedHeap.Order.{Ranks, item, key, IsValid}
use trading_base.FixedHeap.Push.{Holds, fixed_heap_push-Holds}
use trading_base.FixedHeap.Pop.{Popped, IsTop, fixed_heap_pop-Popped}
use trading_base.FixedHeap.Remove.{
  Removed, HasArray, IsAbsent, fixed_heap_remove_item-Removed, fixed_heap_remove_item-IsValid,
  fixed_heap_remove_item_misorders,
}
use trading_base.FixedHeap.Storage.{IsRealloc, fixed_heap_resize_overflows}

-- The callback of test_heap.c: `lhs - rhs`, here by its sign.
abbrev by_value : Compare
by_value x y = if ltb x y then negsuc 0 else if ltb y x then pos 1 else pos 0

abbrev value : Ptr → ℕ
value x = x

by_value-Ranks : Ranks by_value value
by_value-Ranks = record { neg = λ x y. ground arith; positive = λ x y. ground arith }

abbrev array : List Ptr
array = 10 ∷ 5 ∷ 9 ∷ 1 ∷ 2 ∷ 8 ∷ 7 ∷ 0 ∷ []

abbrev sample : FixedHeap
sample = record { heap = some array; capacity = 8; entries = 7 }

-- The heap order at the six edges of the sample.
sample_edges : (c : ℕ) → 0 < c → c < 7 → key value array c ≤ key value array (fixed_heap_parent c)
sample_edges zero p q = absurd (omega arith)
sample_edges (suc zero) p q = omega arith
sample_edges (suc (suc zero)) p q = omega arith
sample_edges (suc (suc (suc zero))) p q = omega arith
sample_edges (suc (suc (suc (suc zero)))) p q = omega arith
sample_edges (suc (suc (suc (suc (suc zero))))) p q = omega arith
sample_edges (suc (suc (suc (suc (suc (suc zero)))))) p q = omega arith
sample_edges (suc (suc (suc (suc (suc (suc (suc c))))))) p q = absurd (omega arith)

sample-IsValid : IsValid value sample array
sample-IsValid = record { buffer = refl; size = refl; bounded = omega arith; order = sample_edges }

session : Run (AResult × Option Ptr × FixedHeap)
unfolding fixed_heap_push fixed_heap_pop
session = do
  (r, h) ← fixed_heap_push by_value sample 12
  (s, x, k) ← fixed_heap_pop by_value h
  fixed_heap_pop by_value k

session_result :
    session
    ≡ done (
      a_ok,
      some 10,
      record { heap = some (9 ∷ 5 ∷ 8 ∷ 1 ∷ 2 ∷ 7 ∷ 0 ∷ 0 ∷ []); capacity = 8; entries = 6 },
    )
unfolding session
session_result = refl

sample-HasArray : HasArray sample array
sample-HasArray = record { buffer = refl; size = refl; bounded = omega arith }

-- Where the items stand for the first time.
nine-IsAbsent : IsAbsent array 9 0 2
nine-IsAbsent zero p q = omega arith
nine-IsAbsent (suc zero) p q = omega arith
nine-IsAbsent (suc (suc c)) p q = absurd (omega arith)

one-IsAbsent : IsAbsent array 1 0 3
one-IsAbsent zero p q = omega arith
one-IsAbsent (suc zero) p q = omega arith
one-IsAbsent (suc (suc zero)) p q = omega arith
one-IsAbsent (suc (suc (suc c))) p q = absurd (omega arith)

three-IsAbsent : IsAbsent array 3 0 7
three-IsAbsent zero p q = omega arith
three-IsAbsent (suc zero) p q = omega arith
three-IsAbsent (suc (suc zero)) p q = omega arith
three-IsAbsent (suc (suc (suc zero))) p q = omega arith
three-IsAbsent (suc (suc (suc (suc zero)))) p q = omega arith
three-IsAbsent (suc (suc (suc (suc (suc zero))))) p q = omega arith
three-IsAbsent (suc (suc (suc (suc (suc (suc zero)))))) p q = omega arith
three-IsAbsent (suc (suc (suc (suc (suc (suc (suc c))))))) p q = absurd (omega arith)

-- calloc that always succeeds.
abbrev calloc_ok : ℕ → Option (List Ptr)
calloc_ok n = some (replicate n null)

-- realloc that keeps the cells that fit and adds NULL behind them.
abbrev fitted : ℕ → List Ptr → List Ptr
fitted zero a = []
fitted (suc n) [] = null ∷ fitted n []
fitted (suc n) (x ∷ a) = x ∷ fitted n a

abbrev realloc_ok : List Ptr → ℕ → Option (List Ptr)
realloc_ok a n = some (fitted (n / 8) a)

length-fitted : (n : ℕ) (a : List Ptr) → length (fitted n a) ≡ n
length-fitted zero a = refl
length-fitted (suc n) [] = ap suc (length-fitted n [])
length-fitted (suc n) (x ∷ a) = ap suc (length-fitted n a)

item-fitted : (n : ℕ) (a : List Ptr) (i : ℕ) → i < length a → i < n → item (fitted n a) i ≡ item a i
item-fitted zero a i p q = absurd (omega arith)
item-fitted (suc n) [] i p q = absurd (omega arith)
item-fitted (suc n) (x ∷ a) zero p q = refl
item-fitted (suc n) (x ∷ a) (suc i) p q = item-fitted n a i (omega arith) (omega arith)

realloc_ok-IsRealloc : IsRealloc realloc_ok
realloc_ok-IsRealloc = record {
  size = λ a n b e. subst (λ c. length c ≡ n / 8) (some-injective _ _ e) (length-fitted (n / 8) a);
  kept = λ a n b e i p.
      subst (λ c. i < length c → item c i ≡ item a i) (some-injective _ _ e)
        λ q. item-fitted (n / 8) a i p (rw (length-fitted (n / 8) a) at q);
}

fixed_heap_push-Holds_example :
    Ends
      (λ (r, h'). (r ≡ a_ok) × Holds value (12 ∷ take 7 array) 8 h')
      (fixed_heap_push by_value sample 12)
fixed_heap_push-Holds_example =
    fixed_heap_push-Holds by_value-Ranks sample array 12 sample-IsValid (omega arith)

fixed_heap_pop-Popped_example :
    Ends
      (λ (r, out, h').
        (r ≡ a_ok)
        × ((x : Ptr) × (out ≡ some x) × IsTop value sample array x)
        × Popped value sample array h')
      (fixed_heap_pop by_value sample)
fixed_heap_pop-Popped_example =
    fixed_heap_pop-Popped by_value-Ranks sample array sample-IsValid (omega arith)

fixed_heap_remove_item-Removed_example :
    Ends
      (λ (r, h'). (r ≡ a_ok) × ((b : List Ptr) × Removed sample array 9 h' b))
      (fixed_heap_remove_item by_value sample 9)
fixed_heap_remove_item-Removed_example =
    fixed_heap_remove_item-Removed by_value-Ranks sample array 9 2 sample-HasArray (omega arith)
      refl nine-IsAbsent

fixed_heap_remove_item-IsValid_example :
    Ends
      (λ (r, h'). (r ≡ a_ok) × ((b : List Ptr) × Removed sample array 9 h' b × IsValid value h' b))
      (fixed_heap_remove_item by_value sample 9)
fixed_heap_remove_item-IsValid_example =
    fixed_heap_remove_item-IsValid by_value-Ranks sample array 9 2 sample-HasArray (omega arith)
      refl nine-IsAbsent sample_edges (omega arith)

-- Removing 1 puts 7 below 5.
fixed_heap_remove_item_misorders_example :
    Ends
      (λ (r, h').
        (r ≡ a_ok)
        × ((b : List Ptr) × Removed sample array 1 h' b
            × (3 < h'.entries)
            × (key value b 1 < key value b 3)))
      (fixed_heap_remove_item by_value sample 1)
fixed_heap_remove_item_misorders_example =
    fixed_heap_remove_item_misorders by_value-Ranks sample array 1 3 sample-HasArray (omega arith)
      refl one-IsAbsent sample_edges (omega arith)

fixed_heap_resize_overflows_example :
    let (r, h') = fixed_heap_resize realloc_ok sample (2 ^ 61 + 1) in
    (r ≡ a_ok) × (h'.heap ≡ some (10 ∷ [])) × (1 < h'.capacity)
fixed_heap_resize_overflows_example =
    fixed_heap_resize_overflows realloc_ok realloc_ok-IsRealloc value sample array (2 ^ 61 + 1)
      (10 ∷ []) refl (omega arith) (omega arith) refl
