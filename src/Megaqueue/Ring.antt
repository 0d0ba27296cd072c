-- ===== src/Megaqueue/Ring.antt =====
-- Indices that run around a ring, against counters that only grow.
use trading_base.Base.{
  ℕ, ◌+◌, ◌-◌, ◌%◌, ◌^◌, ◌≤◌, ◌<◌, ◌≡◌, ◌≢◌, ◌∙◌, ap, inl, inr, Bool-cases, ltb, arith,
}
use native.Mathlib.Nat.{mod-lt, mod-eq_of_lt, mod-add-mod, mod-eq-sub-mod}
use trading_base.Megaqueue.{Megaqueue, advance}

-- The index of a counter.
pub around-suc : (n k : ℕ) → ((k % n) + 1) % n ≡ (k + 1) % n
around-suc n k = mod-add-mod k n 1

beyond : (n r e : ℕ) → r < n → 0 < e → e < n → (r + e) % n ≢ r
beyond n r e hr he hn same = elim (Bool-cases (ltb (r + e) n)) [
  | inl lt ↦
      let below : r + e < n = ground arith in
      omega (arith, same, mod-eq_of_lt {n = r + e} {m = n} below)
  | inr ge ↦
      let past : n ≤ r + e = ground arith in
      let small : r + e - n < n = omega arith in
      omega (
        arith,
        same,
        mod-eq-sub-mod {n = r + e} {m = n} past,
        mod-eq_of_lt {n = r + e - n} {m = n} small,
      )
]

-- Two counters less than a turn apart have different indices.
pub around-apart : (n j k : ℕ) → j < k → k < j + n → k % n ≢ j % n
around-apart n j k lt gt same =
    beyond n (j % n) (k - j) (mod-lt j {m = n} (omega arith)) (omega arith) (omega arith)
      (mod-add-mod j n (k - j) ∙ ap (λ v. v % n) (omega arith) ∙ same)

-- The next index is that of the next counter; the 64-bit addition does not wrap.
pub advance-around :
    (q : Megaqueue) (k : ℕ)
    → 0 < q.object_count
    → q.object_count ≤ 2 ^ 32
    → advance q (k % q.object_count) ≡ (k + 1) % q.object_count
advance-around q k some_ few =
    let small = mod-lt k {m = q.object_count} some_ in
    ap (λ v. v % q.object_count) (omega arith) ∙ around-suc q.object_count k
