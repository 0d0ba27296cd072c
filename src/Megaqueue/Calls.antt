-- ===== src/Megaqueue/Calls.antt =====
-- The operations of a queue in tsl/megaqueue/megaqueue_priv.h, one call at a time, against a bounded queue that only
-- counts.
use trading_base.Base.{
  ℕ, Bool, ◌+◌, ◌%◌, ◌^◌, ◌≤◌, ◌<◌, ◌≡◌, ◌≢◌, refl, sym, ap, ◌∙◌, Bool-cases, true, false, inl, inr,
  ◌==◌, if◌then◌else◌, arith,
}
use native.Mathlib.Nat.{add-mod_right}
use trading_base.ResultCode.{AResult, a_ok, a_e_nospc, a_e_empty}
use trading_base.Megaqueue.{
  Megaqueue, MegaqueueHeader, advance, slot_at, megaqueue_is_full, megaqueue_is_empty,
  megaqueue_can_delete, megaqueue_next_slot, megaqueue_advance, megaqueue_read_next_slot,
  megaqueue_read_advance, megaqueue_read_only_advance, megaqueue_delete_advance,
}
use trading_base.Megaqueue.Ring.{around-apart, advance-around}

-- How many objects were produced, read and deleted so far.
pub record Counts : Type 0 where
  pub produced : ℕ
  pub consumed : ℕ
  pub deleted : ℕ

-- The bounded queue: of n slots, one stays free.
abbrev pub produce : ℕ → Counts → AResult × Counts
produce n k =
    if k.produced + 1 == k.deleted + n
    then (a_e_nospc, k)
    else (a_ok, record k { produced = k.produced + 1 })

abbrev pub consume : Counts → AResult × Counts
consume k =
    if k.consumed == k.produced
    then (a_e_empty, k)
    else (a_ok, record k { consumed = k.consumed + 1 })

abbrev pub discard : Counts → AResult × Counts
discard k =
    if k.deleted == k.consumed then (a_e_empty, k) else (a_ok, record k { deleted = k.deleted + 1 })

-- What is read is discarded, and all before it.
abbrev pub consume_and_discard : Counts → AResult × Counts
consume_and_discard k =
    if k.consumed == k.produced
    then (a_e_empty, k)
    else (a_ok, record k { consumed = k.consumed + 1; deleted = k.consumed + 1 })

-- The header of a queue of n slots that has these counts.
pub record IsCounted (n : ℕ) (hdr : MegaqueueHeader) (k : Counts) : Type 0 where
  pub head_at : hdr.head ≡ k.produced % n
  pub tail_at : hdr.tail ≡ k.consumed % n
  pub delete_at : hdr.delete ≡ k.deleted % n
  pub read_after : k.deleted ≤ k.consumed
  pub written_after : k.consumed ≤ k.produced
  pub room : k.produced < k.deleted + n

-- Two indices of counters less than a turn apart are tested as the counters.
same_index : (n a b : ℕ) → a ≤ b → b < a + n → (a % n == b % n) ≡ (a == b)
same_index n a b le lt = elim (Bool-cases (a == b)) [
  | inl e ↦ let same : a ≡ b = ground arith in rw same (ground arith)
  | inr e ↦ let other : b % n ≢ a % n = around-apart n a b (ground arith) lt in ground arith
]

module _ (q : Megaqueue) (some_ : 0 < q.object_count) (few : q.object_count ≤ 2 ^ 32) where
  onward : (o k : ℕ) → o ≡ k % q.object_count → advance q o ≡ (k + 1) % q.object_count
  onward o k e = rw e (advance-around q k some_ few)

  full_test :
      (hdr : MegaqueueHeader) (k : Counts)
      → IsCounted q.object_count hdr k
      → megaqueue_is_full q hdr ≡ (k.produced + 1 == k.deleted + q.object_count)
  full_test hdr k at = elim (Bool-cases (k.produced + 1 == k.deleted + q.object_count)) [
    | inl e ↦
        let same : k.produced + 1 ≡ k.deleted + q.object_count = ground arith in
        let around : hdr.delete ≡ advance q hdr.head =
          at.delete_at
          ∙ sym (
              onward hdr.head k.produced at.head_at
              ∙ ap (λ v. v % q.object_count) same
              ∙ add-mod_right k.deleted q.object_count) in
        rw e (ground (arith, around))
    | inr e ↦
        let less : k.produced + 1 < k.deleted + q.object_count = ground (arith, at.room) in
        let other : (k.produced + 1) % q.object_count ≢ k.deleted % q.object_count =
          around-apart q.object_count k.deleted (k.produced + 1)
            (omega (arith, at.read_after, at.written_after)) less in
        let around : hdr.delete ≢ advance q hdr.head =
          λ same. other (sym (onward hdr.head k.produced at.head_at) ∙ sym same ∙ at.delete_at) in
        rw e (ground (arith, around))
  ]

  empty_test :
      (hdr : MegaqueueHeader) (k : Counts)
      → IsCounted q.object_count hdr k
      → megaqueue_is_empty hdr ≡ (k.consumed == k.produced)
  empty_test hdr k at =
      ap (λ v. v == hdr.head) at.tail_at
      ∙ ap (λ v. k.consumed % q.object_count == v) at.head_at
      ∙ same_index q.object_count k.consumed k.produced at.written_after
          (omega (arith, at.room, at.read_after))

  delete_test :
      (hdr : MegaqueueHeader) (k : Counts)
      → IsCounted q.object_count hdr k
      → megaqueue_can_delete hdr ≡ (k.deleted == k.consumed)
  delete_test hdr k at =
      let swapped : megaqueue_can_delete hdr ≡ (hdr.delete == hdr.tail) = ground arith in
      swapped
      ∙ ap (λ v. v == hdr.tail) at.delete_at
      ∙ ap (λ v. k.deleted % q.object_count == v) at.tail_at
      ∙ same_index q.object_count k.deleted k.consumed at.read_after
          (omega (arith, at.room, at.written_after))

  produced_next :
      (hdr : MegaqueueHeader) (k : Counts)
      → IsCounted q.object_count hdr k
      → k.produced + 1 ≢ k.deleted + q.object_count
      → IsCounted q.object_count
          (record hdr { head = advance q hdr.head })
          (record k { produced = k.produced + 1 })
  produced_next hdr k at ne = record {
    head_at = onward hdr.head k.produced at.head_at;
    tail_at = at.tail_at;
    delete_at = at.delete_at;
    read_after = at.read_after;
    written_after = omega (arith, at.written_after);
    room = omega (arith, ne, at.room);
  }

  consumed_next :
      (hdr : MegaqueueHeader) (k : Counts)
      → IsCounted q.object_count hdr k
      → k.consumed ≢ k.produced
      → IsCounted q.object_count
          (record hdr { tail = advance q hdr.tail })
          (record k { consumed = k.consumed + 1 })
  consumed_next hdr k at ne = record {
    head_at = at.head_at;
    tail_at = onward hdr.tail k.consumed at.tail_at;
    delete_at = at.delete_at;
    read_after = omega (arith, at.read_after);
    written_after = omega (arith, ne, at.written_after);
    room = at.room;
  }

  deleted_next :
      (hdr : MegaqueueHeader) (k : Counts)
      → IsCounted q.object_count hdr k
      → k.deleted ≢ k.consumed
      → IsCounted q.object_count
          (record hdr { delete = advance q hdr.delete })
          (record k { deleted = k.deleted + 1 })
  deleted_next hdr k at ne = record {
    head_at = at.head_at;
    tail_at = at.tail_at;
    delete_at = onward hdr.delete k.deleted at.delete_at;
    read_after = omega (arith, ne, at.read_after);
    written_after = at.written_after;
    room = omega (arith, at.room);
  }

  both_next :
      (hdr : MegaqueueHeader) (k : Counts)
      → IsCounted q.object_count hdr k
      → k.consumed ≢ k.produced
      → IsCounted q.object_count
          (record hdr { tail = advance q hdr.tail; delete = advance q hdr.tail })
          (record k { consumed = k.consumed + 1; deleted = k.consumed + 1 })
  both_next hdr k at ne = record {
    head_at = at.head_at;
    tail_at = onward hdr.tail k.consumed at.tail_at;
    delete_at = onward hdr.tail k.consumed at.tail_at;
    read_after = omega arith;
    written_after = omega (arith, ne, at.written_after);
    room = omega (arith, at.room, at.read_after);
  }

  -- A call does what the bounded queue does: the same result code, and a header with its counts.
  abbrev pub Does : AResult × MegaqueueHeader → AResult × Counts → Type 0
  Does (r, hdr) (r', k) = (r ≡ r') × IsCounted q.object_count hdr k

  branch :
      (b b' : Bool) (r r' : AResult) {hdr hdr' : MegaqueueHeader} {k k' : Counts}
      → b ≡ b'
      → IsCounted q.object_count hdr k
      → (b' ≡ false → IsCounted q.object_count hdr' k')
      → Does (if b then (r, hdr) else (r', hdr')) (if b' then (r, k) else (r', k'))
  branch true true r r' same at next = (refl, at)
  branch false false r r' same at next = (refl, next refl)
  branch true false r r' same at next = cc
  branch false true r r' same at next = cc

  answer :
      (b b' : Bool) (r r' : AResult) (k k' : Counts) (x : ℕ) {y y' : ℕ}
      → b ≡ b'
      → y ≡ y'
      → ◌≡◌ {A = AResult × ℕ}
          (if b then (r, x) else (r', y))
          ((if◌then◌else◌ {A = AResult × Counts} b' (r, k) (r', k')).0, if b' then x else y')
  answer true true r r' k k' x same e = refl
  answer false false r r' k k' x same e = cc
  answer true false r r' k k' x same e = cc
  answer false true r r' k k' x same e = cc

  -- For a queue of 1 to 2 ^ 32 slots whose header has the counts k: megaqueue_next_slot gives the code of
  -- a bounded queue's produce and, unless it is full, the slot of the next index, and otherwise leaves the pointer;
  -- megaqueue_read_next_slot gives the code of consume and the slot of the next read, or NULL when it is empty;
  -- and megaqueue_advance, megaqueue_read_only_advance, megaqueue_delete_advance and megaqueue_read_advance do what
  -- produce, consume, discard and consume_and_discard do.
  pub calls-Does :
      (hdr : MegaqueueHeader) (k : Counts) (slot : ℕ)
      → IsCounted q.object_count hdr k
      → (megaqueue_next_slot q hdr slot ≡ (
        (produce q.object_count k).0,
        if k.produced + 1 == k.deleted + q.object_count
            then slot
            else slot_at q (k.produced % q.object_count),
      ))
        × (megaqueue_read_next_slot q hdr ≡ (
          (consume k).0,
          if k.consumed == k.produced then 0 else slot_at q (k.consumed % q.object_count),
        ))
        × Does (megaqueue_advance q hdr) (produce q.object_count k)
        × Does (megaqueue_read_only_advance q hdr) (consume k)
        × Does (megaqueue_delete_advance q hdr) (discard k)
        × Does (megaqueue_read_advance q hdr) (consume_and_discard k)
  unfolding megaqueue_next_slot megaqueue_read_next_slot megaqueue_advance
      megaqueue_read_only_advance megaqueue_delete_advance megaqueue_read_advance
  calls-Does hdr k slot at = (
    answer (megaqueue_is_full q hdr) (k.produced + 1 == k.deleted + q.object_count) a_e_nospc a_ok k
        _ slot (full_test hdr k at) (ap (slot_at q) at.head_at),
    answer (megaqueue_is_empty hdr) (k.consumed == k.produced) a_e_empty a_ok k _ 0
        (empty_test hdr k at) (ap (slot_at q) at.tail_at),
    branch (megaqueue_is_full q hdr) (k.produced + 1 == k.deleted + q.object_count) a_e_nospc a_ok
        (full_test hdr k at) at (λ ne. produced_next hdr k at (ground arith)),
    branch (megaqueue_is_empty hdr) (k.consumed == k.produced) a_e_empty a_ok (empty_test hdr k at)
        at (λ ne. consumed_next hdr k at (ground arith)),
    branch (megaqueue_can_delete hdr) (k.deleted == k.consumed) a_e_empty a_ok
        (delete_test hdr k at) at (λ ne. deleted_next hdr k at (ground arith)),
    branch (megaqueue_is_empty hdr) (k.consumed == k.produced) a_e_empty a_ok (empty_test hdr k at)
        at (λ ne. both_next hdr k at (ground arith)),
  )
