-- ===== src/Megaqueue/Safety.antt =====
-- What holds in every reachable state of the producer, the reader and the deleter of a queue.
use trading_base.Base.{
  ℕ, Bool-cases, inl, inr, ap, ◌+◌, ◌%◌, ◌^◌, ◌≤◌, ◌<◌, ◌≡◌, ◌≢◌, sym, ◌∙◌, ◌==◌, arith,
}
use native.Mathlib.Nat.{add-mod_right}
use trading_base.Megaqueue.{Megaqueue, advance}
use trading_base.Megaqueue.Ring.{around-apart, advance-around}
use trading_base.Megaqueue.Threads.{
  Shared, Producer, p_next, p_head, p_check, p_slot, p_filled, p_full, p_room, p_store, Consumer,
  c_next, c_tail, c_check, c_slot, c_read, c_empty, c_room, c_store, Deleter, d_next, d_tail,
  d_room, d_store, Produces, p_load_offset, p_load_head, no_space, space, write, p_load_again,
  still_full, not_full, p_load_last, store_head, Consumes, c_load_offset, c_load_head, no_object,
  object, read, c_load_again, gone, there, c_load_last, store_tail, Deletes, d_load_tail, nothing,
  something, d_load_last, store_delete,
}

module _ (n : ℕ) where
  -- The indices are those of the counters, and the objects between them are the ones written.
  pub record IsQueue (g : Shared) : Type 0 where
    pub head_at : g.head ≡ g.produced % n
    pub tail_at : g.tail ≡ g.consumed % n
    pub delete_at : g.delete ≡ g.deleted % n
    pub read_after : g.deleted ≤ g.consumed
    pub written_after : g.consumed ≤ g.produced
    pub room : g.produced < g.deleted + n
    pub kept : (k : ℕ) → g.deleted ≤ k → k < g.produced → g.objects (k % n) ≡ g.sent k
    pub delivered : (k : ℕ) → k < g.consumed → g.received k ≡ g.sent k

  -- What the producer knows.
  abbrev pub Producing : Shared → Producer → Type 0
  Producing g p_next = Unit {0}
  Producing g (p_head o) = o ≡ g.produced % n
  Producing g (p_check o h) = (o ≡ g.produced % n) × (h ≡ g.produced % n)
  Producing g (p_slot o) = (o ≡ g.produced % n) × (g.produced + 1 < g.deleted + n)
  Producing g p_filled =
      (g.produced + 1 < g.deleted + n) × (g.objects (g.produced % n) ≡ g.sent g.produced)
  Producing g (p_full h) =
      (h ≡ g.produced % n)
      × (g.produced + 1 < g.deleted + n)
      × (g.objects (g.produced % n) ≡ g.sent g.produced)
  Producing g p_room =
      (g.produced + 1 < g.deleted + n) × (g.objects (g.produced % n) ≡ g.sent g.produced)
  Producing g (p_store o) =
      (o ≡ g.produced % n)
      × (g.produced + 1 < g.deleted + n)
      × (g.objects (g.produced % n) ≡ g.sent g.produced)

  -- The index of some counter from `a` to `b`.
  abbrev pub Seen : ℕ → ℕ → ℕ → Type 0
  Seen h a b = (k : ℕ) × (h ≡ k % n) × (a ≤ k) × (k ≤ b)

  -- What the reader knows.
  abbrev pub Consuming : Shared → Consumer → Type 0
  Consuming g c_next = Unit {0}
  Consuming g (c_tail o) = o ≡ g.consumed % n
  Consuming g (c_check o h) = (o ≡ g.consumed % n) × Seen h g.consumed g.produced
  Consuming g (c_slot o) = (o ≡ g.consumed % n) × (g.consumed < g.produced)
  Consuming g c_read = (g.received g.consumed ≡ g.sent g.consumed) × (g.consumed < g.produced)
  Consuming g (c_empty h) =
      (g.received g.consumed ≡ g.sent g.consumed)
      × (g.consumed < g.produced)
      × Seen h (g.consumed + 1) g.produced
  Consuming g c_room = (g.received g.consumed ≡ g.sent g.consumed) × (g.consumed < g.produced)
  Consuming g (c_store o) =
      (o ≡ g.consumed % n) × (g.received g.consumed ≡ g.sent g.consumed) × (g.consumed < g.produced)

  -- What the deleter knows.
  abbrev pub Deleting : Shared → Deleter → Type 0
  Deleting g d_next = Unit {0}
  Deleting g (d_tail t) = Seen t g.deleted g.consumed
  Deleting g d_room = g.deleted < g.consumed
  Deleting g (d_store o) = (o ≡ g.deleted % n) × (g.deleted < g.consumed)

module _ (q : Megaqueue) (some_ : 0 < q.object_count) (few : q.object_count ≤ 2 ^ 32) where
  abbrev size : ℕ
  size = q.object_count

  onward : (o k : ℕ) → o ≡ k % size → advance q o ≡ (k + 1) % size
  onward o k e = rw e (advance-around q k some_ few)

  room_left :
      (g : Shared) (h : ℕ)
      → IsQueue size g
      → h ≡ g.produced % size
      → g.delete ≢ advance q h
      → g.produced + 1 < g.deleted + size
  room_left g h v e ne =
      let other : g.produced + 1 ≢ g.deleted + size = λ e'. ne (
        v.delete_at
        ∙ sym (onward h g.produced e ∙ ap (λ k. k % size) e' ∙ add-mod_right g.deleted size)) in
      omega (arith, other, v.room)

  -- The producer's own step.
  pub Produces-IsQueue :
      {g g' : Shared} {p p' : Producer}
      → Produces q g p g' p'
      → IsQueue size g
      → Producing size g p
      → IsQueue size g' × Producing size g' p'
  Produces-IsQueue p_load_offset h own = (h, h.head_at)
  Produces-IsQueue p_load_head h own = (h, (own, h.head_at))
  Produces-IsQueue (no_space e) h own = (h, tt)
  Produces-IsQueue {g} (space {h = seen} ne) h own = (h, (own.0, room_left g seen h own.1 ne))
  Produces-IsQueue {g} (write {o} value) h (at, room) = (
    record {
      head_at = h.head_at;
      tail_at = h.tail_at;
      delete_at = h.delete_at;
      read_after = h.read_after;
      written_after = h.written_after;
      room = h.room;
      kept = λ k lo hi.
          let other : k % size ≢ o =
            λ e. around-apart size k g.produced hi (omega (arith, h.room)) (sym at ∙ sym e) in
          let mine = h.kept k lo hi in ground arith;
      delivered =
          λ k lt. let mine = h.delivered k lt in let before = h.written_after in ground arith;
    },
    (room, ground arith),
  )
  Produces-IsQueue p_load_again h own = (h, (h.head_at, own.0, own.1))
  Produces-IsQueue (still_full e) h own = (h, (own.1, own.2))
  Produces-IsQueue (not_full ne) h own = (h, (own.1, own.2))
  Produces-IsQueue p_load_last h own = (h, (h.head_at, own.0, own.1))
  Produces-IsQueue {g} (store_head {o}) h (at, room, filled) = (
    record {
      head_at = onward o g.produced at;
      tail_at = h.tail_at;
      delete_at = h.delete_at;
      read_after = h.read_after;
      written_after = omega (arith, h.written_after);
      room = room;
      kept = λ k lo hi. elim (Bool-cases (k == g.produced)) [
        | inl e ↦ let same : k ≡ g.produced = ground arith in rw same filled
        | inr e ↦ h.kept k lo (ground arith)
      ];
      delivered = h.delivered;
    },
    tt,
  )

  -- The reader's own step.
  pub Consumes-IsQueue :
      {g g' : Shared} {c c' : Consumer}
      → Consumes q g c g' c'
      → IsQueue size g
      → Consuming size g c
      → IsQueue size g' × Consuming size g' c'
  Consumes-IsQueue c_load_offset h own = (h, h.tail_at)
  Consumes-IsQueue {g} c_load_head h own =
      (h, (own, (g.produced, h.head_at, h.written_after, omega arith)))
  Consumes-IsQueue (no_object e) h own = (h, tt)
  Consumes-IsQueue {g} (object ne) h (at, (k, e, lo, hi)) =
      let other : k ≢ g.consumed = λ e'. ne (h.tail_at ∙ sym (e ∙ ap (λ v. v % size) e')) in
      (h, (at, omega (arith, other, lo, hi)))
  Consumes-IsQueue {g} (read {o}) h (at, lt) =
      let mine = h.kept g.consumed h.read_after lt in
      (
        record {
          head_at = h.head_at;
          tail_at = h.tail_at;
          delete_at = h.delete_at;
          read_after = h.read_after;
          written_after = h.written_after;
          room = h.room;
          kept = h.kept;
          delivered = λ k lo. let before = h.delivered k lo in ground arith;
        },
        (ground arith, lt),
      )
  Consumes-IsQueue {g} c_load_again h (v, lt) =
      (h, (v, lt, (g.produced, h.head_at, omega (arith, lt), omega arith)))
  Consumes-IsQueue (gone e) h own = (h, tt)
  Consumes-IsQueue (there ne) h own = (h, (own.0, own.1))
  Consumes-IsQueue c_load_last h own = (h, (h.tail_at, own.0, own.1))
  Consumes-IsQueue {g} (store_tail {o}) h (at, v, lt) = (
    record {
      head_at = h.head_at;
      tail_at = onward o g.consumed at;
      delete_at = h.delete_at;
      read_after = omega (arith, h.read_after);
      written_after = omega (arith, lt);
      room = h.room;
      kept = h.kept;
      delivered = λ k lo. elim (Bool-cases (k == g.consumed)) [
        | inl e ↦ let same : k ≡ g.consumed = ground arith in rw same v
        | inr e ↦ h.delivered k (ground arith)
      ];
    },
    tt,
  )

  -- The deleter's own step.
  pub Deletes-IsQueue :
      {g g' : Shared} {d d' : Deleter}
      → Deletes q g d g' d'
      → IsQueue size g
      → Deleting size g d
      → IsQueue size g' × Deleting size g' d'
  Deletes-IsQueue {g} d_load_tail h own = (h, (g.consumed, h.tail_at, h.read_after, omega arith))
  Deletes-IsQueue (nothing e) h own = (h, tt)
  Deletes-IsQueue {g} (something ne) h (k, e, lo, hi) =
      let other : k ≢ g.deleted = λ e'. ne (e ∙ ap (λ v. v % size) e' ∙ sym h.delete_at) in
      (h, omega (arith, other, lo, hi))
  Deletes-IsQueue d_load_last h own = (h, (h.delete_at, own))
  Deletes-IsQueue {g} (store_delete {o}) h (at, lt) = (
    record {
      head_at = h.head_at;
      tail_at = h.tail_at;
      delete_at = onward o g.deleted at;
      read_after = omega (arith, lt);
      written_after = h.written_after;
      room = omega (arith, h.room);
      kept = λ k lo hi. h.kept k (omega (arith, lo)) hi;
      delivered = h.delivered;
    },
    tt,
  )
