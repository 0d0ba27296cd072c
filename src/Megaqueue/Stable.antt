-- ===== src/Megaqueue/Stable.antt =====
-- What one thread of a queue knows is still so after a step of another.
use trading_base.Base.{ℕ, ◌≤◌, ◌<◌, ◌≡◌, refl, arith}
use trading_base.Megaqueue.{Megaqueue}
use trading_base.Megaqueue.Threads.{
  Shared, Producer, p_next, p_head, p_check, p_slot, p_filled, p_full, p_room, p_store, Consumer,
  c_next, c_tail, c_check, c_slot, c_read, c_empty, c_room, c_store, Deleter, d_next, d_tail,
  d_room, d_store, Produces, p_load_offset, p_load_head, no_space, space, write, p_load_again,
  still_full, not_full, p_load_last, store_head, Consumes, c_load_offset, c_load_head, no_object,
  object, read, c_load_again, gone, there, c_load_last, store_tail, Deletes, d_load_tail, nothing,
  something, d_load_last, store_delete,
}
use trading_base.Megaqueue.Safety.{Producing, Consuming, Deleting, Seen}

-- What a step of the reader or the deleter leaves to the producer.
pub record Reads (g g' : Shared) : Type 0 where
  pub produced_kept : g'.produced ≡ g.produced
  pub objects_kept : g'.objects ≡ g.objects
  pub sent_kept : g'.sent ≡ g.sent
  pub deleted_grows : g.deleted ≤ g'.deleted

unchanged : {g : Shared} → Reads g g
unchanged = record {
  produced_kept = refl;
  objects_kept = refl;
  sent_kept = refl;
  deleted_grows = omega arith;
}

-- What a step of the producer or the deleter leaves to the reader.
pub record Writes (g g' : Shared) : Type 0 where
  pub consumed_kept : g'.consumed ≡ g.consumed
  pub received_kept : g'.received ≡ g.received
  pub produced_grows : g.produced ≤ g'.produced
  pub sent_grows : (k : ℕ) → k < g.produced → g'.sent k ≡ g.sent k

pub Consumes-Reads :
    {q : Megaqueue} {g g' : Shared} {c c' : Consumer} → Consumes q g c g' c' → Reads g g'
Consumes-Reads c_load_offset = unchanged
Consumes-Reads c_load_head = unchanged
Consumes-Reads (no_object _) = unchanged
Consumes-Reads (object _) = unchanged
Consumes-Reads read = record {
  produced_kept = refl;
  objects_kept = refl;
  sent_kept = refl;
  deleted_grows = omega arith;
}
Consumes-Reads c_load_again = unchanged
Consumes-Reads (gone _) = unchanged
Consumes-Reads (there _) = unchanged
Consumes-Reads c_load_last = unchanged
Consumes-Reads store_tail = record {
  produced_kept = refl;
  objects_kept = refl;
  sent_kept = refl;
  deleted_grows = omega arith;
}

pub Deletes-Reads :
    {q : Megaqueue} {g g' : Shared} {d d' : Deleter} → Deletes q g d g' d' → Reads g g'
Deletes-Reads d_load_tail = unchanged
Deletes-Reads (nothing _) = unchanged
Deletes-Reads (something _) = unchanged
Deletes-Reads d_load_last = unchanged
Deletes-Reads store_delete = record {
  produced_kept = refl;
  objects_kept = refl;
  sent_kept = refl;
  deleted_grows = omega arith;
}

pub Producing-stable :
    (n : ℕ) {g g' : Shared} (p : Producer) → Reads g g' → Producing n g p → Producing n g' p
Producing-stable n p_next r own = tt
Producing-stable n (p_head o) r own = ground (arith, r.produced_kept)
Producing-stable n (p_check o h) r own = ground (arith, r.produced_kept)
Producing-stable n (p_slot o) r own = ground (arith, r.produced_kept, r.deleted_grows)
Producing-stable n p_filled r own =
    ground (arith, r.produced_kept, r.deleted_grows, r.objects_kept, r.sent_kept)
Producing-stable n (p_full h) r own =
    ground (arith, r.produced_kept, r.deleted_grows, r.objects_kept, r.sent_kept)
Producing-stable n p_room r own =
    ground (arith, r.produced_kept, r.deleted_grows, r.objects_kept, r.sent_kept)
Producing-stable n (p_store o) r own =
    ground (arith, r.produced_kept, r.deleted_grows, r.objects_kept, r.sent_kept)

as_before : {g : Shared} → Writes g g
as_before = record {
  consumed_kept = refl;
  received_kept = refl;
  produced_grows = omega arith;
  sent_grows = λ k lt. refl;
}

pub Produces-Writes :
    {q : Megaqueue} {g g' : Shared} {p p' : Producer} → Produces q g p g' p' → Writes g g'
Produces-Writes p_load_offset = as_before
Produces-Writes p_load_head = as_before
Produces-Writes (no_space _) = as_before
Produces-Writes (space _) = as_before
Produces-Writes (write value) = record {
  consumed_kept = refl;
  received_kept = refl;
  produced_grows = omega arith;
  sent_grows = λ k lt. ground arith;
}
Produces-Writes p_load_again = as_before
Produces-Writes (still_full _) = as_before
Produces-Writes (not_full _) = as_before
Produces-Writes p_load_last = as_before
Produces-Writes store_head = record {
  consumed_kept = refl;
  received_kept = refl;
  produced_grows = omega arith;
  sent_grows = λ k lt. refl;
}

pub Deletes-Writes :
    {q : Megaqueue} {g g' : Shared} {d d' : Deleter} → Deletes q g d g' d' → Writes g g'
Deletes-Writes d_load_tail = as_before
Deletes-Writes (nothing _) = as_before
Deletes-Writes (something _) = as_before
Deletes-Writes d_load_last = as_before
Deletes-Writes store_delete = record {
  consumed_kept = refl;
  received_kept = refl;
  produced_grows = omega arith;
  sent_grows = λ k lt. refl;
}

Seen-grows : {h a b b' : ℕ} (n : ℕ) → b ≤ b' → Seen n h a b → Seen n h a b'
Seen-grows n le (k, e, lo, hi) = (k, e, lo, omega (arith, le, hi))

Received-stable :
    {g g' : Shared}
    → Writes g g'
    → g.received g.consumed ≡ g.sent g.consumed
    → g.consumed < g.produced
    → g'.received g'.consumed ≡ g'.sent g'.consumed
Received-stable {g} w v lt =
    let same = w.sent_grows g.consumed lt in ground (arith, w.consumed_kept, w.received_kept)

pub Consuming-stable :
    (n : ℕ) {g g' : Shared} (c : Consumer) → Writes g g' → Consuming n g c → Consuming n g' c
Consuming-stable n c_next w own = tt
Consuming-stable n (c_tail o) w own = ground (arith, w.consumed_kept)
Consuming-stable n {g} {g'} (c_check o h) w (at, (k, e, lo, hi)) = (
  ground (arith, w.consumed_kept),
  (k, e, omega (arith, w.consumed_kept, lo), omega (arith, w.produced_grows, hi)),
)
Consuming-stable n (c_slot o) w own = ground (arith, w.consumed_kept, w.produced_grows)
Consuming-stable n {g} c_read w (v, lt) =
    (Received-stable w v lt, omega (arith, w.consumed_kept, w.produced_grows, lt))
Consuming-stable n (c_empty h) w (v, lt, (k, e, lo, hi)) = (
  Received-stable w v lt,
  omega (arith, w.consumed_kept, w.produced_grows, lt),
  (k, e, omega (arith, w.consumed_kept, lo), omega (arith, w.produced_grows, hi)),
)
Consuming-stable n c_room w (v, lt) =
    (Received-stable w v lt, omega (arith, w.consumed_kept, w.produced_grows, lt))
Consuming-stable n (c_store o) w (at, v, lt) = (
  ground (arith, w.consumed_kept),
  Received-stable w v lt,
  omega (arith, w.consumed_kept, w.produced_grows, lt),
)

-- What a step of the producer or the reader leaves to the deleter.
pub record Leaves (g g' : Shared) : Type 0 where
  pub deleted_kept : g'.deleted ≡ g.deleted
  pub consumed_grows : g.consumed ≤ g'.consumed

left_alone : {g : Shared} → Leaves g g
left_alone = record { deleted_kept = refl; consumed_grows = omega arith }

pub Produces-Leaves :
    {q : Megaqueue} {g g' : Shared} {p p' : Producer} → Produces q g p g' p' → Leaves g g'
Produces-Leaves p_load_offset = left_alone
Produces-Leaves p_load_head = left_alone
Produces-Leaves (no_space _) = left_alone
Produces-Leaves (space _) = left_alone
Produces-Leaves (write _) = record { deleted_kept = refl; consumed_grows = omega arith }
Produces-Leaves p_load_again = left_alone
Produces-Leaves (still_full _) = left_alone
Produces-Leaves (not_full _) = left_alone
Produces-Leaves p_load_last = left_alone
Produces-Leaves store_head = record { deleted_kept = refl; consumed_grows = omega arith }

pub Consumes-Leaves :
    {q : Megaqueue} {g g' : Shared} {c c' : Consumer} → Consumes q g c g' c' → Leaves g g'
Consumes-Leaves c_load_offset = left_alone
Consumes-Leaves c_load_head = left_alone
Consumes-Leaves (no_object _) = left_alone
Consumes-Leaves (object _) = left_alone
Consumes-Leaves read = record { deleted_kept = refl; consumed_grows = omega arith }
Consumes-Leaves c_load_again = left_alone
Consumes-Leaves (gone _) = left_alone
Consumes-Leaves (there _) = left_alone
Consumes-Leaves c_load_last = left_alone
Consumes-Leaves store_tail = record { deleted_kept = refl; consumed_grows = omega arith }

pub Deleting-stable :
    (n : ℕ) {g g' : Shared} (d : Deleter) → Leaves g g' → Deleting n g d → Deleting n g' d
Deleting-stable n d_next w own = tt
Deleting-stable n (d_tail t) w (k, e, lo, hi) =
    (k, e, omega (arith, w.deleted_kept, lo), omega (arith, w.consumed_grows, hi))
Deleting-stable n d_room w own = omega (arith, w.deleted_kept, w.consumed_grows, own)
Deleting-stable n (d_store o) w own = ground (arith, w.deleted_kept, w.consumed_grows)
