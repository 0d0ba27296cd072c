-- ===== src/Megaqueue/Reachable.antt =====
-- The states that a producer, a reader and a deleter of one queue can reach.
use trading_base.Base.{ℕ, ◌+◌, ◌^◌, ◌≤◌, ◌<◌, ◌≡◌, ◌≢◌, sym, ◌∙◌, arith}
use mathlib.Core.Path.{subst}
use native.Mathlib.Nat.{mod-eq_of_lt}
use trading_base.Megaqueue.{Megaqueue}
use trading_base.Megaqueue.Ring.{around-apart}
use trading_base.Megaqueue.Threads.{
  p_slot, c_slot, System, Step, produces, consumes, deletes, init, Reach, start, later,
}
use trading_base.Megaqueue.Safety.{
  IsQueue, Producing, Consuming, Deleting, Produces-IsQueue, Consumes-IsQueue, Deletes-IsQueue,
}
use trading_base.Megaqueue.Stable.{
  Consumes-Reads, Deletes-Reads, Producing-stable, Produces-Writes, Deletes-Writes,
  Consuming-stable, Produces-Leaves, Consumes-Leaves, Deleting-stable,
}

module _ (q : Megaqueue) (some_ : 0 < q.object_count) (few : q.object_count ≤ 2 ^ 32) where
  pub record IsSound (s : System) : Type 0 where
    pub queue : IsQueue q.object_count s.shared
    pub producing : Producing q.object_count s.shared s.producer
    pub consuming : Consuming q.object_count s.shared s.consumer
    pub deleting : Deleting q.object_count s.shared s.deleter

  init-IsSound : (objects : ℕ → ℕ) → IsSound (init objects)
  init-IsSound objects = record {
    queue = record {
      head_at = sym (mod-eq_of_lt some_);
      tail_at = sym (mod-eq_of_lt some_);
      delete_at = sym (mod-eq_of_lt some_);
      read_after = omega arith;
      written_after = omega arith;
      room = omega (arith, some_);
      kept = λ k lo hi. absurd (omega (arith, hi));
      delivered = λ k lo. absurd (omega (arith, lo));
    };
    producing = tt;
    consuming = tt;
    deleting = tt;
  }

  Step-IsSound : {s t : System} → Step q s t → IsSound s → IsSound t
  Step-IsSound {s} (produces m) h =
      let after = Produces-IsQueue q some_ few m h.queue h.producing in
      record {
        queue = after.0;
        producing = after.1;
        consuming = Consuming-stable q.object_count s.consumer (Produces-Writes m) h.consuming;
        deleting = Deleting-stable q.object_count s.deleter (Produces-Leaves m) h.deleting;
      }
  Step-IsSound {s} (consumes m) h =
      let after = Consumes-IsQueue q some_ few m h.queue h.consuming in
      record {
        queue = after.0;
        producing = Producing-stable q.object_count s.producer (Consumes-Reads m) h.producing;
        consuming = after.1;
        deleting = Deleting-stable q.object_count s.deleter (Consumes-Leaves m) h.deleting;
      }
  Step-IsSound {s} (deletes m) h =
      let after = Deletes-IsQueue q some_ few m h.queue h.deleting in
      record {
        queue = after.0;
        producing = Producing-stable q.object_count s.producer (Deletes-Reads m) h.producing;
        consuming = Consuming-stable q.object_count s.consumer (Deletes-Writes m) h.consuming;
        deleting = after.1;
      }

  apart :
      {s : System} → IsSound s → (o t : ℕ) → s.producer ≡ p_slot o → s.consumer ≡ c_slot t → o ≢ t
  apart {s} h o t at_o at_t =
      let mine : Producing q.object_count s.shared (p_slot o) =
        subst (Producing q.object_count s.shared) at_o h.producing in
      let theirs : Consuming q.object_count s.shared (c_slot t) =
        subst (Consuming q.object_count s.shared) at_t h.consuming in
      λ same.
        around-apart q.object_count s.shared.consumed s.shared.produced theirs.1
          (omega (arith, h.queue.read_after, h.queue.room)) (sym mine.0 ∙ same ∙ theirs.0)

  pub Reach-IsSound : {objects : ℕ → ℕ} {s : System} → Reach q objects s → IsSound s
  Reach-IsSound {objects} start = init-IsSound objects
  Reach-IsSound (later r m) = Step-IsSound m (Reach-IsSound r)

  -- With one producer, one reader and one deleter on a queue of 1 to 2 ^ 32 slots, in every state that any
  -- interleaving of their loads and stores reaches: the k-th object that was read is the k-th that was written, for
  -- each k below the number of objects read, and that is at most the number written; fewer than all slots are
  -- in use; and where the producer and the reader both hold a slot, these slots are different.
  pub Reach-fifo :
      {objects : ℕ → ℕ} {s : System}
      → Reach q objects s
      → ((k : ℕ) → k < s.shared.consumed → s.shared.received k ≡ s.shared.sent k)
        × (s.shared.consumed ≤ s.shared.produced)
        × (s.shared.produced < s.shared.deleted + q.object_count)
        × ((o t : ℕ) → s.producer ≡ p_slot o → s.consumer ≡ c_slot t → o ≢ t)
  Reach-fifo {s} r =
      let h = Reach-IsSound r in
      (
        h.queue.delivered,
        h.queue.written_after,
        h.queue.room,
        λ o t at_o at_t. apart h o t at_o at_t,
      )
