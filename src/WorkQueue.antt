-- ===== src/WorkQueue.antt =====
-- tsl/work_queue.h: a queue of pointers over a ring of Concurrency Kit, which is a parameter, like calloc. The pointers to
-- the queue and to the values that are stored for the caller are not NULL; a pointer that is queued is its address.
pub mod Fifo
mod Tests
use Prim.Native.Nat.{bit_and}
use trading_base.Base.{
  ℕ, ◌+◌, ◌-◌, ◌%◌, ◌^◌, Bool, true, false, ◌&&◌, ◌||◌, not, ◌==◌, ltb, if◌then◌else◌, List, [],
}
use trading_base.ResultCode.{AResult, a_ok, a_e_badargs, a_e_nomem, a_e_busy, a_e_empty}

-- The calls of ck_ring.h, on the ring and its buffer as one value. An enqueue tells whether it has put the
-- pointer in; a dequeue tells whether it has taken one out and gives what is stored for the caller then.
pub record CkRing (Ring : Type 0) : Type 0 where
  pub zeroed : Ring
  pub init : Ring → ℕ → Ring
  pub enqueue_spsc : Ring → ℕ → Bool × Ring
  pub dequeue_spsc : Ring → ℕ → Bool × ℕ × Ring
  pub enqueue_spmc : Ring → ℕ → Bool × Ring
  pub dequeue_spmc : Ring → ℕ → Bool × ℕ × Ring
  pub size : Ring → ℕ
  pub capacity : Ring → ℕ

-- `buffer` tells whether the pointer is not NULL.
pub record WorkQueue (Ring : Type 0) : Type 0 where
  pub fifo : Ring
  pub max_items : ℕ
  pub buffer : Bool

module _ {Ring : Type 0} (ck : CkRing Ring) where
  abbrev pub zero_queue : WorkQueue Ring
  zero_queue = record { fifo = ck.zeroed; max_items = 0; buffer = false }

  -- `calloc` tells whether there is memory. The size of the ring is an unsigned int, so max_items loses its upper half.
  unfoldable pub work_queue_new : Bool → WorkQueue Ring → ℕ → AResult × WorkQueue Ring
  work_queue_new calloc queue max_items =
      if not (ltb 4 max_items) || not (bit_and max_items (max_items - 1) == 0)
      then (a_e_badargs, queue)
      else (if calloc
          then (
            a_ok,
            record {
              fifo = ck.init ck.zeroed (max_items % 2 ^ 32);
              max_items = max_items;
              buffer = true;
            },
          )
          else (a_e_nomem, zero_queue))

  unfoldable pub work_queue_release : WorkQueue Ring → AResult × WorkQueue Ring
  work_queue_release queue = (a_ok, zero_queue)

  unfoldable pub work_queue_push : WorkQueue Ring → ℕ → AResult × WorkQueue Ring
  work_queue_push queue ptr =
      if (ptr == 0) || not queue.buffer
      then (a_e_badargs, queue)
      else (let put = ck.enqueue_spsc queue.fifo ptr in
          (if put.0 then a_ok else a_e_busy, record queue { fifo = put.1 }))

  -- It gives the value that is stored for the caller, `ptr` before the call.
  unfoldable pub work_queue_pop : WorkQueue Ring → ℕ → AResult × ℕ × WorkQueue Ring
  work_queue_pop queue ptr =
      if queue.buffer
      then (let got = ck.dequeue_spsc queue.fifo ptr in
          (a_ok, if got.0 then got.1 else 0, record queue { fifo = got.2 }))
      else (a_e_badargs, ptr, queue)

  unfoldable pub work_queue_fill : WorkQueue Ring → ℕ → AResult × ℕ
  work_queue_fill queue fill =
      if queue.buffer then (a_ok, ck.size queue.fifo) else (a_e_badargs, fill)

  unfoldable pub work_queue_size : WorkQueue Ring → ℕ → AResult × ℕ
  work_queue_size queue size =
      if queue.buffer then (a_ok, ck.capacity queue.fifo) else (a_e_badargs, size)

  unfoldable pub work_queue_spmc_new : Bool → WorkQueue Ring → ℕ → AResult × WorkQueue Ring
  work_queue_spmc_new calloc q nr_items = work_queue_new calloc q nr_items

  unfoldable pub work_queue_spmc_push : WorkQueue Ring → ℕ → AResult × WorkQueue Ring
  work_queue_spmc_push q message =
      let put = ck.enqueue_spmc q.fifo message in
      (if put.0 then a_e_busy else a_ok, record q { fifo = put.1 })

  unfoldable pub work_queue_spmc_pop : WorkQueue Ring → ℕ → AResult × ℕ × WorkQueue Ring
  work_queue_spmc_pop q message =
      let got = ck.dequeue_spmc q.fifo message in
      (if got.0 then a_e_empty else a_ok, got.1, record q { fifo = got.2 })

  unfoldable pub work_queue_spmc_release : WorkQueue Ring → AResult × WorkQueue Ring
  work_queue_spmc_release q = work_queue_release q
