-- ===== src/Megaqueue/Tests.antt =====
-- Runs of a queue of four slots.
use trading_base.Base.{ℕ, ◌+◌, ◌≤◌, ◌<◌, ◌≡◌, ◌≢◌, refl, ◌==◌, if◌then◌else◌, arith}
use trading_base.ResultCode.{a_ok, a_e_nospc}
use trading_base.Megaqueue.{
  Megaqueue, MegaqueueHeader, slot_at, megaqueue_next_slot, megaqueue_advance,
  megaqueue_read_next_slot, megaqueue_read_advance, megaqueue_read_only_advance,
  megaqueue_delete_advance,
}
use trading_base.Megaqueue.Threads.{
  p_slot, c_slot, p_load_offset, p_load_head, space, write, p_load_again, not_full, p_load_last,
  store_head, c_load_offset, c_load_head, object, read, c_load_again, there, c_load_last,
  store_tail, System, produces, consumes, init, Reach, start, later,
}
use trading_base.Megaqueue.Reachable.{Reach-fifo}
use trading_base.Megaqueue.Calls.{
  Counts, IsCounted, produce, consume, discard, consume_and_discard, Does, calls-Does,
}

abbrev four : Megaqueue
four = record { object_size = 16; object_count = 4; writable_start = 4096 }

abbrev blank : ℕ → ℕ
blank i = 0

-- 7 is written and read.
abbrev after : System
after = record (init blank) {
  shared = record (init blank).shared {
    head = 1;
    tail = 1;
    produced = 1;
    consumed = 1;
    objects = λ i. if i == 0 then 7 else 0;
    sent = λ i. if i == 0 then 7 else 0;
    received = λ i. if i == 0 then 7 else 0;
  };
}

run : Reach four blank after
run =
    later
      (later
        (later
          (later
            (later
              (later
                (later
                  (later
                    (later
                      (later
                        (later
                          (later
                            (later
                              (later
                                (later (later (start) (consumes c_load_offset))
                                  (produces p_load_offset))
                                (produces p_load_head))
                              (produces (space (ground arith))))
                            (produces (write 7)))
                          (produces p_load_again))
                        (produces (not_full (ground arith))))
                      (produces p_load_last))
                    (produces store_head))
                  (consumes c_load_head))
                (consumes (object (ground arith))))
              (consumes read))
            (consumes c_load_again))
          (consumes (there (ground arith))))
        (consumes c_load_last))
      (consumes store_tail)

Reach-fifo_example :
    ((k : ℕ) → k < 1 → after.shared.received k ≡ after.shared.sent k)
    × (after.shared.consumed ≤ after.shared.produced)
    × (after.shared.produced < after.shared.deleted + four.object_count)
    × ((o t : ℕ) → after.producer ≡ p_slot o → after.consumer ≡ c_slot t → o ≢ t)
Reach-fifo_example = Reach-fifo four (omega arith) (omega arith) run

-- Five produced, three read, two deleted.
abbrev header : MegaqueueHeader
header = record { head = 1; tail = 3; delete = 2 }

abbrev counts : Counts
counts = record { produced = 5; consumed = 3; deleted = 2 }

header-IsCounted : IsCounted 4 header counts
header-IsCounted = record {
  head_at = refl;
  tail_at = refl;
  delete_at = refl;
  read_after = omega arith;
  written_after = omega arith;
  room = omega arith;
}

calls-Does_example :
    (megaqueue_next_slot four header 0 ≡ (a_e_nospc, 0))
    × (megaqueue_read_next_slot four header ≡ (a_ok, slot_at four 3))
    × Does four (omega arith) (omega arith) (megaqueue_advance four header) (produce 4 counts)
    × Does four
        (omega arith)
        (omega arith)
        (megaqueue_read_only_advance four header)
        (consume counts)
    × Does four (omega arith) (omega arith) (megaqueue_delete_advance four header) (discard counts)
    × Does four
        (omega arith)
        (omega arith)
        (megaqueue_read_advance four header)
        (consume_and_discard counts)
calls-Does_example = calls-Does four (omega arith) (omega arith) header counts 0 header-IsCounted
