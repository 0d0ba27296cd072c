-- ===== src/WorkQueue/Tests.antt =====
-- Runs of a work queue over a ring that is a list with a number of cells.
use trading_base.Base.{
  ℕ, ◌+◌, ◌≡◌, refl, Bool, true, false, ltb, if◌then◌else◌, List, [], ◌∷◌, ◌++◌, length,
}
use trading_base.ResultCode.{a_e_busy, a_e_empty}
use trading_base.WorkQueue.{CkRing, WorkQueue, work_queue_spmc_push, work_queue_spmc_pop}
use trading_base.WorkQueue.Fifo.{head_or, tail_of, has_any, IsCkRing, spmc_results}

record Cells : Type 0 where
  items : List ℕ
  cells : ℕ

abbrev put : Cells → ℕ → Bool × Cells
put r x = (
  ltb (length r.items + 1) r.cells,
  record r { items = if ltb (length r.items + 1) r.cells then r.items ++ (x ∷ []) else r.items },
)

abbrev got : Cells → ℕ → Bool × ℕ × Cells
got r d = (has_any r.items, head_or r.items d, record r { items = tail_of r.items })

abbrev plain : CkRing Cells
plain = record {
  zeroed = record { items = []; cells = 0 };
  init = λ r n. record { items = []; cells = n };
  enqueue_spsc = put;
  dequeue_spsc = got;
  enqueue_spmc = put;
  dequeue_spmc = got;
  size = λ r. length r.items;
  capacity = λ r. r.cells;
}

plain-IsCkRing : IsCkRing plain (λ r. r.items)
plain-IsCkRing = record {
  init_empty = λ r n. refl;
  init_capacity = λ r n lt. refl;
  spsc_put = λ r x. refl;
  spsc_added = λ r x. refl;
  spsc_put_capacity = λ r x. refl;
  spsc_got = λ r d. (refl, refl);
  spsc_taken = λ r d. refl;
  spsc_got_capacity = λ r d. refl;
  spmc_put = λ r x. refl;
  spmc_added = λ r x. refl;
  spmc_got = λ r d. (refl, refl);
  spmc_taken = λ r d. refl;
  size_is = λ r. refl;
}

abbrev raw : WorkQueue Cells
raw = record { fifo = plain.zeroed; max_items = 0; buffer = false }

abbrev holding : WorkQueue Cells
holding = record { fifo = record { items = 7 ∷ []; cells = 8 }; max_items = 8; buffer = true }

spmc_results_example :
    ((work_queue_spmc_push plain holding 9).0 ≡ a_e_busy)
    × ((work_queue_spmc_push plain holding 9).1.fifo.items ≡ 7 ∷ 9 ∷ [])
    × ((work_queue_spmc_pop plain holding 9).0 ≡ a_e_empty)
    × ((work_queue_spmc_pop plain holding 9).1 ≡ 7)
    × ((work_queue_spmc_pop plain holding 9).2.fifo.items ≡ [])
spmc_results_example = spmc_results plain (λ r. r.items) plain-IsCkRing holding 9
