-- ===== src/WorkQueue/Fifo.antt =====
-- The queues of tsl/work_queue.h against a list of at most max_items - 1 pointers.
use trading_base.Base.{
  ℕ, ◌+◌, ◌^◌, ◌<◌, ◌≡◌, ap, Bool, true, false, ◌==◌, ltb, if◌then◌else◌, List, [], ◌∷◌, ◌++◌,
  length,
}
use trading_base.ResultCode.{AResult, a_ok, a_e_badargs, a_e_busy, a_e_empty}
use trading_base.WorkQueue.{
  CkRing, WorkQueue, work_queue_push, work_queue_pop, work_queue_spmc_push, work_queue_spmc_pop,
}

-- The head of a list, or what was there.
abbrev pub head_or : List ℕ → ℕ → ℕ
head_or [] d = d
head_or (x ∷ xs) d = x

abbrev pub tail_of : List ℕ → List ℕ
tail_of [] = []
tail_of (x ∷ xs) = xs

abbrev pub has_any : List ℕ → Bool
has_any [] = false
has_any (x ∷ xs) = true

-- A ring of n cells takes n - 1 pointers, in order; what its calls do shows in its contents.
pub record IsCkRing {Ring : Type 0} (ck : CkRing Ring) (contents : Ring → List ℕ) : Type 0 where
  pub init_empty : (r : Ring) (n : ℕ) → contents (ck.init r n) ≡ []
  pub init_capacity : (r : Ring) (n : ℕ) → n < 2 ^ 32 → ck.capacity (ck.init r n) ≡ n
  pub spsc_put :
      (r : Ring) (x : ℕ) → (ck.enqueue_spsc r x).0 ≡ ltb (length (contents r) + 1) (ck.capacity r)
  pub spsc_added :
      (r : Ring) (x : ℕ)
      → contents (ck.enqueue_spsc r x).1 ≡ (
          if ltb (length (contents r) + 1) (ck.capacity r)
          then contents r ++ (x ∷ [])
          else contents r)
  pub spsc_put_capacity : (r : Ring) (x : ℕ) → ck.capacity (ck.enqueue_spsc r x).1 ≡ ck.capacity r
  pub spsc_got :
      (r : Ring) (d : ℕ)
      → ((ck.dequeue_spsc r d).0 ≡ has_any (contents r))
        × ((ck.dequeue_spsc r d).1 ≡ head_or (contents r) d)
  pub spsc_taken : (r : Ring) (d : ℕ) → contents (ck.dequeue_spsc r d).2 ≡ tail_of (contents r)
  pub spsc_got_capacity : (r : Ring) (d : ℕ) → ck.capacity (ck.dequeue_spsc r d).2 ≡ ck.capacity r
  pub spmc_put :
      (r : Ring) (x : ℕ) → (ck.enqueue_spmc r x).0 ≡ ltb (length (contents r) + 1) (ck.capacity r)
  pub spmc_added :
      (r : Ring) (x : ℕ)
      → contents (ck.enqueue_spmc r x).1 ≡ (
          if ltb (length (contents r) + 1) (ck.capacity r)
          then contents r ++ (x ∷ [])
          else contents r)
  pub spmc_got :
      (r : Ring) (d : ℕ)
      → ((ck.dequeue_spmc r d).0 ≡ has_any (contents r))
        × ((ck.dequeue_spmc r d).1 ≡ head_or (contents r) d)
  pub spmc_taken : (r : Ring) (d : ℕ) → contents (ck.dequeue_spmc r d).2 ≡ tail_of (contents r)
  pub size_is : (r : Ring) → ck.size r ≡ length (contents r)

pub data Call : Type 0 where
  push : ℕ → Call
  pop : Call

-- What a call shows: its result, and the pointer that a pop gives, 0 for a push.
module _ {Ring : Type 0} (ck : CkRing Ring) where
  unfoldable pub calls : List Call → WorkQueue Ring → List (AResult × ℕ) × WorkQueue Ring
  calls [] q = ([], q)
  calls (push x ∷ more) q =
      let rest = calls more (work_queue_push ck q x).1 in
      (((work_queue_push ck q x).0, 0) ∷ rest.0, rest.1)
  calls (pop ∷ more) q =
      let rest = calls more (work_queue_pop ck q 0).2 in
      (((work_queue_pop ck q 0).0, (work_queue_pop ck q 0).1) ∷ rest.0, rest.1)

-- The same on a list of at most n - 1 pointers, where no NULL goes in.
abbrev pub bounded : ℕ → List ℕ → List Call → List (AResult × ℕ)
bounded n xs [] = []
bounded n xs (push x ∷ more) =
    if x == 0
    then (a_e_badargs, 0) ∷ bounded n xs more
    else ((if ltb (length xs + 1) n then a_ok else a_e_busy, 0)
        ∷ bounded n (if ltb (length xs + 1) n then xs ++ (x ∷ []) else xs) more)
bounded n xs (pop ∷ more) = (a_ok, head_or xs 0) ∷ bounded n (tail_of xs) more

module _ {Ring : Type 0} (ck : CkRing Ring) (contents : Ring → List ℕ)
    (law : IsCkRing ck contents) where
  -- The queue has its buffer, n cells and the pointers xs.
  pub record HasContents (q : WorkQueue Ring) (n : ℕ) (xs : List ℕ) : Type 0 where
    pub buffered : q.buffer ≡ true
    pub cells : ck.capacity q.fifo ≡ n
    pub has : contents q.fifo ≡ xs

  -- Over a ring that takes n - 1 pointers in order: where there is room, work_queue_spmc_push puts the message
  -- in and returns A_E_BUSY, and where there is none it drops the message and returns A_OK; and where messages are
  -- in, work_queue_spmc_pop takes the first one out and returns A_E_EMPTY, and where none are it returns A_OK.
  pub spmc_results :
      (q : WorkQueue Ring) (message : ℕ)
      → ((work_queue_spmc_push ck q message).0
          ≡ (if ltb (length (contents q.fifo) + 1) (ck.capacity q.fifo) then a_e_busy else a_ok))
        × (contents (work_queue_spmc_push ck q message).1.fifo ≡ (
            if ltb (length (contents q.fifo) + 1) (ck.capacity q.fifo)
            then contents q.fifo ++ (message ∷ [])
            else contents q.fifo))
        × ((work_queue_spmc_pop ck q message).0
            ≡ (if has_any (contents q.fifo) then a_e_empty else a_ok))
        × ((work_queue_spmc_pop ck q message).1 ≡ head_or (contents q.fifo) message)
        × (contents (work_queue_spmc_pop ck q message).2.fifo ≡ tail_of (contents q.fifo))
  unfolding work_queue_spmc_push work_queue_spmc_pop
  spmc_results q message = (
    ap (λ b. if b then a_e_busy else a_ok) (law.spmc_put q.fifo message),
    law.spmc_added q.fifo message,
    ap (λ b. if b then a_e_empty else a_ok) (law.spmc_got q.fifo message).0,
    (law.spmc_got q.fifo message).1,
    law.spmc_taken q.fifo message,
  )
