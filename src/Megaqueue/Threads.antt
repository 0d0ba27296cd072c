-- ===== src/Megaqueue/Threads.antt =====
-- A producer, a reader and a deleter over one queue, interleaved in any order: one step for each load and each
-- store of a shared word. The object of a slot is a value at its index.
use trading_base.Base.{ℕ, ◌+◌, ◌≡◌, ◌≢◌, ◌==◌, if◌then◌else◌}
use trading_base.Megaqueue.{Megaqueue, advance}

-- The shared words and objects. Beside them stands what no thread reads: how many slots were produced, read
-- and deleted so far, the object that was written as the k-th one, and the one that was read as the k-th.
pub record Shared : Type 0 where
  pub head : ℕ
  pub tail : ℕ
  pub delete : ℕ
  pub objects : ℕ → ℕ
  pub produced : ℕ
  pub consumed : ℕ
  pub deleted : ℕ
  pub sent : ℕ → ℕ
  pub received : ℕ → ℕ

-- megaqueue_next_slot, a write to the slot, megaqueue_advance.
pub data Producer : Type 0 where
  p_next : Producer  -- before megaqueue_next_slot
  p_head : (offset : ℕ) → Producer  -- in __megaqueue_is_full, before its loads
  p_check : (offset : ℕ) → (head : ℕ) → Producer  -- head is loaded
  p_slot : (offset : ℕ) → Producer  -- the slot is given out
  p_filled : Producer  -- before megaqueue_advance
  p_full : (head : ℕ) → Producer  -- in __megaqueue_is_full
  p_room : Producer  -- before the load of head
  p_store : (offset : ℕ) → Producer  -- before the store of head

-- megaqueue_read_next_slot, a read of the slot, megaqueue_read_only_advance.
pub data Consumer : Type 0 where
  c_next : Consumer
  c_tail : (offset : ℕ) → Consumer  -- in __megaqueue_is_empty
  c_check : (offset : ℕ) → (head : ℕ) → Consumer  -- head is loaded
  c_slot : (offset : ℕ) → Consumer  -- the slot is given out
  c_read : Consumer  -- before megaqueue_read_only_advance
  c_empty : (head : ℕ) → Consumer  -- in __megaqueue_is_empty
  c_room : Consumer
  c_store : (offset : ℕ) → Consumer

-- megaqueue_delete_advance.
pub data Deleter : Type 0 where
  d_next : Deleter
  d_tail : (tail : ℕ) → Deleter  -- in __megaqueue_can_delete
  d_room : Deleter
  d_store : (offset : ℕ) → Deleter

pub record System : Type 0 where
  pub shared : Shared
  pub producer : Producer
  pub consumer : Consumer
  pub deleter : Deleter

-- A region that is new, and so filled with zeros: megaqueue_prepare_superblock stores only the head, and a region that is opened
-- again keeps its other indices, which is not covered.
abbrev pub init : (ℕ → ℕ) → System
init objects = record {
  shared = record {
    head = 0;
    tail = 0;
    delete = 0;
    objects = objects;
    produced = 0;
    consumed = 0;
    deleted = 0;
    sent = objects;
    received = objects;
  };
  producer = p_next;
  consumer = c_next;
  deleter = d_next;
}

module _ (q : Megaqueue) where
  pub data Produces (g : Shared) : Producer → Shared → Producer → Type 0 where
    p_load_offset : Produces g p_next g (p_head g.head)
    p_load_head : {o : ℕ} → Produces g (p_head o) g (p_check o g.head)
    no_space : {o h : ℕ} → g.delete ≡ advance q h → Produces g (p_check o h) g p_next
    space : {o h : ℕ} → g.delete ≢ advance q h → Produces g (p_check o h) g (p_slot o)
    write :
        {o : ℕ} (object : ℕ)
        → Produces g
            (p_slot o)
            (record g {
              objects = λ i. if i == o then object else g.objects i;
              sent = λ k. if k == g.produced then object else g.sent k;
            })
            p_filled
    p_load_again : Produces g p_filled g (p_full g.head)
    still_full : {h : ℕ} → g.delete ≡ advance q h → Produces g (p_full h) g p_filled
    not_full : {h : ℕ} → g.delete ≢ advance q h → Produces g (p_full h) g p_room
    p_load_last : Produces g p_room g (p_store g.head)
    store_head :
        {o : ℕ}
        → Produces g (p_store o) (record g { head = advance q o; produced = g.produced + 1 }) p_next

  pub data Consumes (g : Shared) : Consumer → Shared → Consumer → Type 0 where
    c_load_offset : Consumes g c_next g (c_tail g.tail)
    c_load_head : {o : ℕ} → Consumes g (c_tail o) g (c_check o g.head)
    no_object : {o h : ℕ} → g.tail ≡ h → Consumes g (c_check o h) g c_next
    object : {o h : ℕ} → g.tail ≢ h → Consumes g (c_check o h) g (c_slot o)
    read :
        {o : ℕ}
        → Consumes g
            (c_slot o)
            (record g { received = λ k. if k == g.consumed then g.objects o else g.received k })
            c_read
    c_load_again : Consumes g c_read g (c_empty g.head)
    gone : {h : ℕ} → g.tail ≡ h → Consumes g (c_empty h) g c_next
    there : {h : ℕ} → g.tail ≢ h → Consumes g (c_empty h) g c_room
    c_load_last : Consumes g c_room g (c_store g.tail)
    store_tail :
        {o : ℕ}
        → Consumes g (c_store o) (record g { tail = advance q o; consumed = g.consumed + 1 }) c_next

  pub data Deletes (g : Shared) : Deleter → Shared → Deleter → Type 0 where
    d_load_tail : Deletes g d_next g (d_tail g.tail)
    nothing : {t : ℕ} → t ≡ g.delete → Deletes g (d_tail t) g d_next
    something : {t : ℕ} → t ≢ g.delete → Deletes g (d_tail t) g d_room
    d_load_last : Deletes g d_room g (d_store g.delete)
    store_delete :
        {o : ℕ}
        → Deletes g (d_store o) (record g { delete = advance q o; deleted = g.deleted + 1 }) d_next

  pub data Step (s : System) : System → Type 0 where
    produces :
        {g : Shared} {p : Producer}
        → Produces s.shared s.producer g p
        → Step s (record s { shared = g; producer = p })
    consumes :
        {g : Shared} {c : Consumer}
        → Consumes s.shared s.consumer g c
        → Step s (record s { shared = g; consumer = c })
    deletes :
        {g : Shared} {d : Deleter}
        → Deletes s.shared s.deleter g d
        → Step s (record s { shared = g; deleter = d })

  pub data Reach (objects : ℕ → ℕ) : System → Type 0 where
    start : Reach objects (init objects)
    later : {s t : System} → Reach objects s → Step s t → Reach objects t
