-- ===== src/Megaqueue.antt =====
-- tsl/megaqueue/megaqueue.h and tsl/megaqueue/megaqueue_priv.h: a ring of slots in shared memory, with a head for
-- the producer, a tail for the reader and a third index for the slots that may be written again. The pointers are
-- not NULL, and the header is the one in the shared region.
pub mod Ring
pub mod Calls
pub mod Threads
pub mod Safety
pub mod Stable
pub mod Reachable
mod Tests
use trading_base.Base.{ℕ, ◌+◌, ◌*◌, ◌%◌, ◌^◌, Bool, ◌==◌, if◌then◌else◌}
use trading_base.ResultCode.{AResult, a_ok, a_e_nospc, a_e_empty}

-- The indices of struct megaqueue_header.
pub record MegaqueueHeader : Type 0 where
  pub head : ℕ
  pub tail : ℕ
  pub delete : ℕ

-- `object_size`, `object_count` and `writable_start` of struct megaqueue.
pub record Megaqueue : Type 0 where
  pub object_size : ℕ
  pub object_count : ℕ
  pub writable_start : ℕ

-- `(offset + 1) % queue->object_count`, on 64-bit words.
abbrev pub advance : Megaqueue → ℕ → ℕ
advance q offset = (offset + 1) % 2 ^ 64 % q.object_count

-- `queue->writable_start + (queue->object_size * offset)`
abbrev pub slot_at : Megaqueue → ℕ → ℕ
slot_at q offset = q.writable_start + q.object_size * offset

abbrev pub megaqueue_is_full : Megaqueue → MegaqueueHeader → Bool
megaqueue_is_full q hdr = hdr.delete == advance q hdr.head

abbrev pub megaqueue_is_empty : MegaqueueHeader → Bool
megaqueue_is_empty hdr = hdr.tail == hdr.head

-- It answers whether the read index is at the delete index.
abbrev pub megaqueue_can_delete : MegaqueueHeader → Bool
megaqueue_can_delete hdr = hdr.tail == hdr.delete

-- `slot` is the out-parameter before the call.
unfoldable pub megaqueue_next_slot : Megaqueue → MegaqueueHeader → ℕ → AResult × ℕ
megaqueue_next_slot q hdr slot =
    if megaqueue_is_full q hdr then (a_e_nospc, slot) else (a_ok, slot_at q hdr.head)

unfoldable pub megaqueue_advance : Megaqueue → MegaqueueHeader → AResult × MegaqueueHeader
megaqueue_advance q hdr =
    if megaqueue_is_full q hdr
    then (a_e_nospc, hdr)
    else (a_ok, record hdr { head = advance q hdr.head })

unfoldable pub megaqueue_read_next_slot : Megaqueue → MegaqueueHeader → AResult × ℕ
megaqueue_read_next_slot q hdr =
    if megaqueue_is_empty hdr then (a_e_empty, 0) else (a_ok, slot_at q hdr.tail)

unfoldable pub megaqueue_read_advance : Megaqueue → MegaqueueHeader → AResult × MegaqueueHeader
megaqueue_read_advance q hdr =
    if megaqueue_is_empty hdr
    then (a_e_empty, hdr)
    else (a_ok, record hdr { tail = advance q hdr.tail; delete = advance q hdr.tail })

unfoldable pub megaqueue_read_only_advance : Megaqueue → MegaqueueHeader → AResult × MegaqueueHeader
megaqueue_read_only_advance q hdr =
    if megaqueue_is_empty hdr
    then (a_e_empty, hdr)
    else (a_ok, record hdr { tail = advance q hdr.tail })

unfoldable pub megaqueue_delete_advance : Megaqueue → MegaqueueHeader → AResult × MegaqueueHeader
megaqueue_delete_advance q hdr =
    if megaqueue_can_delete hdr
    then (a_e_empty, hdr)
    else (a_ok, record hdr { delete = advance q hdr.delete })
