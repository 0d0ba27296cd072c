-- ===== src/Allocator/Exhausted.antt =====
-- allocator_alloc of tsl/alloc/allocator.c where neither the allocator nor its class of pages has anything left.
use trading_base.Allocator.{Allocator}
