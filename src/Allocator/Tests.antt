-- ===== src/Allocator/Tests.antt =====
-- A slab of one page of 4096 bytes, with cache lines of 64 bytes and items of 1024 bytes.
use trading_base.Base.{◌-◌, ◌^◌, ◌≡◌, refl, [], ◌∷◌, arith}
use trading_base.Allocator.{
  Slabs, SlabClass, Allocator, set_item, slab_init, fill_item, unlink_item, take_item, return_item,
  round_16,
}
use trading_base.Allocator.Slab.{IsSlab, Taken, take_item-IsSlab, return_item-IsSlab}
use trading_base.Allocator.Start.{slab_init-IsSlab}

abbrev blank : Slabs
blank = record {
  links = record { prev = λ p. 0; next = λ p. 0 };
  free_items = λ p. 0;
  flags = λ p. 0;
  max_items = λ p. 0;
  free_item_count = λ p. 0;
  slab_size = λ p. 0;
  next = λ p. 0;
}

abbrev page : Slabs
page = slab_init 64 blank 4096 1024 4096

rounded : round_16 1009 ≡ 1024
rounded = refl

slab_init-IsSlab_example : IsSlab page 1024 4160 4096 (4160 ∷ 5184 ∷ 6208 ∷ [])
slab_init-IsSlab_example =
    slab_init-IsSlab 64 blank 4096 1024 4096 (omega arith) (omega arith) (omega arith) (omega arith)
      (omega arith)

page-IsSlab : IsSlab page 1024 4160 4096 (4160 ∷ 5184 ∷ 6208 ∷ [])
page-IsSlab =
    slab_init-IsSlab 64 blank 4096 1024 4096 (omega arith) (omega arith) (omega arith) (omega arith)
      (omega arith)

take_item-IsSlab_example :
    Taken page 1024 4160 4096 (4160 ∷ 5184 ∷ 6208 ∷ []) (take_item page 1024 4096)
take_item-IsSlab_example =
    take_item-IsSlab page 1024 4160 4096 (4160 ∷ 5184 ∷ 6208 ∷ []) (omega arith) page-IsSlab

abbrev taken : Slabs
taken = (take_item page 1024 4096).1

taken-IsSlab : IsSlab taken 1024 4160 4096 (5184 ∷ 6208 ∷ [])
taken-IsSlab =
    (take_item-IsSlab page 1024 4160 4096 (4160 ∷ 5184 ∷ 6208 ∷ []) (omega arith) page-IsSlab).1

taken_size : taken.slab_size 4096 ≡ 4096
unfolding take_item unlink_item fill_item slab_init
taken_size = refl

return_item-IsSlab_example :
    IsSlab (return_item (set_item taken 4160 77) 4096 4160) 1024 4160 4096 (4160 ∷ 5184 ∷ 6208 ∷ [])
return_item-IsSlab_example =
    return_item-IsSlab taken 1024 4160 4096 (5184 ∷ 6208 ∷ []) 4160 77 taken-IsSlab
      (omega arith, (omega arith, tt)) (omega arith) (omega (arith, taken_size)) (omega arith)

-- A class with no page, and an allocator that may grow.
abbrev used_up : SlabClass
used_up = record {
  avail_slabs = 80;
  slab_bytes = 4096;
  nr_slabs = 1;
  slab_base_ptr = 4096;
  free_slabs = 1;
}

abbrev growing : Allocator
growing = record {
  slabs = 160;
  item_size = 1024;
  max_items = 0;
  free_mask = 2 ^ 64 - 4096;
  alloc_state = used_up;
  flags = 0;
  slabs_taken = 0;
}

abbrev lone : Slabs
lone = record blank { links = record { prev = λ p. p; next = λ p. p } }
