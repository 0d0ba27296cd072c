-- ===== src/Allocator/Slab.antt =====
-- One slab of tsl/alloc/allocator.c: its items are given out and taken back.
use trading_base.Base.{
  ℕ, zero, suc, ◌+◌, ◌-◌, ◌%◌, ◌^◌, ◌<◌, ◌≤◌, ◌≡◌, ◌≢◌, refl, sym, ap, subst, ◌∙◌, inl, inr,
  Bool-cases, true, false, ◌==◌, ==_refl, leb, if◌then◌else◌, Option, none, some, List, [], ◌∷◌,
  length, arith,
}
use trading_base.LinkedList.{Ptr}
use trading_base.Allocator.{
  next_link, Slabs, set_item, fill_item, unlink_item, take_item, return_item,
}
use trading_base.Allocator.Free.{
  from, Chain, ended, linked, fresh, Absent, Distinct, AllIn, write, Chain-write,
}

-- The slab has exactly these items free, all different and between `lo` and the end of the slab, and counts them.
pub record IsSlab (m : Slabs) (size : ℕ) (lo slab : Ptr) (free : List Ptr) : Type 0 where
  pub chain : Chain m.next size (slab + m.slab_size slab) (m.free_items slab) free
  pub distinct : Distinct free
  pub within : AllIn lo (slab + m.slab_size slab) size free
  pub counted : m.free_item_count slab ≡ length free
  pub few : length free < 2 ^ 32
  pub after_start : 0 < lo
  pub before_mark : slab + m.slab_size slab < next_link

pub item_there :
    (m : Slabs) (size slab : ℕ)
    → m.free_items slab ≢ 0
    → take_item m size slab ≡ (
      some (m.free_items slab),
      unlink_item (fill_item m size slab (m.free_items slab)) slab (m.free_items slab),
    )
unfolding take_item
item_there m size slab live = let off : m.free_items slab == 0 ≡ false = ground arith in rw off refl

none_there : (m : Slabs) (size slab : ℕ) → m.free_items slab ≡ 0 → take_item m size slab ≡ (none, m)
unfolding take_item
none_there m size slab is = let on : m.free_items slab == 0 ≡ true = ground arith in rw on refl

fill_linked :
    (m : Slabs) (size slab item : ℕ) → m.next item ≢ next_link → fill_item m size slab item ≡ m
unfolding fill_item
fill_linked m size slab item other =
    let off : m.next item == next_link ≡ false = ground arith in rw off refl

fill_last :
    (m : Slabs) (size slab item : ℕ)
    → m.next item ≡ next_link
    → slab + m.slab_size slab < item + size + size
    → fill_item m size slab item ≡ set_item m item 0
unfolding fill_item
fill_last m size slab item mark full =
    let on : m.next item == next_link ≡ true = ground arith in
    let off : leb (item + size + size) (slab + m.slab_size slab) ≡ false = ground arith in
    rw on (rw off refl)

fill_more :
    (m : Slabs) (size slab item : ℕ)
    → m.next item ≡ next_link
    → item + size + size ≤ slab + m.slab_size slab
    → fill_item m size slab item ≡ set_item (set_item m (item + size) next_link) item (item + size)
unfolding fill_item
fill_more m size slab item mark fits =
    let on : m.next item == next_link ≡ true = ground arith in
    let yes_ : leb (item + size + size) (slab + m.slab_size slab) ≡ true = ground arith in
    rw on (rw yes_ refl)

pub own_field : {A : Type 0} (slab : ℕ) (v w : A) → (if slab == slab then v else w) ≡ v
own_field slab v w = rw (==_refl slab) refl

unlink-IsSlab :
    (m : Slabs) (size lo slab item : ℕ) (xs : List Ptr)
    → Chain m.next size (slab + m.slab_size slab) (m.next item) xs
    → Absent item xs
    → Distinct xs
    → AllIn lo (slab + m.slab_size slab) size xs
    → m.free_item_count slab ≡ suc (length xs)
    → suc (length xs) < 2 ^ 32
    → 0 < lo
    → slab + m.slab_size slab < next_link
    → IsSlab (unlink_item m slab item) size lo slab xs
unfolding unlink_item
unlink-IsSlab m size lo slab item xs chain out apart inside count few start mark = record {
  chain =
      subst (λ p. Chain (write m.next item 0) size (slab + m.slab_size slab) p xs)
        (sym (own_field slab (m.next item) (m.free_items slab))) (Chain-write item 0 chain out);
  distinct = apart;
  within = inside;
  counted =
      own_field slab ((m.free_item_count slab + 2 ^ 32 - 1) % 2 ^ 32) (m.free_item_count slab)
      ∙ omega (arith, count, few);
  few = omega (arith, few);
  after_start = start;
  before_mark = mark;
}

-- What a chain with a first item says of it.
fill-chain :
    (m : Slabs) (size slab p x : ℕ) (xs : List Ptr)
    → 0 < size
    → Chain m.next size (slab + m.slab_size slab) p (x ∷ xs)
    → Absent x xs
    → (p ≡ x)
      × (x ≢ 0)
      × Chain
          (fill_item m size slab x).next
          size
          (slab + m.slab_size slab)
          ((fill_item m size slab x).next x)
          xs
fill-chain m size slab p x xs some_ (linked live other rest) out =
    (refl, live, rw (fill_linked m size slab x other) rest)
fill-chain m size slab p x xs some_ (fresh zero live mark fits is) out = (
  refl,
  live,
  rw (fill_last m size slab x mark fits) (
      rw is (
        subst (λ q. Chain (write m.next x 0) size (slab + m.slab_size slab) q [])
          (sym (own_field x 0 (m.next x))) (ended refl))),
)
fill-chain m size slab p x xs some_ (fresh (suc k) live mark (fit, fits) is) out =
    let next' = write (write m.next (p + size) next_link) p (p + size) in
    let at_item : next' p ≡ p + size =
      own_field p (p + size) (write m.next (p + size) next_link p) in
    let apart : p + size == p ≡ false = ground arith in
    let behind : next' (p + size) ≡ next_link =
      ap (λ b. if b then p + size else write m.next (p + size) next_link (p + size)) apart
      ∙ own_field (p + size) next_link (m.next (p + size)) in
    (
      refl,
      live,
      rw (fill_more m size slab p mark fit) (
          rw is (
            subst (λ q. Chain next' size (slab + m.slab_size slab) q (from (suc k) size (p + size)))
              (sym at_item) (fresh k (omega (arith, some_)) behind fits refl))),
    )

fill_kept :
    (m : Slabs) (size slab item : ℕ)
    → ((fill_item m size slab item).slab_size slab ≡ m.slab_size slab)
      × ((fill_item m size slab item).free_item_count slab ≡ m.free_item_count slab)
unfolding fill_item
fill_kept m size slab item = elim (Bool-cases (m.next item == next_link)) [
  | inl e ↦ elim (Bool-cases (leb (item + size + size) (slab + m.slab_size slab))) [
    | inl e' ↦ rw e (rw e' (refl, refl))
    | inr e' ↦ rw e (rw e' (refl, refl))
  ]
  | inr e ↦ rw e (refl, refl)
]

unlink_size :
    (m : Slabs) (slab item : ℕ) → (unlink_item m slab item).slab_size slab ≡ m.slab_size slab
unfolding unlink_item
unlink_size m slab item = refl

-- What taking an item gives: the first free item and a slab with the others, or none and no change.
abbrev pub Taken : Slabs → ℕ → ℕ → Ptr → List Ptr → Option Ptr × Slabs → Type 0
Taken m size lo slab [] r = r ≡ (none, m)
Taken m size lo slab (x ∷ xs) r = (r.0 ≡ some x) × IsSlab r.1 size lo slab xs

empty-chain : {next : Ptr → Ptr} {size limit : ℕ} {p : Ptr} → Chain next size limit p [] → p ≡ 0
empty-chain (ended e) = e

-- From a slab with free items, the part of allocator_alloc that takes an item gives the first of them, and exactly the
-- others, which are different from it and from one another and lie within the slab, are free after it; from a slab
-- with none it gives none and changes nothing.
pub take_item-IsSlab :
    (m : Slabs) (size lo slab : ℕ) (free : List Ptr)
    → 0 < size
    → IsSlab m size lo slab free
    → Taken m size lo slab free (take_item m size slab)
take_item-IsSlab m size lo slab [] some_ h = none_there m size slab (empty-chain h.chain)
take_item-IsSlab m size lo slab (x ∷ xs) some_ h =
    let filled = fill-chain m size slab (m.free_items slab) x xs some_ h.chain h.distinct.0 in
    let there : m.free_items slab ≢ 0 = λ e. filled.1 (sym filled.0 ∙ e) in
    let result =
      item_there m size slab there
      ∙ ap (λ p. (some p, unlink_item (fill_item m size slab p) slab p)) filled.0 in
    rw result (
      refl,
      unlink-IsSlab (fill_item m size slab x) size lo slab x xs
          (subst
            (λ z.
              Chain (fill_item m size slab x).next size (slab + z)
                ((fill_item m size slab x).next x) xs)
            (sym (fill_kept m size slab x).0) filled.2)
          h.distinct.0 h.distinct.1
          (subst (λ z. AllIn lo (slab + z) size xs) (sym (fill_kept m size slab x).0) h.within.2)
          ((fill_kept m size slab x).1 ∙ h.counted) h.few h.after_start
          (subst (λ z. slab + z < next_link) (sym (fill_kept m size slab x).0) h.before_mark),
    )

chain-unmarked :
    {next : Ptr → Ptr} {size limit : ℕ} {p : Ptr} {xs : List Ptr} (start : ℕ)
    → Chain next size limit p xs
    → AllIn start limit size xs
    → limit < next_link
    → p ≢ next_link
chain-unmarked start (ended e) inside mark = omega (arith, e)
chain-unmarked {p} start (linked live other rest) (lo, hi, inside) mark = omega (arith, hi, mark)
chain-unmarked {p} start (fresh k live e fits is) (lo, hi, inside) mark = omega (arith, hi, mark)

-- For an item of the slab that is not free, whatever its user has written into it: the part of allocator_free that
-- puts it back makes it the first free item, before exactly those that were free.
pub return_item-IsSlab :
    (m : Slabs) (size lo slab : ℕ) (free : List Ptr) (item written : Ptr)
    → IsSlab m size lo slab free
    → Absent item free
    → lo ≤ item
    → item + size ≤ slab + m.slab_size slab
    → suc (length free) < 2 ^ 32
    → IsSlab (return_item (set_item m item written) slab item) size lo slab (item ∷ free)
unfolding return_item
return_item-IsSlab m size lo slab free item written h out from_start to_end few =
    let next' = write (write m.next item written) item (m.free_items slab) in
    let at_item : next' item ≡ m.free_items slab =
      own_field item (m.free_items slab) (write m.next item written item) in
    let kept = Chain-write item (m.free_items slab) (Chain-write item written h.chain out) out in
    record {
      chain =
          subst (λ p. Chain next' size (slab + m.slab_size slab) p (item ∷ free))
            (sym (own_field slab item (m.free_items slab)))
            (linked (omega (arith, h.after_start, from_start))
              (λ e. chain-unmarked lo h.chain h.within h.before_mark (sym at_item ∙ e))
              (subst (λ p. Chain next' size (slab + m.slab_size slab) p free) (sym at_item) kept));
      distinct = (out, h.distinct);
      within = (from_start, to_end, h.within);
      counted =
          own_field slab ((m.free_item_count slab + 1) % 2 ^ 32) (m.free_item_count slab)
          ∙ omega (arith, h.counted, few);
      few = few;
      after_start = h.after_start;
      before_mark = h.before_mark;
    }
