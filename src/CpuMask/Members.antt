-- ===== src/CpuMask/Members.antt =====
-- The CPU masks of tsl/cpumask.c as sets of CPU numbers.
use trading_base.Base.{
  ℕ, ◌+◌, ◌<◌, ◌≡◌, refl, sym, ap, subst, ◌∙◌, Bool, true, false, ◌&&◌, ◌||◌, not, ◌==◌,
  if◌then◌else◌, none, some, List, [], ◌∷◌, arith,
}
use trading_base.ResultCode.{a_ok}
use trading_base.CpuMask.{
  CpuSets, CpuMask, cpu_mask_create, cpu_mask_destroy, cpu_mask_set, cpu_mask_clear,
  cpu_mask_clear_all, cpu_mask_test,
}

-- The macros on a set for n CPUs, as long as the CPUs are below n.
pub record IsCpuSets {Bits : Type 0} (sets : CpuSets Bits) : Type 0 where
  pub zeroed_isset :
      (n c : ℕ) (b : Bits)
      → c < n
      → sets.isset c (sets.alloc_size n) (sets.zeroed (sets.alloc_size n) b) ≡ 0
  pub with_isset :
      (n c d : ℕ) (b : Bits)
      → c < n
      → d < n
      → sets.isset c (sets.alloc_size n) (sets.with_cpu d (sets.alloc_size n) b)
        ≡ (if c == d then 1 else sets.isset c (sets.alloc_size n) b)
  pub without_isset :
      (n c d : ℕ) (b : Bits)
      → c < n
      → d < n
      → sets.isset c (sets.alloc_size n) (sets.without_cpu d (sets.alloc_size n) b)
        ≡ (if c == d then 0 else sets.isset c (sets.alloc_size n) b)

pub data Change : Type 0 where
  set : ℕ → Change
  clear : ℕ → Change
  clear_all : Change

abbrev pub after : (ℕ → Bool) → Change → ℕ → Bool
after s (set d) c = (c == d) || s c
after s (clear d) c = not (c == d) && s c
after s clear_all c = false

abbrev pub after_all : (ℕ → Bool) → List Change → ℕ → Bool
after_all s [] = s
after_all s (u ∷ more) = after_all (after s u) more

-- The CPUs that are named are below n.
abbrev pub IsWithin : ℕ → List Change → Type 0
IsWithin n [] = Unit {0}
IsWithin n (set d ∷ more) = (d < n) × IsWithin n more
IsWithin n (clear d ∷ more) = (d < n) × IsWithin n more
IsWithin n (clear_all ∷ more) = IsWithin n more

or_value :
    (p q : Bool) → ◌≡◌ {A = ℕ} (if p then 1 else (if q then 1 else 0)) (if p || q then 1 else 0)
or_value true q = refl
or_value false q = refl

unless_value :
    (p q : Bool) → ◌≡◌ {A = ℕ} (if p then 0 else (if q then 1 else 0)) (if not p && q then 1 else 0)
unless_value true q = refl
unless_value false q = refl

module _ {Bits : Type 0} (sets : CpuSets Bits) where
  pub record HasMembers (mask : CpuMask Bits) (n : ℕ) (s : ℕ → Bool) : Type 0 where
    pub size_of : mask.size ≡ sets.alloc_size n
    pub tested : (c : ℕ) → c < n → cpu_mask_test sets mask c ≡ (a_ok, if s c then 1 else 0)

  unfoldable pub change : CpuMask Bits → Change → CpuMask Bits
  change mask (set d) = (cpu_mask_set sets mask d).1
  change mask (clear d) = (cpu_mask_clear sets mask d).1
  change mask clear_all = (cpu_mask_clear_all sets mask).1

  abbrev pub change_all : CpuMask Bits → List Change → CpuMask Bits
  change_all mask [] = mask
  change_all mask (u ∷ more) = change_all (change mask u) more

  module _ (law : IsCpuSets sets) where
    isset_of :
        (mask : CpuMask Bits) (n c : ℕ) (s : ℕ → Bool)
        → c < n
        → HasMembers mask n s
        → sets.isset c (sets.alloc_size n) mask.mask ≡ (if s c then 1 else 0)
    unfolding cpu_mask_test
    isset_of mask n c s lt h =
        subst (λ z. sets.isset c z mask.mask ≡ (if s c then 1 else 0)) h.size_of
          (ap (λ p. p.1) (h.tested c lt))

    tested_of :
        (mask : CpuMask Bits) (n c v : ℕ)
        → mask.size ≡ sets.alloc_size n
        → sets.isset c (sets.alloc_size n) mask.mask ≡ v
        → cpu_mask_test sets mask c ≡ (a_ok, v)
    unfolding cpu_mask_test
    tested_of mask n c v size is =
        ap (λ w. (a_ok, w)) (subst (λ z. sets.isset c z mask.mask ≡ v) (sym size) is)

    pub zeroed-HasMembers :
        (bits : Bits) (n : ℕ)
        → HasMembers
            (record {
              mask = sets.zeroed (sets.alloc_size n) bits;
              num_cpus = n;
              size = sets.alloc_size n;
            })
            n
            (λ c. false)
    zeroed-HasMembers bits n = record {
      size_of = refl;
      tested = λ c lo. tested_of _ n c 0 refl (law.zeroed_isset n c bits lo);
    }

    pub set-HasMembers :
        (mask : CpuMask Bits) (n d : ℕ) (s : ℕ → Bool)
        → d < n
        → HasMembers mask n s
        → HasMembers (cpu_mask_set sets mask d).1 n (after s (set d))
    unfolding cpu_mask_set
    set-HasMembers mask n d s lt h = record {
      size_of = h.size_of;
      tested = λ c lo.
          let value =
            law.with_isset n c d mask.mask lo lt
            ∙ ap (λ v. if c == d then 1 else v) (isset_of mask n c s lo h)
            ∙ or_value (c == d) (s c) in
          tested_of _ n c (if (c == d) || s c then 1 else 0) h.size_of (
            subst
              (λ z.
                sets.isset c (sets.alloc_size n) (sets.with_cpu d z mask.mask)
                ≡ (if (c == d) || s c then 1 else 0))
              (sym h.size_of) value);
    }

    clear-HasMembers :
        (mask : CpuMask Bits) (n d : ℕ) (s : ℕ → Bool)
        → d < n
        → HasMembers mask n s
        → HasMembers (cpu_mask_clear sets mask d).1 n (after s (clear d))
    unfolding cpu_mask_clear
    clear-HasMembers mask n d s lt h = record {
      size_of = h.size_of;
      tested = λ c lo.
          let value =
            law.without_isset n c d mask.mask lo lt
            ∙ ap (λ v. if c == d then 0 else v) (isset_of mask n c s lo h)
            ∙ unless_value (c == d) (s c) in
          tested_of _ n c (if not (c == d) && s c then 1 else 0) h.size_of (
            subst
              (λ z.
                sets.isset c (sets.alloc_size n) (sets.without_cpu d z mask.mask)
                ≡ (if not (c == d) && s c then 1 else 0))
              (sym h.size_of) value);
    }

    clear_all-HasMembers :
        (mask : CpuMask Bits) (n : ℕ) (s : ℕ → Bool)
        → HasMembers mask n s
        → HasMembers (cpu_mask_clear_all sets mask).1 n (after s clear_all)
    unfolding cpu_mask_clear_all
    clear_all-HasMembers mask n s h = record {
      size_of = h.size_of;
      tested = λ c lo. tested_of _ n c 0 h.size_of (
          subst (λ z. sets.isset c (sets.alloc_size n) (sets.zeroed z mask.mask) ≡ 0)
            (sym h.size_of) (law.zeroed_isset n c mask.mask lo));
    }

    change_all-HasMembers :
        (us : List Change) (mask : CpuMask Bits) (n : ℕ) (s : ℕ → Bool)
        → IsWithin n us
        → HasMembers mask n s
        → HasMembers (change_all mask us) n (after_all s us)
    unfolding change
    change_all-HasMembers [] mask n s within h = h
    change_all-HasMembers (set d ∷ more) mask n s (lt, within) h =
        change_all-HasMembers more _ n _ within (set-HasMembers mask n d s lt h)
    change_all-HasMembers (clear d ∷ more) mask n s (lt, within) h =
        change_all-HasMembers more _ n _ within (clear-HasMembers mask n d s lt h)
    change_all-HasMembers (clear_all ∷ more) mask n s within h =
        change_all-HasMembers more _ n _ within (clear_all-HasMembers mask n s h)

    -- Where calloc and CPU_ALLOC give memory and the macros keep sets of the n CPUs of the system:
    -- cpu_mask_create gives a mask in two blocks of memory, which cpu_mask_destroy gives back, and after
    -- any sequence of sets, clears and clear-alls of CPUs below n, cpu_mask_test tells of each CPU below n whether it is
    -- in the set that these changes make of the empty one.
    pub cpu_mask_create-change_all :
        (bits : Bits) (n blocks : ℕ) (us : List Change)
        → IsWithin n us
        → (mask : CpuMask Bits) × (cpu_mask_create sets
              (record { calloc = true; nr_processors = n; cpu_alloc = some bits })
              blocks
            ≡ record { ret = a_ok; stored = some mask; blocks = blocks + 2 })
          × HasMembers (change_all mask us) n (after_all (λ c. false) us)
          × (cpu_mask_destroy sets (change_all mask us) (blocks + 2)
              ≡ record { ret = a_ok; stored = none; blocks = blocks })
    unfolding cpu_mask_create cpu_mask_destroy
    cpu_mask_create-change_all bits n blocks us within = (
      record {
        mask = sets.zeroed (sets.alloc_size n) bits;
        num_cpus = n;
        size = sets.alloc_size n;
      },
      refl,
      change_all-HasMembers us _ n _ within (zeroed-HasMembers bits n),
      ap (λ b. record { ret = a_ok; stored = none; blocks = b }) (omega arith),
    )
