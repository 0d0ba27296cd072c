-- ===== src/CpuMask/FromConfig.antt =====
-- cpu_mask_from_config of tsl/cpumask.c over the configuration of tsl/config/engine.c.
use trading_base.Base.{
  ℕ, ◌+◌, ◌-◌, ◌<◌, ◌≡◌, ◌⊎◌, if◌then◌else◌, refl, sym, ap, subst, ◌∙◌, inl, inr, Bool-cases, Bool,
  true, false, Option, none, some, arith,
}
use trading_base.Base.Int.{pos, negsuc}
use trading_base.Config.{
  Jansson, ConfigAtom, atom_integer, atom_string, atom_array, atom_nested, atom_boolean, atom_float,
  atom_null, integer_or, config_get, config_get_integer,
}
use trading_base.ResultCode.{
  AResult, a_ok, a_e_nomem, a_e_badargs, a_e_notfound, a_e_busy, a_e_inval, a_e_nothread, a_e_empty,
  a_e_no_socket, a_e_noent, a_e_inv_date, a_e_nospc, a_e_exist, a_e_unknown, a_e_done, failed,
}
use trading_base.CpuMask.{
  CpuSets, CpuMask, System, Made, Field, cpu_mask_create, cpu_mask_set, cpu_mask_destroy,
  from_integer, fill_from, cpu_mask_from_config,
}
use trading_base.CpuMask.Members.{
  IsCpuSets, HasMembers, zeroed-HasMembers, set-HasMembers, set, after,
}

only_ok : (r : AResult) → failed r ≡ false → r ≡ a_ok
only_ok a_ok e = refl
only_ok a_e_nomem e = cc
only_ok a_e_badargs e = cc
only_ok a_e_notfound e = cc
only_ok a_e_busy e = cc
only_ok a_e_inval e = cc
only_ok a_e_nothread e = cc
only_ok a_e_empty e = cc
only_ok a_e_no_socket e = cc
only_ok a_e_noent e = cc
only_ok a_e_inv_date e = cc
only_ok a_e_nospc e = cc
only_ok a_e_exist e = cc
only_ok a_e_unknown e = cc
only_ok a_e_done e = cc

abbrev pub working : {Bits : Type 0} → ℕ → Bits → System Bits
working n bits = record { calloc = true; nr_processors = n; cpu_alloc = some bits }

-- An item that is no integer, or a negative one.
abbrev pub IsNoCpu : {Json : Type 0} → ConfigAtom Json → Type 0
IsNoCpu (atom_integer (pos v)) = ⊥
IsNoCpu (atom_integer (negsuc v)) = Unit {0}
IsNoCpu (atom_string v) = Unit {0}
IsNoCpu (atom_array v) = Unit {0}
IsNoCpu (atom_nested v) = Unit {0}
IsNoCpu (atom_boolean v) = Unit {0}
IsNoCpu (atom_float v) = Unit {0}
IsNoCpu atom_null = Unit {0}

no_cpu :
    {Json : Type 0} (a : ConfigAtom Json)
    → IsNoCpu a
    → (m : ℕ) × (integer_or a (negsuc 0) ≡ negsuc m)
no_cpu (atom_integer (pos v)) h = absurd h
no_cpu (atom_integer (negsuc v)) h = (v, refl)
no_cpu (atom_string v) h = (0, refl)
no_cpu (atom_array v) h = (0, refl)
no_cpu (atom_nested v) h = (0, refl)
no_cpu (atom_boolean v) h = (0, refl)
no_cpu (atom_float v) h = (0, refl)
no_cpu atom_null h = (0, refl)

-- What a call leaves behind.
abbrev pub AllOrNothing : {Bits : Type 0} → Option (CpuMask Bits) → ℕ → Made Bits → Type 0
AllOrNothing {Bits} pmask blocks made =
    ((mask : CpuMask Bits) × (made
        ≡ record { ret = a_ok; stored = some mask; blocks = blocks + 2 }))
    ⊎ ((failed made.ret ≡ true) × (made.stored ≡ pmask) × (made.blocks ≡ blocks))

module _ {Json : Type 0} (json : Jansson Json) where
  -- The answer of the first lookup of a field.
  abbrev pub first_get : Field Json → AResult × Option (ConfigAtom Json)
  first_get field = config_get json field.first_copy field.cfg field.field_name

module _ {Bits : Type 0} (sets : CpuSets Bits) {Json : Type 0} (json : Jansson Json) where
  abbrev blank : ℕ → Bits → CpuMask Bits
  blank n bits = record {
    mask = sets.zeroed (sets.alloc_size n) bits;
    num_cpus = n;
    size = sets.alloc_size n;
  }

  fill_found :
      (field : Field Json) (a : ConfigAtom Json) (msk : CpuMask Bits)
      → first_get json field ≡ (a_ok, some a)
      → fill_from sets json field msk ≡ from_integer sets (integer_or a (negsuc 0)) a_ok msk
  unfolding fill_from config_get_integer
  fill_found field a msk got = rw got refl

  -- What is left of the call once the mask is made and filled.
  abbrev ending : Option (CpuMask Bits) → ℕ → AResult × CpuMask Bits → Made Bits
  ending pmask blocks filled =
      if failed filled.0
      then record { ret = filled.0; stored = pmask; blocks = blocks + 2 - 1 - 1 }
      else record { ret = filled.0; stored = some filled.1; blocks = blocks + 2 }

  ending_is :
      (field : Field Json) (n : ℕ) (bits : Bits) (pmask : Option (CpuMask Bits)) (blocks : ℕ)
      → cpu_mask_from_config sets json (working n bits) field pmask blocks
        ≡ ending pmask blocks (fill_from sets json field (blank n bits))
  unfolding cpu_mask_from_config cpu_mask_create cpu_mask_destroy
  ending_is field n bits pmask blocks = refl

  -- Where memory is there and the macros keep sets of CPUs, for a field that config_get finds in the configuration and
  -- that is the integer c, a CPU below n: cpu_mask_from_config succeeds and stores a mask, in two blocks of memory, of which
  -- cpu_mask_test finds exactly the CPU c among those below n.
  pub from_config_integer :
      (field : Field Json) (c n : ℕ) (bits : Bits)
      → (pmask : Option (CpuMask Bits)) (blocks : ℕ) → IsCpuSets sets
      → first_get json field ≡ (a_ok, some (atom_integer (pos c)))
      → c < n
      → (mask : CpuMask Bits) × (cpu_mask_from_config sets json (working n bits) field pmask blocks
          ≡ record { ret = a_ok; stored = some mask; blocks = blocks + 2 })
        × HasMembers sets mask n (after (λ d. false) (set c))
  unfolding from_integer cpu_mask_set
  from_config_integer field c n bits pmask blocks law got lt = (
    (cpu_mask_set sets (blank n bits) c).1,
    ending_is field n bits pmask blocks
        ∙ ap (ending pmask blocks) (fill_found field (atom_integer (pos c)) (blank n bits) got),
    set-HasMembers sets law (blank n bits) n c (λ d. false) lt (zeroed-HasMembers sets law bits n),
  )

  -- Where memory is there and the macros keep sets of CPUs, for a field that config_get finds in the configuration and
  -- that is anything but an integer, an array of CPUs included, or a negative integer: config_get_integer answers A_OK, and
  -- cpu_mask_from_config succeeds and stores a mask with no CPU below n.
  pub from_config_unset :
      (field : Field Json) (a : ConfigAtom Json) (n : ℕ) (bits : Bits)
      → (pmask : Option (CpuMask Bits)) (blocks : ℕ) → IsCpuSets sets
      → first_get json field ≡ (a_ok, some a)
      → IsNoCpu a
      → (mask : CpuMask Bits) × ((config_get_integer json field.first_copy field.cfg
            field.field_name
            (negsuc 0)).0
          ≡ a_ok)
        × (cpu_mask_from_config sets json (working n bits) field pmask blocks
            ≡ record { ret = a_ok; stored = some mask; blocks = blocks + 2 })
        × HasMembers sets mask n (λ c. false)
  unfolding from_integer config_get_integer
  from_config_unset field a n bits pmask blocks law got other =
      let negative = no_cpu a other in
      (
        blank n bits,
        rw got refl,
        ending_is field n bits pmask blocks
            ∙ ap (ending pmask blocks) (fill_found field a (blank n bits) got)
            ∙ ap (λ v. ending pmask blocks (from_integer sets v a_ok (blank n bits))) negative.1,
        zeroed-HasMembers sets law bits n,
      )

  filled-AllOrNothing :
      (pmask : Option (CpuMask Bits)) (blocks : ℕ) (filled : AResult × CpuMask Bits)
      → AllOrNothing pmask blocks (ending pmask blocks filled)
  filled-AllOrNothing pmask blocks (r, msk) = elim (Bool-cases (failed r)) [
    | inl e ↦ rw e (inr (e, refl, omega arith))
    | inr e ↦ let ok = only_ok r e in rw ok (inl (msk, refl))
  ]

  by_answer :
      (calloc : Bool) (n : ℕ) (alloc : Option Bits) (field : Field Json)
      → (pmask : Option (CpuMask Bits)) (blocks : ℕ)
      → AllOrNothing pmask blocks (
          cpu_mask_from_config sets json
            (record { calloc = calloc; nr_processors = n; cpu_alloc = alloc })
            field
            pmask
            blocks)
  unfolding cpu_mask_from_config cpu_mask_create
  by_answer false n alloc field pmask blocks = inr (refl, refl, refl)
  by_answer true n none field pmask blocks = inr (refl, refl, omega arith)
  by_answer true n (some bits) field pmask blocks =
      subst (AllOrNothing pmask blocks) (sym (ending_is field n bits pmask blocks))
        (filled-AllOrNothing pmask blocks (fill_from sets json field (blank n bits)))

  -- For every answer of the system and of strdup and every configuration, cpu_mask_from_config either succeeds and
  -- stores a mask in two more blocks of memory, or fails, leaves the pointer of the caller as it was and leaves no
  -- block behind.
  pub cpu_mask_from_config-AllOrNothing :
      (system : System Bits) (field : Field Json) (pmask : Option (CpuMask Bits)) (blocks : ℕ)
      → AllOrNothing pmask blocks (cpu_mask_from_config sets json system field pmask blocks)
  cpu_mask_from_config-AllOrNothing system field pmask blocks =
      by_answer system.calloc system.nr_processors system.cpu_alloc field pmask blocks
