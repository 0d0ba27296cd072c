-- ===== src/CpuMask.antt =====
-- tsl/cpumask.h and tsl/cpumask.c: a set of CPUs over the dynamic CPU sets of the C library, whose macros, like
-- calloc, sysconf and sched_setaffinity, are parameters. The configuration is that of Config.antt. The pointers are not NULL.
pub mod Members
pub mod FromConfig
mod Tests
use trading_base.Base.{
  ℕ, zero, suc, ◌+◌, ◌-◌, ◌<◌, ◌≡◌, Bool, true, false, ◌||◌, ◌==◌, if◌then◌else◌, Option, none,
  some, List,
}
use trading_base.Base.Int.{ℤ, pos, negsuc}
use trading_base.Config.{
  Jansson, ConfigAtom, config_get, config_get_integer, config_array_length, config_array_at_integer,
}
use trading_base.ResultCode.{AResult, a_ok, a_e_nomem, a_e_inval, a_e_noent, failed}

-- The macros of the C library on CPU sets, for a size in bytes.
pub record CpuSets (Bits : Type 0) : Type 0 where
  pub alloc_size : ℕ → ℕ
  pub zeroed : ℕ → Bits → Bits
  pub with_cpu : ℕ → ℕ → Bits → Bits
  pub without_cpu : ℕ → ℕ → Bits → Bits
  pub isset : ℕ → ℕ → Bits → ℕ

pub record CpuMask (Bits : Type 0) : Type 0 where
  pub mask : Bits
  pub num_cpus : ℕ
  pub size : ℕ

-- What the system answers: whether calloc gives memory, the CPUs of sysconf, and the memory of CPU_ALLOC.
pub record System (Bits : Type 0) : Type 0 where
  pub calloc : Bool
  pub nr_processors : ℕ
  pub cpu_alloc : Option Bits

-- The result, the mask that is stored (none for NULL) and the blocks of memory that are in use after the call.
pub record Made (Bits : Type 0) : Type 0 where
  pub ret : AResult
  pub stored : Option (CpuMask Bits)
  pub blocks : ℕ

-- A field of a configuration: its tree and its name `field_name`, and whether strdup has memory in the first lookup of the field and
-- in the second.
pub record Field (Json : Type 0) : Type 0 where
  pub cfg : Json
  pub field_name : List ℕ
  pub first_copy : Bool
  pub second_copy : Bool

-- `failed`, `num_set`, `ret` and the mask, in the loop over the entries.
pub record Filling (Bits : Type 0) : Type 0 where
  pub ret : AResult
  pub bad : Bool
  pub num_set : ℕ
  pub msk : CpuMask Bits

module _ {Bits : Type 0} (sets : CpuSets Bits) where
  unfoldable pub cpu_mask_create : System Bits → ℕ → Made Bits
  cpu_mask_create system blocks =
      if system.calloc
      then (elim system.cpu_alloc [
        | none ↦ record { ret = a_e_nomem; stored = none; blocks = blocks + 1 - 1 }
        | some bits ↦
            let size = sets.alloc_size system.nr_processors in
            record {
              ret = a_ok;
              stored = some (record {
                mask = sets.zeroed size bits;
                num_cpus = system.nr_processors;
                size = size;
              });
              blocks = blocks + 2;
            }
      ])
      else record { ret = a_e_nomem; stored = none; blocks = blocks }

  -- It gives the result and the mask after the call.
  unfoldable pub cpu_mask_set : CpuMask Bits → ℕ → AResult × CpuMask Bits
  cpu_mask_set mask cpu_id = (a_ok, record mask { mask = sets.with_cpu cpu_id mask.size mask.mask })

  unfoldable pub cpu_mask_clear : CpuMask Bits → ℕ → AResult × CpuMask Bits
  cpu_mask_clear mask cpu_id =
      (a_ok, record mask { mask = sets.without_cpu cpu_id mask.size mask.mask })

  unfoldable pub cpu_mask_clear_all : CpuMask Bits → AResult × CpuMask Bits
  cpu_mask_clear_all mask = (a_ok, record mask { mask = sets.zeroed mask.size mask.mask })

  -- The value is the one stored for the caller.
  unfoldable pub cpu_mask_test : CpuMask Bits → ℕ → AResult × ℕ
  cpu_mask_test mask cpu_id = (a_ok, sets.isset cpu_id mask.size mask.mask)

  -- The mask is freed, and so is its record.
  unfoldable pub cpu_mask_destroy : CpuMask Bits → ℕ → Made Bits
  cpu_mask_destroy mask blocks = record { ret = a_ok; stored = none; blocks = blocks - 1 - 1 }

  -- One turn of the loop over the entries.
  unfoldable pub take_entry : AResult × ℤ → Filling Bits → Filling Bits
  take_entry (r, core_id) f = if failed r then record f { ret = r; bad = true } else (elim core_id [
    | negsuc n ↦ record f { ret = r; bad = true }
    | pos n ↦
        let set = cpu_mask_set f.msk n in
        if failed set.0
        then record f { ret = set.0; bad = true; msk = set.1 }
        else record f { ret = set.0; num_set = f.num_set + 1; msk = set.1 }
  ])

  -- The entries from index i, `left` of them.
  unfoldable pub take_entries : (ℕ → AResult × ℤ) → ℕ → ℕ → Filling Bits → Filling Bits
  take_entries at zero i f = f
  take_entries at (suc left) i f = take_entries at left (i + 1) (take_entry (at i) f)

  -- The branches for an integer and for an array: the result and the mask at `done`.
  unfoldable pub from_integer : ℤ → AResult → CpuMask Bits → AResult × CpuMask Bits
  from_integer core_id ret msk = elim core_id [ negsuc n ↦ (ret, msk) | pos n ↦ cpu_mask_set msk n ]

  module _ {Json : Type 0} (json : Jansson Json) where
    unfoldable pub from_array : ConfigAtom Json → CpuMask Bits → AResult × CpuMask Bits
    from_array core_arr msk =
        let ret = (config_array_length json core_arr 0).0 in
        let nr_entries = (config_array_length json core_arr 0).1 in
        if failed ret || (nr_entries == 0)
        then (ret, msk)
        else (let f =
              take_entries (config_array_at_integer json core_arr) nr_entries 0
                (record { ret = ret; bad = false; num_set = 0; msk = msk }) in
            if f.bad || (f.num_set == 0) then (a_e_inval, f.msk) else (f.ret, f.msk))

    -- The second lookup gives an atom exactly where it does not fail.
    unfoldable pub fill_from : Field Json → CpuMask Bits → AResult × CpuMask Bits
    fill_from field msk =
        let got = config_get_integer json field.first_copy field.cfg field.field_name (negsuc 0) in
        if failed got.0
        then (elim (config_get json field.second_copy field.cfg field.field_name).1 [
          | none ↦ (a_e_noent, msk)
          | some core_arr ↦ from_array core_arr msk
        ])
        else from_integer got.1 got.0 msk

    -- `pmask` is what the caller's pointer holds before the call.
    unfoldable pub cpu_mask_from_config :
        System Bits → Field Json → Option (CpuMask Bits) → ℕ → Made Bits
    cpu_mask_from_config system field pmask blocks =
        let made = cpu_mask_create system blocks in
        elim made.stored [
          | none ↦ record { ret = made.ret; stored = pmask; blocks = made.blocks }
          | some msk ↦
              let filled = fill_from field msk in
              if failed filled.0
              then record {
                ret = filled.0;
                stored = pmask;
                blocks = (cpu_mask_destroy filled.1 made.blocks).blocks;
              }
              else record { ret = filled.0; stored = some filled.1; blocks = made.blocks }
        ]

-- It only answers.
unfoldable pub cpu_mask_set_all : {Bits : Type 0} → CpuMask Bits → AResult × CpuMask Bits
cpu_mask_set_all mask = (a_e_inval, mask)

unfoldable pub cpu_mask_clone : {Bits : Type 0} → CpuMask Bits → AResult × Option (CpuMask Bits)
cpu_mask_clone orig = (a_ok, none)

-- The parameter is the result of sched_setaffinity for a size and a set.
unfoldable pub cpu_mask_apply : {Bits : Type 0} → (ℕ → Bits → ℤ) → CpuMask Bits → AResult
cpu_mask_apply sched_setaffinity mask = elim (sched_setaffinity mask.size mask.mask) [
  | pos zero ↦ a_ok
  | pos (suc n) ↦ a_e_inval
  | negsuc n ↦ a_e_inval
]
