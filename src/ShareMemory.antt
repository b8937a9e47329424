-- ===== src/ShareMemory.antt =====
-- datacenter/ShareMemoryCenter.cpp: modules of a program in one block of shared memory, which
-- outlives the process. A name is the bytes of a string. `segment` is the block, `none` for NULL;
-- its `magic`, `data_offset`, `data_length` and `modules`, the used entries of the header's array,
-- are the header, and `bytes` is what lies at each offset behind the header, from `head_size` on. What
-- `bytes` gives for an offset inside the header is not the block's memory.
pub mod Registered
pub mod Init
pub mod Appending
pub mod Attaching
pub mod Starting
pub mod Restart
pub mod Growing
pub mod Recovery
pub mod Regions
pub mod LongNames
use playground.Prelude.{
  ℕ, zero, suc, ◌+◌, Bool, true, false, ◌&&◌, List, [], ◌∷◌, ◌++◌, Option, none, some, ltb, leb,
  ◌==◌, if◌then◌else◌, length,
}
use playground.Prelude.Words.{ℤ, pos, minus_one, is_zero_ℤ, ltb_ℤ, ◌-ℤ◌, u32, u64, to_int}
use playground.Prelude.Strings.{same}

-- `notified`: there is a notifier.
pub record Reg : Type 0 where
  pub name : List ℕ
  pub size : ℕ
  pub notified : Bool

pub record Module : Type 0 where
  pub name : List ℕ
  pub inited : ℕ
  pub offset : ℕ
  pub size : ℕ

pub record Segment : Type 0 where
  pub magic : List ℕ
  pub data_offset : ℕ
  pub data_length : ℕ
  pub modules : List Module
  pub bytes : ℕ → ℕ

-- A call of a notifier's OnAttach.
pub record Call : Type 0 where
  pub name : List ℕ
  pub offset : ℕ
  pub size : ℕ
  pub inited : ℕ

pub record Center : Type 0 where
  pub regs : List Reg
  pub total : ℕ
  pub segment : Option Segment
  pub calls : List Call

-- What is not of this file: ShareMemory's Attach and Create for a size, with what GetData gives
-- afterwards, its GetAttachNum, the notifiers, which may write to the memory, and what STRNCPY
-- leaves of a name in 32 bytes.
pub record Env : Type 0 where
  pub attach : ℕ → ℤ × Option Segment
  pub create : ℕ → ℤ × Option Segment
  pub attach_num : ℤ
  pub on_attach : Call → (ℕ → ℕ) → ℤ × (ℕ → ℕ)
  pub store_name : List ℕ → List ℕ

-- RECOVERYSHM_MAX_MOUDLES
abbrev pub max_modules : ℕ
max_modules = 256

-- sizeof(ShareMemoryCenterDataFmt), packed: 34 bytes and 256 entries of 49.
abbrev pub head_size : ℕ
head_size = 12578

-- SHM_MAGIC
abbrev pub shm_magic : List ℕ
shm_magic = 82 ∷ 83 ∷ 72 ∷ 77 ∷ []

abbrev pub new_center : Center
new_center = record { regs = []; total = 0; segment = none; calls = [] }

unfoldable pub find_reg : List Reg → List ℕ → Option Reg
find_reg [] name = none
find_reg (r ∷ regs) name = if same r.name name then some r else find_reg regs name

unfoldable pub register : Center → Reg → ℤ × Center
register c reg = elim (find_reg c.regs reg.name) [
  | some _ ↦ (minus_one, c)
  | none ↦ (pos 0, record c { regs = c.regs ++ reg ∷ []; total = u64 (c.total + reg.size) })
]

unfoldable pub find_module : List Module → List ℕ → Option Module
find_module [] name = none
find_module (m ∷ ms) name = if same m.name name then some m else find_module ms name

-- GetModleBuffer: the offset of the module's region and the `iUsed` and `iCap` of the buffer, `int`s
-- that take a `size_t`. `none` is an empty buffer.
unfoldable pub get_module_buffer : Segment → List ℕ → Option (ℕ × ℤ)
get_module_buffer seg name = elim (find_module seg.modules name) [
  | none ↦ none
  | some m ↦ some (m.offset, to_int (u32 m.size))
]

unfoldable pub bzero : ℕ → ℕ → (ℕ → ℕ) → ℕ → ℕ
bzero from n bytes k = if leb from k && ltb k (from + n) then 0 else bytes k

-- A module's entry in the bounds of its block: what AddModule does once its tests are passed. The
-- entry's own flag is as the header's memory has it, which is 0 beyond the used entries.
unfoldable pub add_entry : Env → Reg → Segment → Segment
add_entry env reg seg = record seg {
  modules =
      seg.modules
      ++ record {
        name = env.store_name reg.name;
        inited = 0;
        offset = seg.data_length;
        size = reg.size;
      }
        ∷ [];
  bytes = bzero seg.data_length reg.size seg.bytes;
  data_length = u64 (seg.data_length + reg.size);
}

unfoldable pub add_module : Env → List Reg → ℕ → List ℕ → Segment → ℤ × Segment
add_module env regs total name seg = elim (find_reg regs name) [
  | none ↦ (minus_one, seg)
  | some reg ↦
      if ltb total (u64 (reg.size + seg.data_length))
      then (minus_one, seg)
      else if leb max_modules (length seg.modules)
      then (minus_one, seg)
      else (pos 0, add_entry env reg seg)
]

-- The loop of AppendRegModules over `todo`.
unfoldable pub append_modules : Env → List Reg → ℕ → List Reg → Segment → Segment
append_modules env regs total [] seg = seg
append_modules env regs total (r ∷ todo) seg =
    append_modules env regs total todo (elim (find_module seg.modules r.name) [
      | some _ ↦ seg
      | none ↦ (add_module env regs total r.name seg).1
    ])

unfoldable pub append_reg_modules : Env → List Reg → ℕ → Segment → Segment
append_reg_modules env regs total seg = append_modules env regs total regs seg

-- The header is written, and everything behind it cleared.
unfoldable pub init_reg_modules : Env → List Reg → ℕ → Segment → Segment
init_reg_modules env regs total seg = append_reg_modules env regs total (record {
  magic = shm_magic;
  data_offset = head_size;
  data_length = head_size;
  modules = [];
  bytes = bzero 0 total seg.bytes;
})
