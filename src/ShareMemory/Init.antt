-- ===== src/ShareMemory/Init.antt =====
-- datacenter/ShareMemoryCenter.cpp: Init, with the calls of the notifiers.
use playground.Prelude.{
  ℕ, ◌+◌, Bool, false, ◌&&◌, List, [], ◌∷◌, ◌++◌, Option, none, some, ltb, ◌==◌, if◌then◌else◌,
  length,
}
use playground.Prelude.Words.{ℤ, pos, minus_one, is_zero_ℤ, ltb_ℤ, ◌-ℤ◌, u64}
use playground.Prelude.Strings.{same}
use playground.ShareMemory.{
  Reg, Module, Segment, Call, Center, Env, head_size, shm_magic, find_reg, append_reg_modules,
  init_reg_modules,
}

abbrev pub call_of : Module → Call
call_of m = record { name = m.name; offset = m.offset; size = m.size; inited = m.inited }

pub record Attached : Type 0 where
  pub ret : ℤ
  pub modules : List Module
  pub bytes : ℕ → ℕ
  pub calls : List Call

abbrev pub with_entry : Module → List Call → Attached → Attached
with_entry m calls rest = record rest {
  modules = record m { inited = 1 } ∷ rest.modules;
  calls = calls ++ rest.calls;
}

-- The loop of AttachAllModules.
unfoldable pub attach_modules : Env → List Reg → List Module → (ℕ → ℕ) → Attached
attach_modules env regs [] bytes = record { ret = pos 0; modules = []; bytes = bytes; calls = [] }
attach_modules env regs (m ∷ ms) bytes =
    let called = env.on_attach (call_of m) bytes in
    let quiet = attach_modules env regs ms bytes in
    let rest = attach_modules env regs ms called.1 in
    elim (find_reg regs m.name) [
      | none ↦ record { ret = minus_one; modules = m ∷ ms; bytes = bytes; calls = [] }
      | some reg ↦
          if reg.notified
          then (if is_zero_ℤ called.0 then with_entry m (call_of m ∷ []) rest else record {
            ret = minus_one;
            modules = m ∷ ms;
            bytes = called.1;
            calls = call_of m ∷ [];
          })
          else with_entry m [] quiet
    ]

unfoldable pub attach_all_modules : Env → Center → Segment → ℤ × Center
attach_all_modules env c seg =
    let done = attach_modules env c.regs seg.modules seg.bytes in
    (
      done.ret,
      record c {
        segment = some (record seg { modules = done.modules; bytes = done.bytes });
        calls = c.calls ++ done.calls;
      },
    )

-- Check; true is its 0.
unfoldable pub check : Env → Segment → Bool
check env seg = if ltb_ℤ (pos 0) env.attach_num then same seg.magic shm_magic else false

-- Init where there is an old block. `none` is the failed assertion that it is to be extended.
unfoldable pub recover : Env → Center → Segment → Option (ℤ × Center)
recover env c seg =
    if check env seg
    then (if seg.data_length == c.total
        then some (attach_all_modules env c seg)
        else if ltb seg.data_length c.total && ltb (length seg.modules) (length c.regs)
        then some (attach_all_modules env c (append_reg_modules env c.regs c.total seg))
        else none)
    else some (minus_one, record c { segment = some seg })

-- Init where there is none.
unfoldable pub create_block : Env → Center → Option (ℤ × Center)
create_block env c =
    let made = env.create c.total in
    if is_zero_ℤ made.0
    then elim made.1 [
      | none ↦ none
      | some seg ↦ some (attach_all_modules env c (init_reg_modules env c.regs c.total seg))
    ]
    else some (minus_one, c)

-- Init behind the addition to the total size.
unfoldable pub attach_block : Env → Center → Option (ℤ × Center)
attach_block env c =
    let got = env.attach c.total in
    if is_zero_ℤ got.0
    then elim got.1 [ none ↦ none | some seg ↦ recover env c seg ]
    else if is_zero_ℤ (got.0 -ℤ pos 1)
    then create_block env (record c { segment = got.1 })
    else some (minus_one, record c { segment = got.1 })

-- `none` is a failed assertion, or a null pointer that is followed.
unfoldable pub init : Env → Center → Option (ℤ × Center)
init env c = attach_block env (record c { total = u64 (c.total + head_size) })
