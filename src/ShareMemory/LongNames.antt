-- ===== src/ShareMemory/LongNames.antt =====
-- A module of datacenter/ShareMemoryCenter.cpp whose name is not kept whole in its entry.
use mathlib.Core.List.{append-nil, append_assoc}
use playground.Prelude.{
  ℕ, ◌+◌, ◌<◌, ◌≡◌, refl, sym, ap, ◌∙◌, false, List, [], ◌∷◌, ◌++◌, none, some, Option, length, leb,
  ltb, if◌then◌else◌, arith, inl, inr, Bool-cases, Option-cases,
}
use playground.Prelude.Words.{ℤ, u64, word64, pos, minus_one}
use playground.Prelude.Strings.{same_refl}
use playground.ShareMemory.{
  Reg, Module, Segment, Center, Env, head_size, shm_magic, max_modules, find_reg, find_module,
  bzero, add_entry, add_module, append_modules, append_reg_modules, init_reg_modules,
}
use playground.ShareMemory.Init.{attach_modules, attach_all_modules, init}
use playground.ShareMemory.Starting.{sized, init-create_block}
use playground.ShareMemory.Registered.{sizes, IsRegistered}

-- AppendRegModules only adds entries.
add_module-grows :
    (env : Env) (regs : List Reg) (total : ℕ) (name : List ℕ) (seg : Segment)
    → (more : List Module) × ((add_module env regs total name seg).1.modules ≡ seg.modules ++ more)
unfolding add_module add_entry
add_module-grows env regs total name seg = elim (Option-cases (find_reg regs name)) [
  | inl e ↦ rw (e, add_module) ([], sym (append-nil seg.modules))
  | inr (reg, e) ↦ elim (Bool-cases (ltb total (u64 (reg.size + seg.data_length)))) [
    | inl t ↦ simp (e, add_module, t) ([], sym (append-nil seg.modules))
    | inr f ↦ elim (Bool-cases (leb max_modules (length seg.modules))) [
      | inl t ↦ simp (e, add_module, f, t) ([], sym (append-nil seg.modules))
      | inr g ↦ simp (e, add_module, f, g) (_, refl)
    ]
  ]
]

append_modules-grows :
    (env : Env) (regs : List Reg) (total : ℕ) (todo : List Reg) (seg : Segment)
    → (more : List Module) × ((append_modules env regs total todo seg).modules
        ≡ seg.modules ++ more)
unfolding append_modules
append_modules-grows env regs total [] seg = ([], sym (append-nil seg.modules))
append_modules-grows env regs total (r ∷ todo) seg =
    elim (Option-cases (find_module seg.modules r.name)) [
      | inr (m, e) ↦ rw (e, append_modules) (append_modules-grows env regs total todo seg)
      | inl e ↦
          let seg1 = (add_module env regs total r.name seg).1 in
          let (ms, first) = add_module-grows env regs total r.name seg in
          let (more, rest) = append_modules-grows env regs total todo seg1 in
          rw (e, append_modules)
            (ms ++ more, rest ∙ ap (λ l. l ++ more) first ∙ append_assoc seg.modules ms more)
    ]

abbrev first_entry : Env → Reg → Module
first_entry env r = record {
  name = env.store_name r.name;
  inited = 0;
  offset = head_size;
  size = r.size;
}

-- What AppendRegModules makes of an empty block begins with the entry of the first module.
append_reg_modules-first :
    (env : Env) (r : Reg) (rest : List Reg) (seg : Segment)
    → seg.modules ≡ []
    → seg.data_length ≡ head_size
    → head_size + sizes (r ∷ rest) < word64
    → (more : List Module) × ((append_reg_modules env
          (r ∷ rest)
          (head_size + sizes (r ∷ rest))
          seg).modules
        ≡ first_entry env r ∷ more)
unfolding append_reg_modules append_modules add_module add_entry find_reg find_module
append_reg_modules-first env r rest seg empty len small =
    let total = head_size + sizes (r ∷ rest) in
    let gone : find_module seg.modules r.name ≡ none = ap (λ ms. find_module ms r.name) empty in
    let own : find_reg (r ∷ rest) r.name ≡ some r = rw (same_refl r.name) refl in
    let enough : ltb total (u64 (r.size + seg.data_length)) ≡ false = ground (arith, len, small) in
    let room : leb max_modules (length seg.modules) ≡ false = ground (arith, ap length empty) in
    let added : (add_module env (r ∷ rest) total r.name seg).1 ≡ add_entry env r seg =
      ap
        (λ x.
          (elim x as (λ _. ℤ × Segment) [
            | none ↦ (minus_one, seg)
            | some reg ↦
                if ltb total (u64 (reg.size + seg.data_length))
                then (minus_one, seg)
                else if leb max_modules (length seg.modules)
                then (minus_one, seg)
                else (pos 0, add_entry env reg seg)
          ]).1)
        own
      ∙ simp (enough, room) refl in
    let (more, grown) = append_modules-grows env (r ∷ rest) total rest (add_entry env r seg) in
    (
      more,
      ap
            (λ x.
              (append_modules env (r ∷ rest) total rest (elim x as (λ _. Segment) [
                | some _ ↦ seg
                | none ↦ (add_module env (r ∷ rest) total r.name seg).1
              ])).modules)
            gone
          ∙ ap (λ s. (append_modules env (r ∷ rest) total rest s).modules) added
          ∙ grown
          ∙ ap (λ ms. (ms ++ record (first_entry env r) { offset = seg.data_length } ∷ []) ++ more)
              empty
          ∙ ap (λ n. record (first_entry env r) { offset = n } ∷ more) len,
    )

-- The modules are registered with different names, and the sizes with the header are below 2 ^ 64.
-- Where the entry of the first module keeps a name that is not registered, there is no block yet
-- and one can be created, Init returns -1 and calls no notifier.
pub init-long_name :
    (env : Env) (c : Center) (r : Reg) (rest : List Reg) (nothing : Option Segment) (seg : Segment)
    → IsRegistered c
    → c.regs ≡ r ∷ rest
    → head_size + sizes c.regs < word64
    → find_reg c.regs (env.store_name r.name) ≡ none
    → env.attach (head_size + sizes c.regs) ≡ (pos 1, nothing)
    → env.create (head_size + sizes c.regs) ≡ (pos 0, some seg)
    → (c' : Center) × (init env c ≡ some (minus_one, c')) × (c'.calls ≡ c.calls)
unfolding init_reg_modules attach_all_modules attach_modules
init-long_name env c r rest nothing seg h regs small lost got made =
    let total = head_size + sizes c.regs in
    let blank : Segment = record {
      magic = shm_magic;
      data_offset = head_size;
      data_length = head_size;
      modules = [];
      bytes = bzero 0 total seg.bytes;
    } in
    let (more, mods) =
      append_reg_modules-first env r rest blank refl refl (omega (arith, small, ap sizes regs)) in
    let block = init_reg_modules env c.regs total seg in
    let c1 : Center = record (sized c) { segment = nothing } in
    let begins : block.modules ≡ first_entry env r ∷ more =
      ap (λ l. (append_reg_modules env l (head_size + sizes l) blank).modules) regs ∙ mods in
    let run : attach_modules env c.regs block.modules block.bytes ≡ (record {
      ret = minus_one;
      modules = first_entry env r ∷ more;
      bytes = block.bytes;
      calls = [];
    }) =
      ap (λ ms. attach_modules env c.regs ms block.bytes) begins ∙ rw (lost, attach_modules) refl in
    (
      (attach_all_modules env c1 block).1,
      init-create_block env c h.total small nothing seg got made
          ∙ ap (λ a. some (a.ret, (attach_all_modules env c1 block).1)) run,
      ap (λ a. c.calls ++ a.calls) run ∙ append-nil c.calls,
    )
