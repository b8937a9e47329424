-- ===== src/ShareMemory/Recovery.antt =====
-- What Init of datacenter/ShareMemoryCenter.cpp makes of a new block, and of one that an earlier
-- process has left.
use mathlib.Core.Path.{subst}
use mathlib.Core.List.{append-nil}
use playground.Prelude.{
  ℕ, ◌+◌, ◌≤◌, ◌<◌, ◌≡◌, ◌⊎◌, ◌&&◌, refl, sym, ap, ◌∙◌, true, false, List, [], ◌∷◌, ◌++◌, some,
  Option, inl, inr, length, ltb, ◌==◌, arith,
}
use playground.Prelude.Words.{pos, ltb_ℤ}
use playground.Prelude.Strings.{same_refl}
use playground.ShareMemory.{
  Reg, Segment, Center, Env, Call, head_size, shm_magic, bzero, append_reg_modules,
  init_reg_modules,
}
use playground.ShareMemory.Init.{attach_all_modules, check, recover, init}
use playground.ShareMemory.Registered.{sizes, Distinct, IsRegistered, placed, length-placed}
use playground.ShareMemory.Appending.{IsAppended}
use playground.ShareMemory.Starting.{sized, at_start, init-attach_block, init-create_block}
use playground.ShareMemory.Restart.{Holds, Fits, IsUp, entries, attach_all-IsUp}
use playground.ShareMemory.Growing.{sizes_split, length_split, append_reg_modules-IsAppended}

length-positive : (regs : List Reg) → 0 < sizes regs → 0 < length regs
length-positive [] h = h
length-positive (r ∷ regs) h = omega arith

-- What Init comes to for a center with the modules `regs` and the calls `past` so far: it returns 0,
-- the block holds the modules, and the notifiers are called for `entries olds news`, beginning with
-- a memory that is as the old one in the regions of the old modules and 0 in those of the new ones.
pub record IsRecovered (env : Env) (regs : List Reg) (past : List Call) (c' : Center)
    (seg : Segment) (olds news : List Reg) : Type 0 where
  pub bytes : ℕ → ℕ
  pub up : IsUp env past c' regs (entries olds news) bytes
  pub old_bytes : (k : ℕ) → k < head_size + sizes olds → bytes k ≡ seg.bytes k
  pub new_bytes : (k : ℕ) → head_size + sizes olds ≤ k → k < head_size + sizes regs → bytes k ≡ 0

-- The same for a new block, whose memory is 0 from the header's end to the end of the last region.
pub record IsCreated (env : Env) (regs : List Reg) (past : List Call) (c' : Center) : Type 0 where
  pub bytes : ℕ → ℕ
  pub up : IsUp env past c' regs (placed 0 head_size regs) bytes
  pub zeros : (k : ℕ) → head_size ≤ k → k < head_size + sizes regs → bytes k ≡ 0

module _ (env : Env) (c : Center) (h : Fits env c.regs) (distinct : Distinct c.regs)
    (total : c.total ≡ head_size + sizes c.regs) (there : ltb_ℤ (pos 0) env.attach_num ≡ true)
    (olds news : List Reg) (split : c.regs ≡ olds ++ news) (seg : Segment)
    (b : Holds olds seg) where
  check-Holds : check env seg ≡ true
  unfolding check
  check-Holds = rw (there, b.magic, same_refl shm_magic) refl

  -- The block grows by the new modules.
  recover-more :
      0 < sizes news
      → (c' : Center) × (recover env c seg ≡ some (pos 0, c'))
        × IsRecovered env c.regs c.calls c' seg olds news
  unfolding recover
  recover-more some_size =
      let seg1 = append_reg_modules env c.regs c.total seg in
      let a : IsAppended seg seg1 news =
        subst (λ t. IsAppended seg (append_reg_modules env c.regs t seg) news) (sym total)
          (append_reg_modules-IsAppended env c.regs h distinct olds news split seg b) in
      let sum = sizes_split env c.regs h distinct olds news split in
      let mods : seg1.modules ≡ entries olds news =
        a.modules
        ∙ ap (λ ms. ms ++ placed 0 seg.data_length news) b.modules
        ∙ ap (λ n. placed 1 head_size olds ++ placed 0 n news) b.data_length in
      let (ret, up) =
        attach_all-IsUp env c h distinct olds news split seg1 mods
          (omega (arith, a.data_length, b.data_length, sum)) (a.magic ∙ b.magic) in
      let sizes_differ : seg.data_length == c.total ≡ false =
        ground (arith, b.data_length, total, sum, some_size) in
      let grows : ltb seg.data_length c.total && ltb (length seg.modules) (length c.regs) ≡ true =
        ground (
          arith,
          b.data_length,
          total,
          sum,
          some_size,
          ap length b.modules ∙ length-placed 1 head_size olds,
          length_split env c.regs h distinct olds news split,
          length-positive news some_size,
        ) in
      (
        (attach_all_modules env c seg1).1,
        simp (check-Holds, sizes_differ, grows)
            (ap (λ r. some (r, (attach_all_modules env c seg1).1)) ret),
        record {
          bytes = seg1.bytes;
          up = up;
          old_bytes = λ k lt. a.old_bytes k (omega (arith, lt, b.data_length));
          new_bytes = λ k le lt.
              a.new_bytes k (omega (arith, le, b.data_length))
                (omega (arith, lt, b.data_length, sum));
        },
      )

  recover-same :
      news ≡ []
      → (c' : Center) × (recover env c seg ≡ some (pos 0, c'))
        × IsRecovered env c.regs c.calls c' seg olds news
  unfolding recover
  recover-same none_new =
      let sum = sizes_split env c.regs h distinct olds news split in
      let nothing : sizes news ≡ 0 = ap sizes none_new in
      let mods : seg.modules ≡ entries olds news =
        b.modules ∙ sym (append-nil (placed 1 head_size olds)) ∙ ap (entries olds) (sym none_new) in
      let len : seg.data_length ≡ head_size + sizes c.regs =
        omega (arith, b.data_length, sum, nothing) in
      let (ret, up) = attach_all-IsUp env c h distinct olds news split seg mods len b.magic in
      let sizes_same : seg.data_length == c.total ≡ true = ground (arith, len, total) in
      (
        (attach_all_modules env c seg).1,
        simp (check-Holds, sizes_same) (ap (λ r. some (r, (attach_all_modules env c seg).1)) ret),
        record {
          bytes = seg.bytes;
          up = up;
          old_bytes = λ k lt. refl;
          new_bytes = λ k le lt. absurd (omega (arith, le, lt, sum, nothing));
        },
      )

module _ (env : Env) (c : Center) (h : Fits env c.regs) (r : IsRegistered c) where
  -- The modules are registered with different names that entries keep whole, at most 256, the
  -- sizes with the header below 2 ^ 64, and every notifier returns 0. Attach finds a block that
  -- holds the first of them, as an earlier Init left it, and either these are all or the others
  -- have at least one byte together. Then Init returns 0, the block holds all modules one behind
  -- the other and marked as initialised, and the notifiers are called once each, in the order of
  -- registration: for the old modules with the flag 1 and for the new ones with 0. Before the
  -- calls the regions of the old modules are as they were, and those of the new ones are 0.
  pub init-recovers :
      (olds news : List Reg) (seg : Segment)
      → c.regs ≡ olds ++ news
      → (news ≡ []) ⊎ (0 < sizes news)
      → env.attach (head_size + sizes c.regs) ≡ (pos 0, some seg)
      → ltb_ℤ (pos 0) env.attach_num ≡ true
      → Holds olds seg
      → (c' : Center) × (init env c ≡ some (pos 0, c'))
        × IsRecovered env c.regs c.calls c' seg olds news
  init-recovers olds news seg split size got there b =
      let old_block : init env c ≡ recover env (sized c) seg =
        init-attach_block env c r.total h.small ∙ ap (at_start env c) got in
      elim size [
        | inl none_new ↦
            let (c', e, up) =
              recover-same env (sized c) h r.distinct refl there olds news split seg b none_new in
            (c', old_block ∙ e, up)
        | inr some_size ↦
            let (c', e, up) =
              recover-more env (sized c) h r.distinct refl there olds news split seg b some_size in
            (c', old_block ∙ e, up)
      ]

  -- The modules are registered with different names that entries keep whole, at most 256, the
  -- sizes with the header below 2 ^ 64, and every notifier returns 0. Where there is no block yet
  -- and one can be created, Init returns 0, the block holds all modules one behind the other and
  -- marked as initialised, and the notifiers are called once each, in the order of registration,
  -- with the flag 0, beginning with a memory that is 0 in the regions of all modules.
  pub init-creates :
      (nothing : Option Segment) (seg : Segment)
      → env.attach (head_size + sizes c.regs) ≡ (pos 1, nothing)
      → env.create (head_size + sizes c.regs) ≡ (pos 0, some seg)
      → (c' : Center) × (init env c ≡ some (pos 0, c')) × IsCreated env c.regs c.calls c'
  unfolding init_reg_modules
  init-creates nothing seg got made =
      let total = head_size + sizes c.regs in
      let c1 : Center = record (sized c) { segment = nothing } in
      let blank : Segment = record {
        magic = shm_magic;
        data_offset = head_size;
        data_length = head_size;
        modules = [];
        bytes = bzero 0 total seg.bytes;
      } in
      let a =
        append_reg_modules-IsAppended env c.regs h r.distinct [] c.regs refl blank
          (record { modules = refl; data_length = refl; magic = refl }) in
      let seg1 = append_reg_modules env c.regs total blank in
      let (ret, up) =
        attach_all-IsUp env c1 h r.distinct [] c.regs refl seg1 a.modules a.data_length a.magic in
      (
        (attach_all_modules env c1 seg1).1,
        init-create_block env c r.total h.small nothing seg got made
            ∙ ap (λ x. some (x, (attach_all_modules env c1 seg1).1)) ret,
        record { bytes = seg1.bytes; up = up; zeros = a.new_bytes },
      )
