-- ===== src/ShareMemory/Starting.antt =====
-- Which way Init of datacenter/ShareMemoryCenter.cpp takes.
use playground.Prelude.{◌+◌, ◌<◌, ◌≡◌, ap, ◌∙◌, none, some, Option, if◌then◌else◌, arith}
use playground.Prelude.Words.{ℤ, pos, ◌-ℤ◌, minus_one, is_zero_ℤ, u64, word64}
use playground.ShareMemory.{Segment, Center, Env, head_size, init_reg_modules}
use playground.ShareMemory.Init.{attach_all_modules, recover, create_block, attach_block, init}
use playground.ShareMemory.Registered.{sizes}

abbrev pub sized : Center → Center
sized c = record c { total = head_size + sizes c.regs }

module _ (env : Env) (c : Center) where
  -- Init, by what Attach gives.
  abbrev pub at_start : ℤ × Option Segment → Option (ℤ × Center)
  at_start got =
      if is_zero_ℤ got.0
      then elim got.1 [ none ↦ none | some seg ↦ recover env (sized c) seg ]
      else if is_zero_ℤ (got.0 -ℤ pos 1)
      then create_block env (record (sized c) { segment = got.1 })
      else some (minus_one, record (sized c) { segment = got.1 })

  module _ (total : c.total ≡ u64 (sizes c.regs)) (small : head_size + sizes c.regs < word64) where
    pub init-attach_block : init env c ≡ at_start (env.attach (head_size + sizes c.regs))
    unfolding init attach_block
    init-attach_block =
        let sum : u64 (c.total + head_size) ≡ head_size + sizes c.regs =
          omega (arith, total, small) in
        ap (λ t. attach_block env (record c { total = t })) sum

    pub init-create_block :
        (nothing : Option Segment) (seg : Segment)
        → env.attach (head_size + sizes c.regs) ≡ (pos 1, nothing)
        → env.create (head_size + sizes c.regs) ≡ (pos 0, some seg)
        → init env c
          ≡ some (
              attach_all_modules env
                (record (sized c) { segment = nothing })
                (init_reg_modules env c.regs (head_size + sizes c.regs) seg))
    unfolding create_block
    init-create_block nothing seg got made =
        let c1 : Center = record (sized c) { segment = nothing } in
        init-attach_block
        ∙ ap at_start got
        ∙ ap
            (λ (x : ℤ × Option Segment).
              if is_zero_ℤ x.0
              then elim x.1 as (λ _. Option (ℤ × Center)) [
                | none ↦ none
                | some s ↦ some (
                    attach_all_modules env c1
                      (init_reg_modules env c.regs (head_size + sizes c.regs) s))
              ]
              else some (minus_one, c1))
            made
