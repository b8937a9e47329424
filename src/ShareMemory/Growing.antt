-- ===== src/ShareMemory/Growing.antt =====
-- What AppendRegModules of datacenter/ShareMemoryCenter.cpp makes of a block that an earlier process
-- has left.
use mathlib.Core.Path.{subst}
use playground.Prelude.{◌+◌, ◌≡◌, sym, ap, ◌∙◌, List, [], ◌++◌, length, length-append, arith}
use playground.ShareMemory.{Reg, Segment, Env, head_size, append_modules, append_reg_modules}
use playground.ShareMemory.Registered.{
  sizes, sizes-append, Distinct, Names, placed-Names, length-placed,
}
use playground.ShareMemory.Appending.{IsAppended, append_modules_new, append_modules_known}
use playground.ShareMemory.Restart.{Holds, Fits}

module _ (env : Env) (regs : List Reg) (h : Fits env regs) (distinct : Distinct regs)
    (olds news : List Reg) (split : regs ≡ olds ++ news) where
  pub sizes_split : sizes regs ≡ sizes olds + sizes news
  sizes_split = ap sizes split ∙ sizes-append olds news

  pub length_split : length regs ≡ length olds + length news
  length_split = ap length split ∙ length-append olds news

  -- AppendRegModules adds the new modules to a block that holds the old ones.
  pub append_reg_modules-IsAppended :
      (seg : Segment)
      → Holds olds seg
      → let total = head_size + sizes regs in
        IsAppended seg (append_reg_modules env regs total seg) news
  unfolding append_reg_modules
  append_reg_modules-IsAppended seg b =
      let total = head_size + sizes regs in
      let names : Names seg.modules olds =
        subst (λ ms. Names ms olds) (sym b.modules) (placed-Names 1 head_size olds) in
      let count : length seg.modules ≡ length olds =
        ap length b.modules ∙ length-placed 1 head_size olds in
      let skip : append_modules env regs total regs seg ≡ append_modules env regs total news seg =
        ap (λ l. append_modules env regs total l seg) split
        ∙ append_modules_known env regs total distinct h.kept h.small [] olds news seg names in
      subst (λ s. IsAppended seg s news) (sym skip)
        (append_modules_new env regs total distinct h.kept h.small olds news seg split names
          (omega (arith, b.data_length, sizes_split)) (omega (arith, h.few, count, length_split)))
