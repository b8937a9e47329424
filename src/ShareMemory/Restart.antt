-- ===== src/ShareMemory/Restart.antt =====
-- What the block of datacenter/ShareMemoryCenter.cpp holds once the modules are attached.
use mathlib.Core.Path.{subst}
use playground.Prelude.{
  ℕ, ◌+◌, ◌≤◌, ◌<◌, ◌≡◌, refl, sym, ap, ◌∙◌, List, [], ◌∷◌, ◌++◌, some, length,
}
use playground.Prelude.Words.{pos, word64}
use playground.ShareMemory.{
  Reg, Module, Segment, Center, Env, Call, head_size, shm_magic, max_modules,
}
use playground.ShareMemory.Init.{attach_modules, attach_all_modules}
use playground.ShareMemory.Registered.{sizes, Distinct, Names, placed, placed-Names, placed-append}
use playground.ShareMemory.Appending.{IsKept}
use playground.ShareMemory.Attaching.{Agrees, calls_of, ran, flagged, attached, attach_modules_lem}

-- The block holds the modules of `regs`, one behind the other behind the header, all of them
-- initialised.
pub record Holds (regs : List Reg) (seg : Segment) : Type 0 where
  pub modules : seg.modules ≡ placed 1 head_size regs
  pub data_length : seg.data_length ≡ head_size + sizes regs
  pub magic : seg.magic ≡ shm_magic

-- The registered modules fit: the names into the entries, the entries into the header, and the sizes
-- into 64 bits.
pub record Fits (env : Env) (regs : List Reg) : Type 0 where
  pub kept : IsKept env regs
  pub small : head_size + sizes regs < word64
  pub few : length regs ≤ max_modules
  pub agrees : Agrees env

-- The center `c'` has the modules of `regs` in its block and has called, after the calls `past`, the
-- notifiers for `entries`, beginning with the memory `bytes`.
pub record IsUp (env : Env) (past : List Call) (c' : Center) (regs : List Reg)
    (entries : List Module) (bytes : ℕ → ℕ) : Type 0 where
  pub block : Segment
  pub segment : c'.segment ≡ some block
  pub holds : Holds regs block
  pub calls : c'.calls ≡ past ++ calls_of regs entries
  pub bytes_ran : block.bytes ≡ ran env (calls_of regs entries) bytes

flagged-placed : (i from : ℕ) (regs : List Reg) → flagged (placed i from regs) ≡ placed 1 from regs
flagged-placed i from [] = refl
flagged-placed i from (r ∷ regs) =
    ap (◌∷◌ (record { name = r.name; inited = 1; offset = from; size = r.size }))
      (flagged-placed i (from + r.size) regs)

flagged-append : (a b : List Module) → flagged (a ++ b) ≡ flagged a ++ flagged b
flagged-append [] b = refl
flagged-append (m ∷ a) b = ap (◌∷◌ (record m { inited = 1 })) (flagged-append a b)

Names-append :
    (ms : List Module) (regs : List Reg) (ns : List Module) (news : List Reg)
    → Names ms regs
    → Names ns news
    → Names (ms ++ ns) (regs ++ news)
Names-append [] [] ns news h k = k
Names-append (m ∷ ms) (r ∷ regs) ns news (e, h) k = (e, Names-append ms regs ns news h k)
Names-append [] (r ∷ regs) ns news h k = absurd h
Names-append (m ∷ ms) [] ns news h k = absurd h

-- The entries of the old modules and those added for the new ones.
abbrev pub entries : List Reg → List Reg → List Module
entries olds news = placed 1 head_size olds ++ placed 0 (head_size + sizes olds) news

flagged-entries :
    (olds news : List Reg) → flagged (entries olds news) ≡ placed 1 head_size (olds ++ news)
flagged-entries olds news =
    flagged-append (placed 1 head_size olds) (placed 0 (head_size + sizes olds) news)
    ∙ ap (λ ms. ms ++ flagged (placed 0 (head_size + sizes olds) news))
        (flagged-placed 1 head_size olds)
    ∙ ap (◌++◌ (placed 1 head_size olds)) (flagged-placed 0 (head_size + sizes olds) news)
    ∙ sym (placed-append 1 head_size olds news)

module _ (env : Env) (c : Center) (h : Fits env c.regs) (distinct : Distinct c.regs)
    (olds news : List Reg) (regs : c.regs ≡ olds ++ news) where
  -- The notifiers are called for the entries of the block, and all of these are marked.
  pub attach_all-IsUp :
      (seg : Segment)
      → seg.modules ≡ entries olds news
      → seg.data_length ≡ head_size + sizes c.regs
      → seg.magic ≡ shm_magic
      → ((attach_all_modules env c seg).0 ≡ pos 0)
        × IsUp env c.calls (attach_all_modules env c seg).1 c.regs (entries olds news) seg.bytes
  unfolding attach_all_modules
  attach_all-IsUp seg mods len magic =
      let names : Names seg.modules c.regs =
        subst (λ l. Names seg.modules l) (sym regs)
          (subst (λ ms. Names ms (olds ++ news)) (sym mods)
            (Names-append (placed 1 head_size olds) olds (placed 0 (head_size + sizes olds) news)
              news (placed-Names 1 head_size olds)
              (placed-Names 0 (head_size + sizes olds) news))) in
      let run : attach_modules env c.regs seg.modules seg.bytes
          ≡ attached env c.regs (entries olds news) seg.bytes =
        attach_modules_lem env c.regs distinct h.agrees [] c.regs seg.modules seg.bytes refl names
        ∙ ap (λ ms. attached env c.regs ms seg.bytes) mods in
      (
        ap (λ a. a.ret) run,
        record {
          block = record seg {
            modules = (attach_modules env c.regs seg.modules seg.bytes).modules;
            bytes = (attach_modules env c.regs seg.modules seg.bytes).bytes;
          };
          segment = refl;
          holds = record {
            modules =
                ap (λ a. a.modules) run
                ∙ flagged-entries olds news
                ∙ ap (placed 1 head_size) (sym regs);
            data_length = len;
            magic = magic;
          };
          calls = ap (λ a. c.calls ++ a.calls) run;
          bytes_ran = ap (λ a. a.bytes) run;
        },
      )
