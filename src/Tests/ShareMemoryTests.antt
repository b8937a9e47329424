-- ===== src/Tests/ShareMemoryTests.antt =====
-- The theorems of the shared memory, applied to a program with two modules.
use playground.Prelude.{
  ℕ, zero, suc, ◌+◌, ◌≤◌, ◌≡◌, inr, refl, true, false, List, [], ◌∷◌, none, some, take, arith,
}
use playground.Prelude.Words.{pos, minus_one}
use playground.Prelude.Strings.{same}
use playground.ShareMemory.{
  Reg, Segment, Center, Env, head_size, shm_magic, find_reg, get_module_buffer,
}
use playground.ShareMemory.Init.{init}
use playground.ShareMemory.Registered.{IsRegistered}
use playground.ShareMemory.Restart.{Holds, Fits}
use playground.ShareMemory.Recovery.{IsRecovered, IsCreated, init-recovers, init-creates}
use playground.ShareMemory.Regions.{get_module_buffer-apart}
use playground.ShareMemory.LongNames.{init-long_name}

-- `a` has ten bytes and a notifier, `b` has twenty bytes.
abbrev mod_a : Reg
mod_a = record { name = 97 ∷ []; size = 10; notified = true }

abbrev mod_b : Reg
mod_b = record { name = 98 ∷ []; size = 20; notified = false }

-- The block that a process with `a` has left.
abbrev old : Segment
old = record {
  magic = shm_magic;
  data_offset = head_size;
  data_length = 12588;
  modules = record { name = 97 ∷ []; inited = 1; offset = 12578; size = 10 } ∷ [];
  bytes = λ k. k;
}

abbrev restarted : Env
restarted = record {
  attach = λ n. (pos 0, some old);
  create = λ n. (minus_one, none);
  attach_num = pos 1;
  on_attach = λ c bytes. (pos 0, bytes);
  store_name = λ name. take 31 name;
}

abbrev first_run : Env
first_run = record restarted { attach = λ n. (pos 1, none); create = λ n. (pos 0, some old) }

abbrev center : Center
center = record { regs = mod_a ∷ mod_b ∷ []; total = 30; segment = none; calls = [] }

center-IsRegistered : IsRegistered center
unfolding same
center-IsRegistered = record { distinct = ((refl, tt), (tt, tt)); total = refl }

restarted-Fits : Fits restarted center.regs
restarted-Fits = record {
  kept = (refl, (refl, tt));
  small = omega arith;
  few = omega arith;
  agrees = λ c bytes. refl;
}

first_run-Fits : Fits first_run center.regs
first_run-Fits = record {
  kept = (refl, (refl, tt));
  small = omega arith;
  few = omega arith;
  agrees = λ c bytes. refl;
}

old-Holds : Holds (mod_a ∷ []) old
old-Holds = record { modules = refl; data_length = refl; magic = refl }

init-recovers_example :
    (c' : Center) × (init restarted center ≡ some (pos 0, c'))
    × IsRecovered restarted center.regs center.calls c' old (mod_a ∷ []) (mod_b ∷ [])
init-recovers_example =
    init-recovers restarted center restarted-Fits center-IsRegistered (mod_a ∷ []) (mod_b ∷ []) old
      refl (inr (omega arith)) refl refl old-Holds

init-creates_example :
    (c' : Center) × (init first_run center ≡ some (pos 0, c'))
    × IsCreated first_run center.regs center.calls c'
init-creates_example =
    init-creates first_run center first_run-Fits center-IsRegistered none old refl refl

-- A block with both modules.
abbrev whole : Segment
whole = record old {
  data_length = 12608;
  modules =
      record { name = 97 ∷ []; inited = 1; offset = 12578; size = 10 }
      ∷ record { name = 98 ∷ []; inited = 1; offset = 12588; size = 20 }
      ∷ [];
}

get_module_buffer-apart_example :
    (a b : ℕ) × (get_module_buffer whole (97 ∷ []) ≡ some (a, pos 10))
    × (get_module_buffer whole (98 ∷ []) ≡ some (b, pos 20))
    × (head_size ≤ a)
    × (a + 10 ≤ b)
    × (b + 20 ≤ 12608)
get_module_buffer-apart_example =
    get_module_buffer-apart whole [] mod_a [] mod_b [] center-IsRegistered.distinct
      (record { modules = refl; data_length = refl; magic = refl }) (omega arith) (omega arith)

abbrev letters : ℕ → List ℕ
letters zero = []
letters (suc n) = 97 ∷ letters n

-- A module with a name of 32 bytes.
abbrev wide : Center
wide = record {
  regs = record { name = letters 32; size = 10; notified = true } ∷ [];
  total = 10;
  segment = none;
  calls = [];
}

init-long_name_example :
    (c' : Center) × (init first_run wide ≡ some (minus_one, c')) × (c'.calls ≡ wide.calls)
unfolding same find_reg
init-long_name_example =
    init-long_name first_run wide (record { name = letters 32; size = 10; notified = true }) [] none
      old (record { distinct = (tt, tt); total = refl }) refl (omega arith) refl refl refl
