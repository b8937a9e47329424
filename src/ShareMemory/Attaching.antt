-- ===== src/ShareMemory/Attaching.antt =====
-- What AttachAllModules of datacenter/ShareMemoryCenter.cpp does where the notifiers agree.
use mathlib.Core.Path.{subst}
use mathlib.Core.List.{append_assoc}
use playground.Prelude.{
  ℕ, ◌≡◌, refl, sym, ap, ◌∙◌, true, List, [], ◌∷◌, ◌++◌, some, if◌then◌else◌, inl, inr, Bool-cases,
}
use playground.Prelude.Words.{pos, is_zero_ℤ}
use playground.ShareMemory.{Reg, Module, Env, Call, find_reg}
use playground.ShareMemory.Init.{call_of, Attached, with_entry, attach_modules}
use playground.ShareMemory.Registered.{Distinct, find_reg-own, Names}

-- Every notifier returns 0.
abbrev pub Agrees : Env → Type 0
Agrees env = (c : Call) (bytes : ℕ → ℕ) → (env.on_attach c bytes).0 ≡ pos 0

-- The calls of the notifiers: one for each module that has one, in order.
abbrev pub calls_of : List Reg → List Module → List Call
calls_of (r ∷ regs) (m ∷ ms) = if r.notified then call_of m ∷ calls_of regs ms else calls_of regs ms
calls_of _ _ = []

-- What the notifiers make of the memory.
abbrev pub ran : Env → List Call → (ℕ → ℕ) → ℕ → ℕ
ran env [] bytes = bytes
ran env (c ∷ calls) bytes = ran env calls (env.on_attach c bytes).1

abbrev pub flagged : List Module → List Module
flagged [] = []
flagged (m ∷ ms) = record m { inited = 1 } ∷ flagged ms

abbrev pub attached : Env → List Reg → List Module → (ℕ → ℕ) → Attached
attached env regs ms bytes = record {
  ret = pos 0;
  modules = flagged ms;
  bytes = ran env (calls_of regs ms) bytes;
  calls = calls_of regs ms;
}

module _ (env : Env) (regs : List Reg) (distinct : Distinct regs) (agrees : Agrees env) where
  pub attach_modules_lem :
      (front todo : List Reg) (ms : List Module) (bytes : ℕ → ℕ)
      → regs ≡ front ++ todo
      → Names ms todo
      → attach_modules env regs ms bytes ≡ attached env todo ms bytes
  unfolding attach_modules
  attach_modules_lem front [] [] bytes e h = refl
  attach_modules_lem front [] (m ∷ ms) bytes e h = absurd h
  attach_modules_lem front (r ∷ todo) [] bytes e h = absurd h
  attach_modules_lem front (r ∷ todo) (m ∷ ms) bytes e (named, h) =
      let called = env.on_attach (call_of m) bytes in
      let own : find_reg regs m.name ≡ some r =
        ap (find_reg regs) named
        ∙ ap (λ l. find_reg l r.name) e
        ∙ find_reg-own front r todo (subst Distinct e distinct) in
      let again = e ∙ sym (append_assoc front (r ∷ []) todo) in
      let agreed : is_zero_ℤ called.0 ≡ true = ap is_zero_ℤ (agrees (call_of m) bytes) in
      elim (Bool-cases r.notified) [
        | inl t ↦
            simp (own, attach_modules, t, agreed)
              (ap (with_entry m (call_of m ∷ []))
                (attach_modules_lem (front ++ r ∷ []) todo ms called.1 again h))
        | inr f ↦
            simp (own, attach_modules, f)
              (ap (with_entry m []) (attach_modules_lem (front ++ r ∷ []) todo ms bytes again h))
      ]
