-- ===== src/ShareMemory/Registered.antt =====
-- The registered modules of datacenter/ShareMemoryCenter.cpp, and the entries that they are to have
-- in the block.
use playground.Prelude.{
  ℕ, suc, ◌+◌, ◌≡◌, ◌≢◌, ◌⊎◌, refl, ap, ◌∙◌, false, List, [], ◌∷◌, ◌++◌, none, some, length, All,
  All-append, All-append_right, arith, inl, inr, Bool-cases, Option-cases,
}
use playground.Prelude.Words.{u64, pos, minus_one}
use playground.Prelude.Strings.{same, same_refl, same_sym}
use playground.ShareMemory.{Reg, Module, Center, new_center, find_reg, find_module, register}

abbrev pub sizes : List Reg → ℕ
sizes [] = 0
sizes (r ∷ regs) = r.size + sizes regs

-- None of the modules has the name.
abbrev pub IsNew : List ℕ → List Reg → Type 0
IsNew name regs = All (λ r. same r.name name ≡ false) regs

abbrev pub Distinct : List Reg → Type 0
Distinct [] = Unit
Distinct (r ∷ regs) = All (λ q. same q.name r.name ≡ false) regs × Distinct regs

pub record IsRegistered (c : Center) : Type 0 where
  pub distinct : Distinct c.regs
  pub total : c.total ≡ u64 (sizes c.regs)

pub find_reg-none : (regs : List Reg) (name : List ℕ) → find_reg regs name ≡ none → IsNew name regs
unfolding find_reg
find_reg-none [] name e = tt
find_reg-none (r ∷ regs) name e = elim (Bool-cases (same r.name name)) [
  | inl t ↦ absurd (cc (simp (t, find_reg) at e))
  | inr f ↦ (f, find_reg-none regs name (simp (f, find_reg) at e))
]

Distinct-snoc :
    (regs : List Reg) (r : Reg) → Distinct regs → IsNew r.name regs → Distinct (regs ++ r ∷ [])
Distinct-snoc [] r d n = (tt, tt)
Distinct-snoc (q ∷ regs) r (first, d) (n, ns) = (
  All-append (λ (s : Reg). same s.name q.name ≡ false) regs (r ∷ []) first
      (same_sym r.name q.name n, tt),
  Distinct-snoc regs r d ns,
)

pub sizes-append : (a b : List Reg) → sizes (a ++ b) ≡ sizes a + sizes b
sizes-append [] b = omega arith
sizes-append (r ∷ a) b = omega (arith, sizes-append a b)

pub new_center-IsRegistered : IsRegistered new_center
new_center-IsRegistered = record { distinct = tt; total = refl }

-- Register refuses a name that is registered, and adds a module of any other name.
register-IsRegistered :
    (c : Center) (reg : Reg)
    → IsRegistered c
    → let (ret, c') = register c reg in
      IsRegistered c'
      × (((ret ≡ minus_one) × (c' ≡ c) × (find_reg c.regs reg.name ≢ none))
          ⊎ ((ret ≡ pos 0) × (c'.regs ≡ c.regs ++ reg ∷ []) × (find_reg c.regs reg.name ≡ none)))
unfolding register
register-IsRegistered c reg h = elim (Option-cases (find_reg c.regs reg.name)) [
  | inl n ↦
      simp (n, register)
        (
          record {
            distinct = Distinct-snoc c.regs reg h.distinct (find_reg-none c.regs reg.name n);
            total = omega (arith, h.total, sizes-append c.regs (reg ∷ []));
          },
          inr (refl, refl, refl),
        )
  | inr (r, e) ↦ simp (e, register) (h, inl (refl, refl, λ q. absurd (cc q)))
]

-- A module that stands behind `before` in the list is found under its name.
pub find_reg-own :
    (front : List Reg) (r : Reg) (back : List Reg)
    → Distinct (front ++ r ∷ back)
    → find_reg (front ++ r ∷ back) r.name ≡ some r
unfolding find_reg
find_reg-own [] r back d = rw (same_refl r.name) refl
find_reg-own (q ∷ front) r back (first, d) =
    let apart =
      (All-append_right (λ (s : Reg). same s.name q.name ≡ false) front (r ∷ back) first).0 in
    rw (same_sym q.name r.name apart) (find_reg-own front r back d)

pub Distinct-IsNew :
    (front : List Reg) (r : Reg) (back : List Reg)
    → Distinct (front ++ r ∷ back)
    → IsNew r.name front
Distinct-IsNew [] r back d = tt
Distinct-IsNew (q ∷ front) r back (first, d) = (
  same_sym q.name r.name
      (All-append_right (λ (s : Reg). same s.name q.name ≡ false) front (r ∷ back) first).0,
  Distinct-IsNew front r back d,
)

-- The entries have the modules' names, in order.
abbrev pub Names : List Module → List Reg → Type 0
Names [] [] = Unit
Names (m ∷ ms) (r ∷ regs) = (m.name ≡ r.name) × Names ms regs
Names _ _ = ⊥

-- The modules one behind the other from the offset `from` on.
abbrev pub placed : ℕ → ℕ → List Reg → List Module
placed inited from [] = []
placed inited from (r ∷ regs) =
    record { name = r.name; inited = inited; offset = from; size = r.size }
    ∷ placed inited (from + r.size) regs

pub placed-Names : (inited from : ℕ) (regs : List Reg) → Names (placed inited from regs) regs
placed-Names inited from [] = tt
placed-Names inited from (r ∷ regs) = (refl, placed-Names inited (from + r.size) regs)

pub length-placed :
    (inited from : ℕ) (regs : List Reg) → length (placed inited from regs) ≡ length regs
length-placed inited from [] = refl
length-placed inited from (r ∷ regs) = ap suc (length-placed inited (from + r.size) regs)

pub placed-append :
    (inited from : ℕ) (a b : List Reg)
    → placed inited from (a ++ b) ≡ placed inited from a ++ placed inited (from + sizes a) b
placed-append inited from [] b = ap (λ n. placed inited n b) (omega arith)
placed-append inited from (r ∷ a) b =
    ap (◌∷◌ (record { name = r.name; inited = inited; offset = from; size = r.size })) (
      placed-append inited (from + r.size) a b
      ∙ ap (λ n. placed inited (from + r.size) a ++ placed inited n b) (omega arith))

pub find_module-new :
    (ms : List Module) (regs : List Reg) (name : List ℕ)
    → Names ms regs
    → IsNew name regs
    → find_module ms name ≡ none
unfolding find_module
find_module-new [] [] name h n = refl
find_module-new (m ∷ ms) (r ∷ regs) name (e, h) (n, ns) =
    let differs : same m.name name ≡ false = ap (λ k. same k name) e ∙ n in
    rw differs (find_module-new ms regs name h ns)
find_module-new [] (r ∷ regs) name h n = absurd h
find_module-new (m ∷ ms) [] name h n = absurd h

pub find_module-known :
    (ms : List Module) (front : List Reg) (r : Reg) (back : List Reg)
    → Names ms (front ++ r ∷ back)
    → (m : Module) × (find_module ms r.name ≡ some m)
unfolding find_module
find_module-known (m ∷ ms) [] r back (e, h) =
    (m, rw (ap (λ k. same k r.name) e ∙ same_refl r.name) refl)
find_module-known (m ∷ ms) (q ∷ front) r back (e, h) = elim (Bool-cases (same m.name r.name)) [
  | inl t ↦ (m, rw t refl)
  | inr f ↦ let (k, found) = find_module-known ms front r back h in (k, rw f found)
]
find_module-known [] [] r back h = absurd h
find_module-known [] (q ∷ front) r back h = absurd h
