-- ===== src/ShareMemory/Appending.antt =====
-- What AppendRegModules of datacenter/ShareMemoryCenter.cpp adds to a block.
use mathlib.Core.Path.{subst}
use mathlib.Core.List.{append-nil, append_assoc}
use playground.Prelude.{
  ℕ, ◌+◌, ◌≤◌, ◌<◌, ◌≡◌, refl, sym, ap, ◌∙◌, false, List, [], ◌∷◌, ◌++◌, none, some, length, leb,
  ltb, All, All-append_right, length-append, arith, dec_lt,
}
use playground.Prelude.Words.{u64, word64}
use playground.ShareMemory.{
  Reg, Module, Segment, Env, max_modules, find_reg, find_module, bzero, add_entry, add_module,
  append_modules,
}
use playground.ShareMemory.Registered.{
  sizes, Distinct, Distinct-IsNew, find_reg-own, Names, placed, find_module-new, find_module-known,
}

-- A name that fits into an entry is kept.
abbrev pub IsKept : Env → List Reg → Type 0
IsKept env regs = All (λ r. env.store_name r.name ≡ r.name) regs

-- `seg'` is `seg` with entries for `regs` behind the old ones and zeros in their regions.
pub record IsAppended (seg seg' : Segment) (regs : List Reg) : Type 0 where
  pub modules : seg'.modules ≡ seg.modules ++ placed 0 seg.data_length regs
  pub data_length : seg'.data_length ≡ seg.data_length + sizes regs
  pub magic : seg'.magic ≡ seg.magic
  pub old_bytes : (k : ℕ) → k < seg.data_length → seg'.bytes k ≡ seg.bytes k
  pub new_bytes :
      (k : ℕ) → seg.data_length ≤ k → k < seg.data_length + sizes regs → seg'.bytes k ≡ 0

add_entry-IsAppended :
    (env : Env) (r : Reg) (seg : Segment)
    → env.store_name r.name ≡ r.name
    → seg.data_length + r.size < word64
    → IsAppended seg (add_entry env r seg) (r ∷ [])
unfolding add_entry bzero
add_entry-IsAppended env r seg kept fits = record {
  modules =
      ap
        (λ n.
          seg.modules
          ++ record { name = n; inited = 0; offset = seg.data_length; size = r.size } ∷ [])
        kept;
  data_length = omega (arith, fits);
  magic = refl;
  old_bytes = λ k lt. ground (arith, lt);
  new_bytes = λ k le lt. ground (arith, le, lt);
}

IsAppended-trans :
    (a b c : Segment) (r : Reg) (regs : List Reg)
    → IsAppended a b (r ∷ [])
    → IsAppended b c regs
    → IsAppended a c (r ∷ regs)
IsAppended-trans a b c r regs p q =
    let behind : b.data_length ≡ a.data_length + r.size = omega (arith, p.data_length) in
    let here : Module = record {
      name = r.name;
      inited = 0;
      offset = a.data_length;
      size = r.size;
    } in
    record {
      modules =
          q.modules
          ∙ ap (λ ms. ms ++ placed 0 b.data_length regs) p.modules
          ∙ append_assoc a.modules (here ∷ []) (placed 0 b.data_length regs)
          ∙ ap (λ n. a.modules ++ here ∷ placed 0 n regs) behind;
      data_length = omega (arith, q.data_length, behind);
      magic = q.magic ∙ p.magic;
      old_bytes = λ k lt. q.old_bytes k (omega (arith, lt, behind)) ∙ p.old_bytes k lt;
      new_bytes = λ k le lt. elim (dec_lt k b.data_length) [
        | yes y ↦ q.old_bytes k y ∙ p.new_bytes k le (omega (arith, y, behind))
        | no n ↦ q.new_bytes k (omega (arith, n)) (omega (arith, lt, behind))
      ];
    }

IsAppended-nil : (seg : Segment) → IsAppended seg seg []
IsAppended-nil seg = record {
  modules = sym (append-nil seg.modules);
  data_length = omega arith;
  magic = refl;
  old_bytes = λ k lt. refl;
  new_bytes = λ k le lt. absurd (omega (arith, le, lt));
}

Names-snoc :
    (ms : List Module) (regs : List Reg) (m : Module) (r : Reg)
    → Names ms regs
    → m.name ≡ r.name
    → Names (ms ++ m ∷ []) (regs ++ r ∷ [])
Names-snoc [] [] m r h e = (e, tt)
Names-snoc (x ∷ ms) (q ∷ regs) m r (f, h) e = (f, Names-snoc ms regs m r h e)
Names-snoc [] (q ∷ regs) m r h e = absurd h
Names-snoc (x ∷ ms) [] m r h e = absurd h

module _ (env : Env) (regs : List Reg) (total : ℕ) (distinct : Distinct regs)
    (kept : IsKept env regs) (small : total < word64) where
  add_module-own :
      (front : List Reg) (r : Reg) (back : List Reg) (seg : Segment)
      → regs ≡ front ++ r ∷ back
      → seg.data_length + r.size ≤ total
      → length seg.modules < max_modules
      → (add_module env regs total r.name seg).1 ≡ add_entry env r seg
  unfolding add_module
  add_module-own front r back seg e fits room =
      let own : find_reg regs r.name ≡ some r =
        ap (λ l. find_reg l r.name) e ∙ find_reg-own front r back (subst Distinct e distinct) in
      let enough : ltb total (u64 (r.size + seg.data_length)) ≡ false =
        ground (arith, fits, small) in
      let more : leb max_modules (length seg.modules) ≡ false = ground (arith, room) in
      simp (own, add_module, enough, more) refl

  pub append_modules_new :
      (front todo : List Reg) (seg : Segment)
      → regs ≡ front ++ todo
      → Names seg.modules front
      → seg.data_length + sizes todo ≤ total
      → length seg.modules + length todo ≤ max_modules
      → IsAppended seg (append_modules env regs total todo seg) todo
  unfolding append_modules
  append_modules_new front [] seg e h fits room = IsAppended-nil seg
  append_modules_new front (r ∷ todo) seg e h fits room =
      let d : Distinct (front ++ r ∷ todo) = subst Distinct e distinct in
      let fresh : find_module seg.modules r.name ≡ none =
        find_module-new seg.modules front r.name h (Distinct-IsNew front r todo d) in
      let here : env.store_name r.name ≡ r.name =
        (All-append_right (λ (s : Reg). env.store_name s.name ≡ s.name) front (r ∷ todo)
          (subst (IsKept env) e kept)).0 in
      let seg1 = add_entry env r seg in
      let first = add_entry-IsAppended env r seg here (omega (arith, fits, small)) in
      let names : Names seg1.modules (front ++ r ∷ []) =
        subst (λ ms. Names ms (front ++ r ∷ [])) (sym first.modules)
          (Names-snoc seg.modules front _ r h refl) in
      let count : length seg1.modules ≡ length seg.modules + 1 =
        ap length first.modules ∙ length-append seg.modules _ in
      let rest =
        append_modules_new (front ++ r ∷ []) todo seg1 (e ∙ sym (append_assoc front (r ∷ []) todo))
          names (omega (arith, fits, first.data_length)) (omega (arith, room, count)) in
      let step : append_modules env regs total (r ∷ todo) seg
          ≡ append_modules env regs total todo seg1 =
        ap
          (λ x. append_modules env regs total todo (elim x as (λ _. Segment) [
            | some _ ↦ seg
            | none ↦ (add_module env regs total r.name seg).1
          ]))
          fresh
        ∙ ap (append_modules env regs total todo)
            (add_module-own front r todo seg e (omega (arith, fits)) (omega (arith, room))) in
      subst (λ s. IsAppended seg s (r ∷ todo)) (sym step)
        (IsAppended-trans seg seg1 (append_modules env regs total todo seg1) r todo first rest)

  -- The modules of `olds` are in the block already.
  pub append_modules_known :
      (front olds news : List Reg) (seg : Segment)
      → Names seg.modules (front ++ olds)
      → append_modules env regs total (olds ++ news) seg ≡ append_modules env regs total news seg
  unfolding append_modules
  append_modules_known front [] news seg h = refl
  append_modules_known front (r ∷ olds) news seg h =
      let (m, found) = find_module-known seg.modules front r olds h in
      ap
        (λ x. append_modules env regs total (olds ++ news) (elim x as (λ _. Segment) [
          | some _ ↦ seg
          | none ↦ (add_module env regs total r.name seg).1
        ]))
        found
      ∙ append_modules_known (front ++ r ∷ []) olds news seg
          (subst (Names seg.modules) (sym (append_assoc front (r ∷ []) olds)) h)
