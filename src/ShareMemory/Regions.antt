-- ===== src/ShareMemory/Regions.antt =====
-- The regions that GetModleBuffer of datacenter/ShareMemoryCenter.cpp gives out.
use mathlib.Core.Path.{subst}
use playground.Prelude.{
  ℕ, ◌+◌, ◌≤◌, ◌<◌, ◌≡◌, sym, ap, ◌∙◌, false, List, [], ◌∷◌, ◌++◌, Option, none, some,
  All-append_right, arith,
}
use mathlib.Core.List.{append_assoc}
use playground.Prelude.Words.{ℤ, pos, u32, to_int}
use playground.Prelude.Strings.{same, same_refl, same_sym}
use playground.ShareMemory.{Reg, Segment, head_size, find_module, get_module_buffer}
use playground.ShareMemory.Registered.{sizes, sizes-append, Distinct, placed}
use playground.ShareMemory.Restart.{Holds}

find_module-placed :
    (inited from : ℕ) (front : List Reg) (r : Reg) (back : List Reg)
    → Distinct (front ++ r ∷ back)
    → find_module (placed inited from (front ++ r ∷ back)) r.name
      ≡ some (record { name = r.name; inited = inited; offset = from + sizes front; size = r.size })
unfolding find_module
find_module-placed inited from [] r back d = rw (same_refl r.name) (
    ap (λ n. some (record { name = r.name; inited = inited; offset = n; size = r.size }))
      (omega arith))
find_module-placed inited from (q ∷ front) r back (first, d) =
    let apart =
      (All-append_right (λ (s : Reg). same s.name q.name ≡ false) front (r ∷ back) first).0 in
    rw (same_sym q.name r.name apart) (
      find_module-placed inited (from + q.size) front r back d
      ∙ ap (λ n. some (record { name = r.name; inited = inited; offset = n; size = r.size }))
          (omega arith))

-- An `int` keeps what is below 2 ^ 31.
to_int-u32 : (n : ℕ) → n < 2147483648 → to_int (u32 n) ≡ pos n
to_int-u32 n h = ground (arith, h)

buffer_lem :
    (seg : Segment) (front : List Reg) (r : Reg) (back : List Reg)
    → Distinct (front ++ r ∷ back)
    → Holds (front ++ r ∷ back) seg
    → r.size < 2147483648
    → get_module_buffer seg r.name ≡ some (head_size + sizes front, pos r.size)
unfolding get_module_buffer
buffer_lem seg front r back d h small =
    ap
      (λ ms. elim (find_module ms r.name) as (λ _. Option (ℕ × ℤ)) [
        | none ↦ none
        | some m ↦ some (m.offset, to_int (u32 m.size))
      ])
      h.modules
    ∙ ap
        (λ x. elim x as (λ _. Option (ℕ × ℤ)) [
          | none ↦ none
          | some m ↦ some (m.offset, to_int (u32 m.size))
        ])
        (find_module-placed 1 head_size front r back d)
    ∙ ap (λ n. some (head_size + sizes front, n)) (to_int-u32 r.size small)

-- In a block that holds modules of different names, GetModleBuffer gives for two of them whose
-- registered sizes are below 2 ^ 31 regions of these sizes, behind the header, the first's before
-- the second's without overlap, and within the length of the data.
pub get_module_buffer-apart :
    (seg : Segment) (front : List Reg) (r : Reg) (mid : List Reg) (q : Reg) (back : List Reg)
    → Distinct (front ++ (r ∷ (mid ++ (q ∷ back))))
    → Holds (front ++ (r ∷ (mid ++ (q ∷ back)))) seg
    → r.size < 2147483648
    → q.size < 2147483648
    → (a b : ℕ) × (get_module_buffer seg r.name ≡ some (a, pos r.size))
      × (get_module_buffer seg q.name ≡ some (b, pos q.size))
      × (head_size ≤ a)
      × (a + r.size ≤ b)
      × (b + q.size ≤ seg.data_length)
get_module_buffer-apart seg front r mid q back d h small_r small_q =
    let again : front ++ (r ∷ (mid ++ (q ∷ back))) ≡ (front ++ r ∷ mid) ++ q ∷ back =
      sym (append_assoc front (r ∷ mid) (q ∷ back)) in
    let len : sizes (front ++ (r ∷ (mid ++ (q ∷ back))))
        ≡ sizes (front ++ r ∷ mid) + (q.size + sizes back) =
      ap sizes again ∙ sizes-append (front ++ r ∷ mid) (q ∷ back) in
    (
      head_size + sizes front,
      head_size + sizes (front ++ r ∷ mid),
      buffer_lem seg front r (mid ++ q ∷ back) d h small_r,
      buffer_lem seg (front ++ r ∷ mid) q back (subst Distinct again d)
          (subst (λ l. Holds l seg) again h) small_q,
      omega arith,
      omega (arith, sizes-append front (r ∷ mid)),
      omega (arith, len, h.data_length),
    )
