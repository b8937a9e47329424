-- ===== src/Gate/Shutdown.antt =====
-- The shutdown of a gate (OnClosing of gate/GateServerHandler.cpp).
use playground.Prelude.{
  ℕ, zero, suc, ◌+◌, ◌≤◌, ◌<◌, ◌≡◌, refl, sym, ap, ◌∙◌, true, false, ◌||◌, none, some, ltb, leb,
  ◌==◌, if◌then◌else◌, length, arith, Bool-cases, Option-cases, inl, inr, dec_lt, ℕ_discrete,
}
use playground.Prelude.Words.{pos}
use playground.Gate.Connection.{Connection, is_open}
use playground.Gate.Server.{Env, Gate, at, get_connection_by_idx, remove_connection}
use playground.Gate.Closing.{remove_at, close_some, on_closing, close_all, stop}
use playground.GateMsg.{close_stop_svr}
use playground.Gate.Removal.{remove_connection-kept, remove_connection_lem}

get_connection_by_idx-some :
    (g : Gate) (j i : ℕ) → get_connection_by_idx g j ≡ some i → (i ≡ j) × (j < length g.conns)
unfolding get_connection_by_idx
get_connection_by_idx-some g j i e = elim (Bool-cases ((j == 0) || leb (length g.conns) j)) [
  | inl out ↦ absurd (cc (rw out at e))
  | inr within ↦ elim (Bool-cases (is_open (at g j).state)) [
    | inl live ↦ (ground (arith, rw (within, live) at e), ground (arith, within))
    | inr dead ↦ absurd (cc (rw (within, dead) at e))
  ]
]

get_connection_by_idx-same :
    (g g' : Gate) (j : ℕ)
    → at g' j ≡ at g j
    → length g'.conns ≡ length g.conns
    → get_connection_by_idx g' j ≡ get_connection_by_idx g j
unfolding get_connection_by_idx
get_connection_by_idx-same g g' j e len =
    ap (λ n. if (j == 0) || leb n j then none else if is_open (at g' j).state then some j else none)
      len
    ∙ ap
        (λ (c : Connection).
          if (j == 0) || leb (length g.conns) j
          then none
          else if is_open c.state
          then some j
          else none)
        e

get_connection_by_idx-beyond :
    (g : Gate) (j : ℕ) → length g.conns ≤ j → get_connection_by_idx g j ≡ none
unfolding get_connection_by_idx
get_connection_by_idx-beyond g j h =
    let out : (j == 0) || leb (length g.conns) j ≡ true = ground arith in
    ap (λ b. if b then none else if is_open (at g j).state then some j else none) out

-- The table keeps its size, and an index that led nowhere still does.
record Shrinks (g g' : Gate) : Type 0 where
  size : length g'.conns ≡ length g.conns
  still : (j : ℕ) → get_connection_by_idx g j ≡ none → get_connection_by_idx g' j ≡ none

remove_at_lem :
    (env : Env) (g : Gate) (idx reason : ℕ)
    → let g' = remove_at env g idx reason in
      Shrinks g g'
      × (get_connection_by_idx g' idx ≡ none)
      × (g'.last_closing_idx ≡ g.last_closing_idx)
unfolding remove_at
remove_at_lem env g idx reason = elim (Option-cases (get_connection_by_idx g idx)) [
  | inl e ↦ rw (e, remove_at) (record { size = refl; still = λ j n. n }, e, refl)
  | inr (i, e) ↦
      let (same, lt) = get_connection_by_idx-some g idx i e in
      let gone = remove_connection_lem env g i reason (omega arith) in
      let (size, last) = remove_connection-kept env g i reason in
      rw (e, remove_at)
        (
          record {
            size = size;
            still = λ j n. elim (ℕ_discrete j i) [
              | yes q ↦
                  ap (get_connection_by_idx (remove_connection env g i reason)) q ∙ gone.by_idx
              | no q ↦
                  get_connection_by_idx-same g (remove_connection env g i reason) j
                    (gone.others j q) size
                  ∙ n
            ];
          },
          ap (get_connection_by_idx (remove_connection env g i reason)) (sym same) ∙ gone.by_idx,
          last,
        )
]

Shrinks-trans : (g h k : Gate) → Shrinks g h → Shrinks h k → Shrinks g k
Shrinks-trans g h k a b = record { size = b.size ∙ a.size; still = λ j n. b.still j (a.still j n) }

-- No index from `from` on leads to a connection.
abbrev IsClosedFrom : Gate → ℕ → Type 0
IsClosedFrom g from = (j : ℕ) → from ≤ j → get_connection_by_idx g j ≡ none

close_some_lem :
    (rounds : ℕ) (env : Env) (g : Gate) (reason : ℕ)
    → length g.conns ≤ g.last_closing_idx + rounds
    → let g' = close_some rounds env g reason in
      Shrinks g g' × (length g.conns ≤ g'.last_closing_idx) × IsClosedFrom g' g.last_closing_idx
unfolding close_some remove_at get_connection_by_idx
close_some_lem zero env g reason h = (
  record { size = refl; still = λ j n. n },
  omega arith,
  λ j le. get_connection_by_idx-beyond g j (omega arith),
)
close_some_lem (suc rounds) env g reason h =
    elim (Bool-cases (ltb g.last_closing_idx (length g.conns))) [
      | inr e ↦ rw e (
        record { size = refl; still = λ j n. n },
        ground arith,
        λ j le. get_connection_by_idx-beyond g j (ground arith),
      )
      | inl e ↦
          let (shrinks, here, last) = remove_at_lem env g g.last_closing_idx reason in
          let g1 = remove_at env g g.last_closing_idx reason in
          let g2 = record g1 { last_closing_idx = g1.last_closing_idx + 1 } in
          let first : Shrinks g g2 = record { size = shrinks.size; still = shrinks.still } in
          let (more, passed, closed_on) =
            close_some_lem rounds env g2 reason (omega (arith, shrinks.size, last)) in
          rw e (
            Shrinks-trans g g2 (close_some rounds env g2 reason) first more,
            omega (arith, shrinks.size, passed),
            λ j le. elim (dec_lt g.last_closing_idx j) [
              | yes lt ↦ closed_on j (omega (arith, last, lt))
              | no q ↦
                  let eq : g.last_closing_idx ≡ j = omega arith in
                  more.still j (ap (get_connection_by_idx g1) (sym eq) ∙ here)
            ],
          )
    ]

-- Where the number of slots is at most the index that the shutdown has reached and the number of
-- slots it may look at together, OnClosing returns 1, and no index from the one reached on leads
-- to a connection; an index that led to none before still leads to none.
pub on_closing_lem :
    (env : Env) (g : Gate) (reason notifinum : ℕ)
    → length g.conns ≤ g.last_closing_idx + notifinum
    → let (ret, g') = on_closing env g reason notifinum in
      (ret ≡ pos 1)
      × ((j : ℕ) → g.last_closing_idx ≤ j → get_connection_by_idx g' j ≡ none)
      × ((j : ℕ) → get_connection_by_idx g j ≡ none → get_connection_by_idx g' j ≡ none)
unfolding on_closing get_connection_by_idx
on_closing_lem env g reason notifinum h =
    let g1 = record g { closing = if g.closing == 0 then reason else g.closing } in
    let g2 = close_some notifinum env g1 reason in
    let (shrinks, passed, closed_on) = close_some_lem notifinum env g1 reason h in
    let last : ltb g2.last_closing_idx (length g2.conns) ≡ false =
      ground (arith, shrinks.size, passed) in
    (ap (λ b. if b then pos 0 else pos 1) last, closed_on, λ j n. shrinks.still j n)

close_all_lem :
    (left i : ℕ) (env : Env) (g : Gate)
    → length g.conns ≤ i + left
    → let g' = close_all left i env g in Shrinks g g' × IsClosedFrom g' i
unfolding close_all
close_all_lem zero i env g h = (
  record { size = refl; still = λ j n. n },
  λ j le. get_connection_by_idx-beyond g j (omega arith),
)
close_all_lem (suc left) i env g h =
    let (shrinks, here, _) = remove_at_lem env g i close_stop_svr in
    let g1 = remove_at env g i close_stop_svr in
    let (more, closed_on) = close_all_lem left (suc i) env g1 (omega (arith, shrinks.size)) in
    (
      Shrinks-trans g g1 (close_all left (suc i) env g1) shrinks more,
      λ j le. elim (dec_lt i j) [
        | yes lt ↦ closed_on j (omega (arith, lt))
        | no q ↦
            let eq : i ≡ j = omega arith in
            more.still j (ap (get_connection_by_idx g1) (sym eq) ∙ here)
      ],
    )

-- After the destructor no index leads to a connection.
pub stop_lem : (env : Env) (g : Gate) (j : ℕ) → get_connection_by_idx (stop env g) j ≡ none
unfolding stop
stop_lem env g j = (close_all_lem (length g.conns) 0 env g (omega arith)).1 j (omega arith)
