-- ===== src/Gate/Sound/Opening.antt =====
-- OnNewConnection of gate/GateServerHandler.cpp keeps the table of connections sound.
use mathlib.Core.Path.{subst}
use playground.Prelude.{
  ℕ, ◌≤◌, ◌<◌, ◌≡◌, ◌≢◌, refl, sym, ap, ◌∙◌, Bool, Option, true, false, ◌&&◌, List, [], ◌∷◌, none,
  some, length, set, drop, arith, ◌==◌, if◌then◌else◌, inl, inr, Option-cases, Bool-cases, ltb,
}
use playground.Prelude.Map.{insert}
use playground.Prelude.Words.{ltb_ℤ, ℤ, pos, minus_one, is_zero_ℤ, ◌+ℤ◌}
use playground.GateMsg.{need_auth}
use playground.Timer.{add_timer}
use playground.Gate.Connection
use playground.Gate.Connection.{Connection, connected, is_open}
use playground.Gate.Server.{
  Env, Gate, closed, at, conn_at, conn_at-set, modify, emit, get_connection_by_fd,
}
use playground.Gate.Client.{send_to_client}
use playground.Gate.Receive.{
  free_slot, get_next_idx, start_idle_timer, idle_ms, with_buffer, on_new_connection,
}
use playground.Gate.Table.{get_next_idx_lem}
use playground.Gate.Removal.{conn_at-set_other}
use playground.Gate.Sound.{Same, Same-refl, index, IsSound, Keeps-refl, Keeps-IsSound, modify-Keeps}
use playground.Gate.Sound.Sending.{Stays, send_to_client-Stays}
use playground.Gate.Sound.Removing.{open-lt}
use playground.Gate.Sound.Messages.{Sound, Stays-Sound, ended-Sound}
use playground.Gate.Sound.Slots.{free_index, index-insert, shut-IsSound, opened-IsSound}

if_same : (b : Bool) (x : Option ℕ) → (if b then x else x) ≡ x
if_same true x = refl
if_same false x = refl

get_next_idx-slot :
    (g : Gate) (cs : List Connection) (i : ℕ)
    → g.conns ≡ cs
    → get_next_idx g ≡ some i
    → (1 ≤ i) × (i < length g.conns) × (is_open (at g i).state ≡ false)
unfolding get_next_idx free_slot
get_next_idx-slot g [] i e has =
    let room = ltb_ℤ g.alived (pos g.max_connection) in
    absurd (
      cc
        (sym has ∙ ap (λ xs. if room then free_slot 1 (drop 1 xs) else none) e ∙ if_same room none))
get_next_idx-slot g (c ∷ cs) i e has = elim (get_next_idx_lem g c cs e) [
  | inl (n, _) ↦ absurd (cc (sym n ∙ has))
  | inr (k, found, le, lt, free, _) ↦
      let eq : k ≡ i = ground (arith, sym found ∙ has) in
      subst (λ k. (1 ≤ k) × (k < length g.conns) × (is_open (at g k).state ≡ false)) eq
        (le, lt, free)
]

start_idle_timer-Stays :
    (g : Gate) (i : ℕ) (g' : Gate) → start_idle_timer g i ≡ some g' → Stays g g'
unfolding start_idle_timer
start_idle_timer-Stays g i g' e = elim (Bool-cases (ltb 0 g.max_idle_time)) [
  | inr n ↦
      let eq : g ≡ g' = cc (simp (n, start_idle_timer) at e) in
      subst (Stays g) eq (Keeps-refl g.conns g.fds)
  | inl y ↦ elim (Option-cases (add_timer g.timers (idle_ms g) i (some 0) 0)) [
    | inl n ↦ absurd (cc (simp (y, n, start_idle_timer) at e))
    | inr ((id, timers), added) ↦
        let g1 = modify (record g { timers = timers }) i (λ c. record c { timer_id = id }) in
        let eq : g1 ≡ g' = cc (simp (y, added, start_idle_timer) at e) in
        subst (Stays g) eq (
          modify-Keeps g.conns g.fds i _
            (record { open_as = refl; socket = refl; none_used = λ z. z }))
  ]
]

with_buffer-Same : (env : Env) (c : Connection) → Same c (with_buffer env c)
with_buffer-Same env c = elim (Bool-cases c.has_buffer) [
  | inl e ↦ simp e (Same-refl c)
  | inr e ↦ simp e (record { open_as = refl; socket = refl; none_used = λ z. z })
]

abbrev opening : ℕ → Connection → Connection
opening fd c = record (Connection.init c) { state = connected; fd = fd }

opening-open :
    (fd : ℕ) (c : Connection)
    → (is_open (opening fd c).state ≡ true) × ((opening fd c).fd ≡ fd) × ((opening fd c).used ≡ 0)
unfolding Connection.init
opening-open fd c = (refl, refl, refl)

-- The slot `i` is free and takes the socket `fd`, which leads nowhere; the client is then asked to
-- authorise itself.
module _ (env : Env) (g : Gate) (i fd : ℕ) (s : Sound g) (le : 1 ≤ i) (lt : i < length g.conns)
    (was : is_open (at g i).state ≡ false) (free : index g.fds fd ≡ 0) (ret : ℤ) (g3 : Gate)
    (told : send_to_client env (modify g i (opening fd)) i need_auth ≡ some (ret, g3)) where
  asked : Stays (modify g i (opening fd)) g3
  asked = send_to_client-Stays env (modify g i (opening fd)) i need_auth ret g3 told

  asked_here : (is_open (at g3 i).state ≡ true) × ((at g3 i).fd ≡ fd) × ((at g3 i).used ≡ 0)
  asked_here =
      let here : conn_at (set g.conns i (opening fd (at g i))) i ≡ opening fd (at g i) =
        conn_at-set g.conns i (opening fd (at g i)) lt in
      let (o, own, none_used) = opening-open fd (at g i) in
      let k = asked.slots i in
      (
        k.open_as ∙ ap (λ c. is_open c.state) here ∙ o,
        k.socket ∙ ap (λ c. c.fd) here ∙ own,
        k.none_used (ap (λ c. c.used) here ∙ none_used),
      )

  asked_others : (j : ℕ) → j ≢ i → Same (at g j) (at g3 j)
  asked_others j ne =
      let kept = conn_at-set_other g.conns i j (opening fd (at g i)) ne in
      subst (λ c. Same c (at g3 j)) kept (asked.slots j)

  inserted-IsSound :
      let g4 = modify (record g3 { fds = insert fd i g3.fds }) i (λ c. record c { idx = some i }) in
      IsSound g4.conns g4.fds
  inserted-IsSound =
      let (o, own, none_used) = asked_here in
      let ready : IsSound g3.conns (insert fd i g3.fds) =
        opened-IsSound g.conns g.fds g3.conns (insert fd i g3.fds) i s was asked_others none_used fd
          le o own free
          (λ k. index-insert g3.fds fd i k ∙ ap (λ n. if fd == k then i else n) (asked.leads k)) in
      Keeps-IsSound g3.conns (insert fd i g3.fds) _ _
        (modify-Keeps g3.conns (insert fd i g3.fds) i _
          (record { open_as = refl; socket = refl; none_used = λ z. z }))
        ready

  refused-IsSound :
      let g4 = modify (emit g3 (closed fd)) i Connection.close in IsSound g4.conns g4.fds
  unfolding Connection.close
  refused-IsSound =
      let c = at g3 i in
      let (o, own, none_used) = asked_here in
      let here : conn_at (set g3.conns i (Connection.close c)) i ≡ Connection.close c =
        conn_at-set g3.conns i (Connection.close c) (open-lt g3.conns i o) in
      shut-IsSound g.conns g.fds (set g3.conns i (Connection.close c)) g3.fds i s was
        (λ j ne.
          subst (Same (at g j)) (sym (conn_at-set_other g3.conns i j (Connection.close c) ne))
            (asked_others j ne))
        (ap (λ d. d.used) here ∙ none_used) (ap (λ d. is_open d.state) here) asked.leads

pub on_new_connection-IsSound :
    (env : Env) (g : Gate) (fd : ℕ) (ret : ℤ) (g' : Gate)
    → IsSound g.conns g.fds
    → get_connection_by_fd g fd ≡ none
    → on_new_connection env g fd ≡ some (ret, g')
    → IsSound g'.conns g'.fds
unfolding on_new_connection
on_new_connection-IsSound env g0 fd ret g' s fresh e =
    let g = record g0 { alived = g0.alived +ℤ pos 1 } in
    elim (Option-cases (get_next_idx g)) [
      | inl n ↦ absurd (cc (simp (n, on_new_connection) at e))
      | inr (i, slot) ↦
          let g1 = modify g i (with_buffer env) in
          let k : Stays g g1 =
            modify-Keeps g.conns g.fds i (with_buffer env (at g i))
              (with_buffer-Same env (at g i)) in
          let s1 = Stays-Sound g g1 k s in
          let (le, lt0, was0) = get_next_idx-slot g g.conns i refl slot in
          let lt : i < length g1.conns = omega (arith, lt0, k.size) in
          let was = (k.slots i).open_as ∙ was0 in
          let free = free_index g0 fd s fresh in
          elim (Bool-cases ((at g1 i).has_buffer && (g.closing == 0))) [
            | inr unable ↦
                ended-Sound (minus_one, emit g1 (closed fd)) ret g'
                  (simp (slot, on_new_connection, unable) at e) s1
            | inl able ↦
                let g2 = modify g1 i (opening fd) in
                elim (Option-cases (send_to_client env g2 i need_auth)) [
                  | inl n ↦ absurd (cc (simp (slot, on_new_connection, able, n) at e))
                  | inr ((r, g3), told) ↦ elim (Bool-cases (is_zero_ℤ r)) [
                    | inr refused ↦
                        ended-Sound (minus_one, modify (emit g3 (closed fd)) i Connection.close) ret
                          g' (simp (slot, on_new_connection, able, told, refused) at e)
                          (refused-IsSound env g1 i fd s1 le lt was free r g3 told)
                    | inl taken ↦
                        let g4 =
                          modify (record g3 { fds = insert fd i g3.fds }) i
                            (λ c. record c { idx = some i }) in
                        elim (Option-cases (start_idle_timer g4 i)) [
                          | inl n ↦
                              absurd
                                (cc (simp (slot, on_new_connection, able, told, taken, n) at e))
                          | inr (g5, timed) ↦
                              ended-Sound (pos 0, g5) ret g'
                                (simp (slot, on_new_connection, able, told, taken, timed) at e)
                                (Stays-Sound g4 g5 (start_idle_timer-Stays g4 i g5 timed)
                                  (inserted-IsSound env g1 i fd s1 le lt was free r g3 told))
                        ]
                  ]
                ]
          ]
    ]
