-- ===== src/Gate/Sound/Receiving.antt =====
-- A read from a client (OnClientDataRecv of gate/GateServerHandler.cpp) keeps the table of
-- connections sound.
use mathlib.Core.Path.{subst}
use playground.Prelude.{
  ℕ, zero, suc, ◌≡◌, ◌+◌, refl, true, false, ◌&&◌, List, [], ◌∷◌, ◌==◌, some, Option, leb,
  if◌then◌else◌, inl, inr, Option-cases, Bool-cases, length, take, arith,
}
use playground.Prelude.Map.{lookup}
use playground.Prelude.Words.{ℤ, pos, minus_one, is_zero_ℤ, ◌+ℤ◌}
use playground.Gate.Connection.{Connection, is_open}
use playground.Gate.Server.{Env, Gate, closed, at, modify, emit, get_connection_by_fd}
use playground.Gate.Client.{on_client_message}
use playground.Gate.Receive.{
  prefix_len, take_prefix, Progress, stopped, handled, cut, got_message, take_message, on_piece,
  go_on, on_data, on_client_data_recv,
}
use playground.Gate.Sound.{Same, Same-refl, IsSound, modify-Keeps}
use playground.Gate.Sound.Sending.{Stays}
use playground.Gate.Sound.Removing.{get_connection_by_idx-open}
use playground.Gate.Sound.Messages.{
  Sound, Stays-Sound, ended-Sound, Stays-open, on_client_message-IsSound,
}

-- A connection that is found under a socket is open.
pub get_connection_by_fd-open :
    (g : Gate) (fd i : ℕ) → get_connection_by_fd g fd ≡ some i → is_open (at g i).state ≡ true
unfolding get_connection_by_fd
get_connection_by_fd-open g fd i e = elim (Option-cases (lookup fd g.fds)) [
  | inl n ↦ absurd (cc (simp (n, get_connection_by_fd) at e))
  | inr (j, has) ↦ (get_connection_by_idx-open g j i (simp (has, get_connection_by_fd) at e)).1
]

-- The gate that a run of OnClientDataRecv comes to.
abbrev so_far : Progress → Gate
so_far (stopped ret g) = g
so_far (handled errors g rest) = g

take_prefix-Same : (c : Connection) (bytes : List ℕ) → Same c (take_prefix c bytes).0
unfolding take_prefix
take_prefix-Same c bytes = elim (Bool-cases (c.msg_len == 0)) [
  | inr e ↦ simp (e, take_prefix) (Same-refl c)
  | inl e ↦ elim (Bool-cases (leb prefix_len (c.used + length bytes))) [
    | inl e' ↦
        simp (e, e', take_prefix) (record { open_as = refl; socket = refl; none_used = λ z. refl })
    | inr e' ↦
        simp (e, e', take_prefix) (record { open_as = refl; socket = refl; none_used = λ z. z })
  ]
]

module _ (env : Env) (g : Gate) (i : ℕ) (o : is_open (at g i).state ≡ true) (s : Sound g) where
  got_message-IsSound :
      (msg rest : List ℕ) (p : Progress)
      → got_message env g i msg rest ≡ some p
      → IsSound (so_far p).conns (so_far p).fds
  unfolding got_message
  got_message-IsSound msg rest p e = elim (Option-cases (on_client_message env g i msg)) [
    | inl n ↦ absurd (cc (simp (n, got_message) at e))
    | inr ((ret, g1), done) ↦
        let g2 = modify g1 i (λ d. record d { msg_len = 0; used = 0 }) in
        let eq : handled (if is_zero_ℤ ret then pos 0 else pos 1) g2 rest ≡ p =
          cc (simp (done, got_message) at e) in
        subst (λ x. Sound (so_far x)) eq
          (Stays-Sound g1 g2
            (modify-Keeps g1.conns g1.fds i _
              (record { open_as = refl; socket = refl; none_used = λ z. refl }))
            (on_client_message-IsSound env g i msg ret g1 o s done))
  ]

take_message-IsSound :
    (env : Env) (g : Gate) (i off : ℕ) (bytes : List ℕ) (p : Progress)
    → is_open (at g i).state ≡ true
    → Sound g
    → take_message env g i off bytes ≡ some p
    → IsSound (so_far p).conns (so_far p).fds
unfolding take_message
take_message-IsSound env g i off bytes p o s e = elim (Option-cases (cut (at g i) off bytes)) [
  | inl n ↦
      let eq : stopped (pos 0) g ≡ p = cc (simp (n, take_message) at e) in
      subst (λ x. Sound (so_far x)) eq s
  | inr ((buffer, rest), whole) ↦
      let g1 = modify g i (λ d. record d { buffer = buffer }) in
      let k : Stays g g1 =
        modify-Keeps g.conns g.fds i _
          (record { open_as = refl; socket = refl; none_used = λ z. z }) in
      got_message-IsSound env g1 i (Stays-open g g1 i k o) (Stays-Sound g g1 k s)
        (take (at g i).msg_len buffer) rest p (simp (whole, take_message) at e)
]

-- The branch that closes a connection that has two bytes and no length is not taken.
on_piece-IsSound :
    (env : Env) (g : Gate) (i : ℕ) (bytes : List ℕ) (p : Progress)
    → is_open (at g i).state ≡ true
    → Sound g
    → on_piece env g i bytes ≡ some p
    → IsSound (so_far p).conns (so_far p).fds
unfolding on_piece
on_piece-IsSound env g i bytes p o s e =
    let c1 = (take_prefix (at g i) bytes).0 in
    let g0 = record g { uploadsize = g.uploadsize + length bytes } in
    let g1 = modify g0 i (λ _. c1) in
    let k : Stays g g1 = modify-Keeps g.conns g.fds i c1 (take_prefix-Same (at g i) bytes) in
    let never : ((at g i).msg_len == 0) && leb prefix_len (at g i).used ≡ false =
      ground (arith, s.empty i) in
    take_message-IsSound env g1 i (take_prefix (at g i) bytes).1 bytes p (Stays-open g g1 i k o)
      (Stays-Sound g g1 k s) (simp (never, on_piece) at e)

go_on-IsSound :
    (again : Gate → List ℕ → Option (ℤ × Gate))
    → ((g : Gate) (rest : List ℕ) (ret : ℤ) (g' : Gate)
        → Sound g
        → again g rest ≡ some (ret, g')
        → Sound g')
    → (p : Progress) (ret : ℤ) (g' : Gate) → IsSound (so_far p).conns (so_far p).fds
    → go_on again (some p) ≡ some (ret, g')
    → Sound g'
unfolding go_on
go_on-IsSound again keeps (stopped r g) ret g' s e = ended-Sound (r, g) ret g' e s
go_on-IsSound again keeps (handled errors g []) ret g' s e = ended-Sound (errors, g) ret g' e s
go_on-IsSound again keeps (handled errors g (b ∷ rest)) ret g' s e =
    elim (Option-cases (again g (b ∷ rest))) [
      | inl n ↦ absurd (cc (simp (n, go_on) at e))
      | inr ((more, g1), ran) ↦
          ended-Sound (errors +ℤ more, g1) ret g' (simp (ran, go_on) at e)
            (keeps g (b ∷ rest) more g1 s ran)
    ]

on_data-IsSound :
    (fuel : ℕ) (env : Env) (g : Gate) (fd : ℕ) (bytes : List ℕ) (ret : ℤ) (g' : Gate)
    → Sound g
    → on_data fuel env g fd bytes ≡ some (ret, g')
    → IsSound g'.conns g'.fds
unfolding on_data go_on
on_data-IsSound zero env g fd bytes ret g' s e = absurd (cc e)
on_data-IsSound (suc fuel) env g fd bytes ret g' s e =
    elim (Option-cases (get_connection_by_fd g fd)) [
      | inl n ↦ ended-Sound (minus_one, emit g (closed fd)) ret g' (simp (n, on_data) at e) s
      | inr (i, has) ↦ elim (Option-cases (on_piece env g i bytes)) [
        | inl n ↦ absurd (cc (simp (has, on_data, n) at e))
        | inr (p, ran) ↦
            go_on-IsSound (λ h rest. on_data fuel env h fd rest)
              (λ h rest r h' s' e'. on_data-IsSound fuel env h fd rest r h' s' e') p ret g'
              (on_piece-IsSound env g i bytes p (get_connection_by_fd-open g fd i has) s ran)
              (simp (has, on_data, ran) at e)
      ]
    ]

pub on_client_data_recv-IsSound :
    (env : Env) (g : Gate) (fd : ℕ) (bytes : List ℕ) (ret : ℤ) (g' : Gate)
    → IsSound g.conns g.fds
    → on_client_data_recv env g fd bytes ≡ some (ret, g')
    → IsSound g'.conns g'.fds
unfolding on_client_data_recv
on_client_data_recv-IsSound env g fd bytes ret g' s e =
    on_data-IsSound (suc (length bytes)) env g fd bytes ret g' s e
