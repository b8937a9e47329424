-- ===== src/Timer/Firing.antt =====
-- Which callbacks TimerMgr::Expired runs, and what AddTimer and CancelTimer change.
use mathlib.Core.Path.{subst}
use playground.Prelude.{
  sym, ℕ, zero, suc, ◌+◌, ◌%◌, ◌<◌, ◌≡◌, ◌≢◌, inl, inr, ap, List, [], ◌∷◌, Option, none, some, refl,
  arith, leb, ◌==◌, if◌then◌else◌, length, All, All-map, Bool-cases, Option-cases,
}
use playground.Prelude.Map.{lookup, erase, lookup-erase, lookup-insert, first_free-next_u32_lem}
use playground.Timer.{
  Core, Entry, TimerEvent, TimerMgr, Call, Request, new_timer, add_timer, insert_entry, serve, fire,
  call_of, requests, log, expire, expired,
}
use playground.Timer.Sorted.{IsSorted, due, insert_entry-IsSorted}
use playground.Timer.Expiry.{HasRoom, fire_lem}

abbrev pub HasOwnIds : List Entry → Type 0
HasOwnIds [] = Unit
HasOwnIds (x ∷ xs) = All (λ y. x.id ≢ y.id) xs × HasOwnIds xs

-- The calls of the due entries whose timer is still there, in their order.
abbrev pub due_calls : Core → List Entry → List Call
due_calls c [] = []
due_calls c (r ∷ rs) =
    if leb r.key c.cur_ms
    then (elim (lookup r.id c.events) [
      | none ↦ due_calls c rs
      | some te ↦ log (call_of c te) (due_calls c rs)
    ])
    else due_calls c rs

call_of-same :
    (c d : Core) (te : TimerEvent) → d.listeners ≡ c.listeners → call_of d te ≡ call_of c te
unfolding call_of
call_of-same c d te e = rw e refl

-- Only the clock, the listeners and the events of the entries matter.
due_calls-same :
    (c d : Core) (rs : List Entry)
    → d.cur_ms ≡ c.cur_ms
    → d.listeners ≡ c.listeners
    → All (λ r. lookup r.id d.events ≡ lookup r.id c.events) rs
    → due_calls d rs ≡ due_calls c rs
due_calls-same c d [] t l a = refl
due_calls-same c d (r ∷ rs) t l a = elim (Option-cases (lookup r.id c.events)) [
  | inl e ↦ rw (t, a.0, e, due_calls-same c d rs t l a.1) refl
  | inr (te, e) ↦ rw (t, a.0, e, due_calls-same c d rs t l a.1, call_of-same c d te l) refl
]

fire-others :
    (c : Core) (id : ℕ) (rs : List Entry)
    → All (λ y. id ≢ y.id) rs
    → due_calls (fire c id).0 rs ≡ due_calls c rs
unfolding fire
fire-others c id rs a = elim (Option-cases (lookup id c.events)) [
  | inl e ↦ rw (e, fire) refl
  | inr (te, e) ↦
      rw (e, fire)
        (due_calls-same c (record c { events = erase id c.events }) rs refl refl
          (All-map _ _ rs (λ r ne. ground (arith, lookup-erase id r.id c.events)) a))
]

due_calls-later :
    (c : Core) (rs : List Entry) → All (λ r. c.cur_ms < r.key) rs → due_calls c rs ≡ []
due_calls-later c [] a = refl
due_calls-later c (r ∷ rs) a = elim (Bool-cases (leb r.key c.cur_ms)) [
  | inl t ↦ absurd (ground arith)
  | inr f ↦ rw f (due_calls-later c rs a.1)
]

abbrev pub silent : Call → List Request
silent _ = []

serve-silent :
    (call : Option Call) (c : Core) (before rest : List Entry)
    → serve (requests silent call) c before rest ≡ some (c, before, rest)
unfolding serve requests
serve-silent none c before rest = refl
serve-silent (some call) c before rest = refl

log-fire :
    (c : Core) (id : ℕ) (calls : List Call)
    → log (fire c id).1 calls
      ≡ elim (lookup id c.events) [ none ↦ calls | some te ↦ log (call_of c te) calls ]
unfolding fire log
log-fire c id calls = elim (Option-cases (lookup id c.events)) [
  | inl e ↦ rw (e, fire) refl
  | inr (te, e) ↦ rw (e, fire) refl
]

expire-silent :
    (fuel : ℕ) (c : Core) (before rest : List Entry)
    → IsSorted rest
    → HasOwnIds rest
    → due c.cur_ms rest < fuel
    → (m : TimerMgr) × (expire silent fuel c before rest ≡ some (m, due_calls c rest))
unfolding expire
expire-silent zero c before rest s o h = absurd (omega arith)
expire-silent (suc fuel) c before [] s o h = (record { core = c; timers = before }, refl)
expire-silent (suc fuel) c before (r ∷ rest) s o h = elim (Bool-cases (leb r.key c.cur_ms)) [
  | inr f ↦ rw (f, due_calls-later c rest (All-map _ _ rest (λ y le. ground arith) s.0)) (_, refl)
  | inl t ↦
      let (clock, _, _) = fire_lem c r.id in
      let counted : due c.cur_ms (r ∷ rest) ≡ suc (due c.cur_ms rest) = ground arith in
      let (m, e) =
        expire-silent fuel (fire c r.id).0 before rest s.1 o.1 (rw clock (omega arith)) in
      rw
        (
          t,
          serve-silent (fire c r.id).1 (fire c r.id).0 before rest,
          e,
          fire-others c r.id rest o.0,
        )
        (m, ap (λ x. some (m, x)) (log-fire c r.id (due_calls c rest)))
]

-- On sorted timers with distinct ids, where no callback touches the manager and there is more fuel
-- than due entries, Expired ends and makes exactly the calls of the due timers that are not
-- cancelled, each once, in their order.
pub expired-due_calls :
    (fuel : ℕ) (m : TimerMgr)
    → IsSorted m.timers
    → HasOwnIds m.timers
    → due m.cur_ms m.timers < fuel
    → (n : TimerMgr) × (expired silent fuel m ≡ some (n, due_calls m.core m.timers))
unfolding expired
expired-due_calls fuel m s o h = expire-silent fuel m.core [] m.timers s o h

-- The event that AddTimer stores under an id.
abbrev pub added_event : TimerMgr → ℕ → ℕ → Option ℕ → ℕ → ℕ → TimerEvent
added_event m later code callback param id = record {
  code = code;
  param = param;
  callback = callback;
  expires = (m.cur_ms + later) % 18446744073709551616;
  timer_id = id;
}

pub add_timer-added_event :
    (m : TimerMgr) (later code : ℕ) (callback : Option ℕ) (param : ℕ)
    → HasRoom m.core
    → (id : ℕ) × (n : TimerMgr) × (add_timer m later code callback param ≡ some (id, n))
      × (lookup id m.events ≡ none)
      × ((j : ℕ)
          → lookup j n.events ≡ (
              if id == j
              then some (added_event m later code callback param id)
              else lookup j m.events))
      × (n.timers
          ≡ insert_entry
              (record { key = (m.cur_ms + later) % 18446744073709551616; id = id })
              m.timers)
unfolding add_timer new_timer
add_timer-added_event m later code callback param h =
    let (id, e, free) =
      first_free-next_u32_lem (length m.events + 1) m.next_id m.events (omega arith)
        (omega (arith, h.room)) h.word in
    rw (e, add_timer, new_timer) (_, _, refl, free, λ j. lookup-insert id j _ m.events, refl)

-- With room for another timer and sorted timers, AddTimer returns an id that no waiting timer has.
-- An event is then found under that id, and every other event is found as before; the expiry time
-- is that of the clock and the delay, modulo 2 ^ 64; the new entry with this time and id stands in
-- the multimap, which stays sorted.
pub add_timer_lem :
    (m : TimerMgr) (later code : ℕ) (callback : Option ℕ) (param : ℕ)
    → HasRoom m.core
    → IsSorted m.timers
    → (id : ℕ) × (n : TimerMgr) × (te : TimerEvent) × (add_timer m later code callback param
        ≡ some (id, n))
      × (lookup id m.events ≡ none)
      × ((j : ℕ) → lookup j n.events ≡ (if id == j then some te else lookup j m.events))
      × (te.expires ≡ (m.cur_ms + later) % 18446744073709551616)
      × (n.timers ≡ insert_entry (record { key = te.expires; id = id }) m.timers)
      × IsSorted n.timers
add_timer_lem m later code callback param h s =
    let (id, n, e, free, found, queued) = add_timer-added_event m later code callback param h in
    (
      id,
      n,
      added_event m later code callback param id,
      e,
      free,
      found,
      refl,
      queued,
      subst IsSorted (sym queued) (insert_entry-IsSorted _ m.timers s),
    )
