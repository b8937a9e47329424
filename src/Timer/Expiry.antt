-- ===== src/Timer/Expiry.antt =====
-- The loop of TimerMgr::Expired: it ends, and leaves no timer that is due.
use playground.Prelude.{
  ℕ, zero, suc, ◌+◌, ◌%◌, ◌≤◌, ◌<◌, ◌≡◌, ◌⊎◌, inl, inr, ◌∙◌, List, [], ◌∷◌, ◌++◌, Option, none,
  some, refl, arith, leb, length, All, All-append, Bool-cases, Option-cases,
}
use playground.Prelude.Map.{
  lookup, erase, first_free-next_u32_lem, length-erase-le, length-erase-lt, length-insert-le,
}
use playground.Timer.{
  Core, Entry, TimerMgr, Call, Request, add, cancel, insert_around, new_timer, cancel_timer, serve,
  fire, requests, log, expire, expired,
}
use playground.Timer.Sorted.{
  IsSorted, IsLater, due, All-insert_entry, insert_entry-IsSorted, due-insert_entry, due-zero,
}

-- There is room for another id, and the next one is a `uint32_t`.
pub record HasRoom (c : Core) : Type 0 where
  pub room : length c.events < 4294967296
  pub word : c.next_id < 4294967296

-- A callback asks for nothing, cancels a timer, or adds one for later.
abbrev pub IsMild : ℕ → List Request → Type 0
IsMild now rs =
    (rs ≡ [])
    ⊎ ((id : ℕ) × (rs ≡ cancel id ∷ []))
    ⊎ ((later : ℕ) × (code : ℕ) × (callback : Option ℕ) × (param : ℕ) × (rs
          ≡ add later code callback param ∷ [])
        × (0 < later)
        × (now + later < 18446744073709551616))

-- AddTimer finds an id that no waiting timer has, and files the timer under it.
pub new_timer_lem :
    (c : Core) (later code : ℕ) (callback : Option ℕ) (param : ℕ)
    → HasRoom c
    → (e : Entry) × (d : Core) × (new_timer c later code callback param ≡ some (e, d))
      × (lookup e.id c.events ≡ none)
      × (e.key ≡ (c.cur_ms + later) % 18446744073709551616)
      × (d.cur_ms ≡ c.cur_ms)
      × (d.next_id < 4294967296)
      × (length d.events ≤ length c.events + 1)
unfolding new_timer
new_timer_lem c later code callback param h =
    let (id, e, free) =
      first_free-next_u32_lem (length c.events + 1) c.next_id c.events (omega arith) (omega arith)
        h.word in
    rw (e, new_timer) (_, _, refl, free, refl, refl, omega arith, length-insert-le id _ c.events)

-- The loop's state: what is behind the iterator is not due, what is ahead is sorted.
record IsRunning (now : ℕ) (c : Core) (before rest : List Entry) : Type 0 where
  has_room : HasRoom c
  clock : c.cur_ms ≡ now
  passed : All (IsLater now) before
  sorted : IsSorted rest

pub fire_lem :
    (c : Core) (id : ℕ)
    → ((fire c id).0.cur_ms ≡ c.cur_ms)
      × ((fire c id).0.next_id ≡ c.next_id)
      × (((fire c id).1 ≡ none) × (length (fire c id).0.events ≤ length c.events)
          ⊎ (length (fire c id).0.events < length c.events))
unfolding fire
fire_lem c id = elim (Option-cases (lookup id c.events)) [
  | inl e ↦ rw (e, fire) (refl, refl, inl (refl, omega arith))
  | inr (te, e) ↦ rw (e, fire) (refl, refl, inr (length-erase-lt id c.events (λ n. ground arith)))
]

insert_around-IsLater :
    (now : ℕ) (e : Entry) (before rest : List Entry)
    → now < e.key
    → All (IsLater now) before
    → IsSorted rest
    → All (IsLater now) (insert_around e before rest).0
      × IsSorted (insert_around e before rest).1
      × (due now (insert_around e before rest).1 ≡ due now rest)
unfolding insert_around
insert_around-IsLater now e before [] h p s =
    (All-insert_entry (IsLater now) e before h p, tt, refl)
insert_around-IsLater now e before (r ∷ rest) h p s = elim (Bool-cases (leb r.key e.key)) [
  | inl t ↦
      rw t
        (p, insert_entry-IsSorted e (r ∷ rest) s, ground (arith, due-insert_entry now e (r ∷ rest)))
  | inr f ↦ rw f (All-insert_entry (IsLater now) e before h p, s, refl)
]

abbrev Serves : ℕ → List Request → Core → List Entry → List Entry → Type 0
Serves now rs c before rest =
    (d : Core) × (b : List Entry) × (s : List Entry) × (serve rs c before rest ≡ some (d, b, s))
    × IsRunning now d b s
    × (due now s ≡ due now rest)

serve_none :
    (now : ℕ) (c : Core) (before rest : List Entry)
    → IsRunning now c before rest
    → Serves now [] c before rest
unfolding serve
serve_none now c before rest v = (c, before, rest, refl, v, refl)

serve_mild :
    (now : ℕ) (rs : List Request) (c : Core) (before rest : List Entry)
    → IsMild now rs
    → IsRunning now c before rest
    → length c.events + 1 < 4294967296
    → Serves now rs c before rest
unfolding serve
serve_mild now rs c before rest (inl e) v h = rw e (serve_none now c before rest v)
serve_mild now rs c before rest (inr (inl (id, e))) v h = rw e (
  record c { events = erase id c.events },
  before,
  rest,
  (unfold cancel_timer in refl),
  record {
    has_room = record {
      room = omega (arith, length-erase-le id c.events, v.has_room.room);
      word = v.has_room.word;
    };
    clock = v.clock;
    passed = v.passed;
    sorted = v.sorted;
  },
  refl,
)
serve_mild now rs c before rest (inr (inr (later, code, callback, param, e, soon, fits))) v h =
    let (entry, d, made, free, key, clock, word, len) =
      new_timer_lem c later code callback param v.has_room in
    let after : now < entry.key = omega (arith, v.clock) in
    let (p, s, same) = insert_around-IsLater now entry before rest after v.passed v.sorted in
    rw (e, serve, made)
      (
        d,
        (insert_around entry before rest).0,
        (insert_around entry before rest).1,
        refl,
        record {
          has_room = record { room = omega arith; word = word };
          clock = clock ∙ v.clock;
          passed = p;
          sorted = s;
        },
        same,
      )

-- One round of the loop.
round :
    (react : Call → List Request) (now id : ℕ) (c : Core) (before rest : List Entry)
    → ((call : Call) → IsMild now (react call))
    → IsRunning now c before rest
    → Serves now (requests react (fire c id).1) (fire c id).0 before rest
unfolding requests
round react now id c before rest mild v =
    let (clock, word, size) = fire_lem c id in
    let room : length (fire c id).0.events < 4294967296 = omega (arith, v.has_room.room) in
    let v' : IsRunning now (fire c id).0 before rest = record {
      has_room = record { room = room; word = rw word v.has_room.word };
      clock = clock ∙ v.clock;
      passed = v.passed;
      sorted = v.sorted;
    } in
    elim (Option-cases (fire c id).1) [
      | inl e ↦ rw (e, requests) (serve_none now (fire c id).0 before rest v')
      | inr (call, e) ↦
          let fewer : length (fire c id).0.events < length c.events = ground arith in
          rw (e, requests)
            (serve_mild now (react call) (fire c id).0 before rest (mild call) v'
              (omega (arith, v.has_room.room)))
    ]

expire_lem :
    (react : Call → List Request) (now fuel : ℕ) (c : Core) (before rest : List Entry)
    → ((call : Call) → IsMild now (react call))
    → IsRunning now c before rest
    → due now rest < fuel
    → (m : TimerMgr) × (calls : List Call) × (expire react fuel c before rest ≡ some (m, calls))
      × All (IsLater now) m.timers
unfolding expire
expire_lem react now zero c before rest mild v h = absurd (omega arith)
expire_lem react now (suc fuel) c before [] mild v h =
    (record { core = c; timers = before }, [], refl, v.passed)
expire_lem react now (suc fuel) c before (r ∷ rest) mild v h =
    elim (Bool-cases (leb r.key c.cur_ms)) [
      | inr f ↦ rw f (
        record { core = c; timers = before ++ r ∷ rest },
        [],
        refl,
        All-append (IsLater now) before (r ∷ rest) v.passed
            (due-zero now r rest v.sorted (ground (arith, v.clock))),
      )
      | inl t ↦
          let v' : IsRunning now c before rest = record {
            has_room = v.has_room;
            clock = v.clock;
            passed = v.passed;
            sorted = v.sorted.1;
          } in
          let (d, b, s, served, running, same) = round react now r.id c before rest mild v' in
          let counted : due now (r ∷ rest) ≡ suc (due now rest) = ground (arith, v.clock) in
          let (m, calls, e, later) = expire_lem react now fuel d b s mild running (omega arith) in
          rw (t, served, e) (m, log (fire c r.id).1 calls, refl, later)
    ]

-- With room for another timer and sorted timers, if every callback adds at most one timer, and
-- only for later, or cancels one, then the loop of Expired ends within one round more than there
-- are due entries, and no entry that is due is left.
pub expired_lem :
    (react : Call → List Request) (fuel : ℕ) (m : TimerMgr)
    → HasRoom m.core
    → IsSorted m.timers
    → ((call : Call) → IsMild m.cur_ms (react call))
    → due m.cur_ms m.timers < fuel
    → (n : TimerMgr) × (calls : List Call) × (expired react fuel m ≡ some (n, calls))
      × All (IsLater m.cur_ms) n.timers
unfolding expired
expired_lem react fuel m room sorted mild h =
    expire_lem react m.cur_ms fuel m.core [] m.timers mild
      (record { has_room = room; clock = refl; passed = tt; sorted = sorted }) h
