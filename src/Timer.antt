-- ===== src/Timer.antt =====
-- component/TimerMgr.cpp: the timers of a server. `timers` is the multimap from expiry times to
-- timer ids, sorted, with equal times in the order of insertion; `events` holds what a timer does,
-- and cancelling a timer takes its event away and leaves its entry. Callbacks are numbers. The
-- signal set-up of Init and the system's clock are not modelled: `cur_ms` is set by the caller.
pub mod Sorted
pub mod Expiry
pub mod Firing
use playground.Prelude.{
  ℕ, zero, suc, ◌+◌, ◌%◌, ◌*◌, ◌/◌, List, [], ◌∷◌, ◌++◌, Option, none, some, leb, if◌then◌else◌,
  length,
}
use playground.Prelude.Map.{Map, lookup, insert, erase, first_free, next_u32}
use playground.Prelude.Words.{ℤ, pos, minus_one}

pub record TimerEvent : Type 0 where
  pub code : ℕ
  pub param : ℕ
  pub callback : Option ℕ
  pub expires : ℕ
  pub timer_id : ℕ

-- Everything but the multimap.
pub record Core : Type 0 where
  pub cur_ms : ℕ
  pub events : Map TimerEvent
  pub listeners : Map ℕ
  pub next_id : ℕ

pub record Entry : Type 0 where
  pub key : ℕ
  pub id : ℕ

pub record TimerMgr : Type 0 where
  pub core : Core
  pub open core use *
  pub timers : List Entry

-- A call of a callback or listener.
pub record Call : Type 0 where
  pub callee : ℕ
  pub code : ℕ
  pub param : ℕ

-- What a callback does to the manager while it runs.
pub data Request : Type 0 where
  add : ℕ → ℕ → Option ℕ → ℕ → Request
  cancel : ℕ → Request

pub update_ms_time : TimerMgr → ℕ → ℕ → TimerMgr
update_ms_time m sec usec = record m { core = record m.core { cur_ms = sec * 1000 + usec / 1000 } }

pub add_listener : Core → ℕ → ℕ → ℤ × Core
add_listener c code listener = elim (lookup code c.listeners) [
  | none ↦ (pos 0, record c { listeners = insert code listener c.listeners })
  | some _ ↦ (minus_one, c)
]

-- `multimap::insert`: behind the entries with the same key.
pub insert_entry : Entry → List Entry → List Entry
insert_entry e [] = e ∷ []
insert_entry e (x ∷ xs) = if leb x.key e.key then x ∷ insert_entry e xs else e ∷ x ∷ xs

-- AddTimer but for the multimap: the new entry. The search for an id ends within one round more
-- than there are events.
pub new_timer : Core → ℕ → ℕ → Option ℕ → ℕ → Option (Entry × Core)
new_timer c later code callback param =
    elim (first_free next_u32 (length c.events + 1) c.next_id c.events) [
      | none ↦ none
      | some id ↦
          let expires = (c.cur_ms + later) % 18446744073709551616 in
          some (
            record { key = expires; id = id },
            record c {
              events =
                  insert id
                    (record {
                      code = code;
                      param = param;
                      callback = callback;
                      expires = expires;
                      timer_id = id;
                    })
                    c.events;
              next_id = next_u32 id;
            },
          )
    ]

pub add_timer : TimerMgr → ℕ → ℕ → Option ℕ → ℕ → Option (ℕ × TimerMgr)
add_timer m later code callback param = elim (new_timer m.core later code callback param) [
  | none ↦ none
  | some (e, c) ↦ some (e.id, record { core = c; timers = insert_entry e m.timers })
]

unfoldable pub cancel_timer : Core → ℕ → Core
cancel_timer c id = record c { events = erase id c.events }

-- An insertion while the loop of Expired stands at the head of `rest`: the entry goes to its place
-- in the whole multimap, which may lie behind the iterator.
pub insert_around : Entry → List Entry → List Entry → List Entry × List Entry
insert_around e before [] = (insert_entry e before, [])
insert_around e before (r ∷ rest) =
    if leb r.key e.key
    then (before, insert_entry e (r ∷ rest))
    else (insert_entry e before, r ∷ rest)

-- What a callback asked for, while the loop runs.
pub serve : List Request → Core → List Entry → List Entry → Option (Core × List Entry × List Entry)
serve [] c before rest = some (c, before, rest)
serve (cancel id ∷ rs) c before rest = serve rs (cancel_timer c id) before rest
serve (add later code callback param ∷ rs) c before rest =
    elim (new_timer c later code callback param) [
      | none ↦ none
      | some (e, c') ↦ let (b, r) = insert_around e before rest in serve rs c' b r
    ]

-- The call that an expired event makes: its callback, or the listener of its code.
pub call_of : Core → TimerEvent → Option Call
call_of c te = elim te.callback [
  | some callee ↦ some (record { callee = callee; code = te.code; param = te.param })
  | none ↦ elim (lookup te.code c.listeners) [
    | some callee ↦ some (record { callee = callee; code = te.code; param = te.param })
    | none ↦ none
  ]
]

-- An event's entry is gone before its callback runs.
pub fire : Core → ℕ → Core × Option Call
fire c id = elim (lookup id c.events) [
  | none ↦ (c, none)
  | some te ↦ (record c { events = erase id c.events }, call_of c te)
]

pub requests : (Call → List Request) → Option Call → List Request
requests react none = []
requests react (some call) = react call

pub log : Option Call → List Call → List Call
log none calls = calls
log (some call) calls = call ∷ calls

-- The `while` of Expired with fuel; `react` is what each callback does. `none`: the fuel ran out.
pub expire :
    (Call → List Request) → ℕ → Core → List Entry → List Entry → Option (TimerMgr × List Call)
expire react zero c before rest = none
expire react (suc fuel) c before [] = some (record { core = c; timers = before }, [])
expire react (suc fuel) c before (r ∷ rest) =
    let (c', call) = fire c r.id in
    let more : Option (TimerMgr × List Call) = elim (serve (requests react call) c' before rest) [
      | none ↦ none
      | some (d, b, s) ↦ elim (expire react fuel d b s) [
        | none ↦ none
        | some (m, calls) ↦ some (m, log call calls)
      ]
    ] in
    if leb r.key c.cur_ms then more else some (record { core = c; timers = before ++ r ∷ rest }, [])

pub expired : (Call → List Request) → ℕ → TimerMgr → Option (TimerMgr × List Call)
expired react fuel m = expire react fuel m.core [] m.timers
