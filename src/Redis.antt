-- ===== src/Redis.antt =====
-- datacenter/RedisAgent.cpp: commands to Redis that wait for their replies. A command waits under an
-- id, with the caller's callback buffer and the time. `told` lists the calls of the listener, which
-- sends no command from there; a connection's context is a number.
pub mod TimeOut
pub mod Answer
pub mod Runaway
use playground.Prelude.{
  ℕ, zero, suc, ◌+◌, Bool, true, false, ◌&&◌, ◌||◌, List, [], ◌∷◌, ◌++◌, Option, none, some, ltb,
  leb, ◌==◌, if◌then◌else◌, length, get_elem?, ◌%◌,
}
use playground.Prelude.Map.{Map, lookup, insert, erase, first_free, next_u32}
use playground.Prelude.Words.{ℤ, pos, minus_one, ◌+ℤ◌, ◌-ℤ◌, u32}
use playground.Cache.{Reply}

pub record RedisAgentCallBack : Type 0 where
  pub cb : List ℕ
  pub time : ℕ

pub record RedisClientContext : Type 0 where
  pub ctx : ℕ
  pub dbidx : ℕ
  pub db_selected : Bool

-- A call of the listener's OnCommand.
pub record Told : Type 0 where
  pub reply : Reply
  pub cb : List ℕ
  pub timeout : Bool

pub record RedisAgent : Type 0 where
  pub call_back_seq : ℕ
  pub pool : Map RedisAgentCallBack
  pub chk_time_out : ℕ
  pub contexts : List RedisClientContext
  pub connected : ℤ
  pub told : List Told

-- The formats that commands are sent with.
pub data Format : Type 0 where
  get_key : List ℕ → Format
  set_key : List ℕ → List ℕ → Format
  del_key : List ℕ → Format
  select_db : ℕ → Format

-- What is not of this file: the clock, what rand() gives, whether hiredis takes a command with an id
-- for a context, and whether a reply is the status 0.
pub record Env : Type 0 where
  pub now : ℕ
  pub rand : ℕ
  pub sends : ℕ → Format → ℕ → Bool
  pub is_status_zero : Reply → Bool

-- The constructor of RedisAgent.
unfoldable pub new_agent : RedisAgent
new_agent = record {
  call_back_seq = 1;
  pool = [];
  chk_time_out = 5;
  contexts = [];
  connected = pos 0;
  told = [];
}

unfoldable pub find_call_back : RedisAgent → ℕ → Option RedisAgentCallBack
find_call_back a cbid = lookup cbid a.pool

-- SELECTDB_CB
abbrev pub selectdb_cb : List ℕ
selectdb_cb = 36 ∷ 83 ∷ 69 ∷ 76 ∷ 69 ∷ 67 ∷ 84 ∷ 68 ∷ 66 ∷ []

unfoldable pub starts_with : List ℕ → List ℕ → Bool
starts_with [] s = true
starts_with (x ∷ p) [] = false
starts_with (x ∷ p) (y ∷ s) = (x == y) && starts_with p s

-- strstr, up to the first 0 of the bytes.
unfoldable pub strstr : List ℕ → List ℕ → Bool
strstr [] p = starts_with p []
strstr (b ∷ s) p =
    let rest = strstr s p in if starts_with p (b ∷ s) then true else if b == 0 then false else rest

-- `db_selected = true` for the first context `ctx`.
unfoldable pub mark_selected : ℕ → List RedisClientContext → List RedisClientContext
mark_selected ctx [] = []
mark_selected ctx (c ∷ cs) =
    let rest = mark_selected ctx cs in
    if ctx == c.ctx then record c { db_selected = true } ∷ cs else c ∷ rest

-- A reply is there: without one the source reads from a null pointer.
unfoldable pub on_select_db : Env → RedisAgent → ℕ → Reply → RedisAgent
on_select_db env a ctx reply =
    if env.is_status_zero reply then record a { contexts = mark_selected ctx a.contexts } else a

unfoldable pub on_command : Env → RedisAgent → ℕ → Reply → ℕ → RedisAgent
on_command env a ctx reply cbid = elim (find_call_back a cbid) [
  | none ↦ a
  | some p ↦
      let done = if strstr p.cb selectdb_cb then on_select_db env a ctx reply else record a {
        told = a.told ++ record { reply = reply; cb = p.cb; timeout = false } ∷ [];
      } in
      record done { pool = erase cbid done.pool }
]

unfoldable pub all_context_ready : List RedisClientContext → Bool
all_context_ready [] = true
all_context_ready (c ∷ cs) = c.db_selected && all_context_ready cs

-- The context that a command goes to; `none`: there is none, and the source divides by 0.
unfoldable pub select_context : Env → RedisAgent → Option RedisClientContext
select_context env a = get_elem? a.contexts (env.rand % length a.contexts)

-- `none`: there is no context, or the search for an id does not end, with every id in use.
unfoldable pub command : Env → RedisAgent → List ℕ → Format → Option (ℤ × RedisAgent)
command env a cb format = elim (select_context env a) [
  | none ↦ none
  | some c ↦ elim (first_free next_u32 (length a.pool + 1) a.call_back_seq a.pool) [
    | none ↦ none
    | some id ↦
        if env.sends c.ctx format id
        then some (
          pos 0,
          record a {
            pool = insert id (record { cb = cb; time = u32 env.now }) a.pool;
            call_back_seq = next_u32 id;
          },
        )
        else some (minus_one, record a { call_back_seq = id })
  ]
]

unfoldable pub get : Env → RedisAgent → List ℕ → List ℕ → Option (ℤ × RedisAgent)
get env a key cb = command env a cb (get_key key)

unfoldable pub update : Env → RedisAgent → List ℕ → List ℕ → List ℕ → Option (ℤ × RedisAgent)
update env a key obj cb = command env a cb (set_key key obj)

unfoldable pub remove : Env → RedisAgent → List ℕ → List ℕ → Option (ℤ × RedisAgent)
remove env a key cb = command env a cb (del_key key)

-- SelectDB drops what Command returns.
unfoldable pub select : Env → RedisAgent → ℕ → Option RedisAgent
select env a dbidx = elim (command env a (selectdb_cb ++ 0 ∷ []) (select_db dbidx)) [
  | none ↦ none
  | some (_, a') ↦ some a'
]

unfoldable pub find_context : List RedisClientContext → ℕ → Option RedisClientContext
find_context [] ctx = none
find_context (c ∷ cs) ctx = if ctx == c.ctx then some c else find_context cs ctx

-- ConnectCallback; `none` is a null pointer for an unknown context, or the search that does not end.
unfoldable pub on_connect : Env → RedisAgent → ℕ → Bool → Option RedisAgent
on_connect env a ctx ok =
    if ok
    then elim (find_context a.contexts ctx) [
      | none ↦ none
      | some c ↦ select env (record a { connected = a.connected +ℤ pos 1 }) c.dbidx
    ]
    else some a

-- DisConnectCallback
unfoldable pub on_disconnect : RedisAgent → Bool → RedisAgent
on_disconnect a ok = if ok then record a { connected = a.connected -ℤ pos 1 } else a
