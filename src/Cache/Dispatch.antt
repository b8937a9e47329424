-- ===== src/Cache/Dispatch.antt =====
-- datacenter/CacheAgent.cpp: what is done with a reply of Redis.
use playground.Prelude.{
  ℕ, ◌+◌, ◌*◌, Bool, List, [], ◌∷◌, ◌++◌, Option, none, some, leb, ◌==◌, if◌then◌else◌, length,
  take, drop,
}
use playground.Prelude.Words.{ℤ, pos, minus_one, is_zero_ℤ}
use playground.Prelude.StringMap.{lookup, insert}
use playground.Cache.{
  Env, CacheAgent, Reply, missing, failed, nothing, text_reply, other, Notice, on_get, on_update,
  on_insert, on_remove, data_time_out, data_unpack_error, data_internal_err, data_redis_err_start,
  cmd_get, cmd_update, cmd_insert, cmd_remove, get_object_key,
}

-- What a reply comes to: the number, the agent, and the calls of listeners.
pub record Outcome : Type 0 where
  pub ret : ℤ
  pub agent : CacheAgent
  pub told : List (ℕ × Notice)

-- The number that the reply's type gives.
unfoldable pub result_code : Env → Reply → Bool → ℤ
result_code env missing timeout = if timeout then data_time_out else pos 0
result_code env failed timeout = pos (data_redis_err_start + env.error_type)
result_code env nothing timeout = pos 1
result_code env (text_reply s) timeout = pos 0
result_code env other timeout = pos 0

-- The call of a listener at the end of a branch.
unfoldable pub tell : Env → CacheAgent → ℕ → Notice → Outcome
tell env a l notice = record { ret = env.heard l notice; agent = a; told = (l, notice) ∷ [] }

-- GetMetaNameSpace()+"."
abbrev pub name_space : List ℕ
name_space = 100 ∷ 98 ∷ 46 ∷ []

-- A GET whose result is DATA_OK. `none` is a null pointer that is followed, or the failed assertion.
unfoldable pub got : Env → CacheAgent → ℕ → List ℕ → Reply → List ℕ → Option Outcome
got env a l type_key (text_reply s) ucb = elim (env.unpack (name_space ++ type_key) s) [
  | none ↦ some (tell env a l (on_get data_unpack_error none ucb))
  | some obj ↦ elim (get_object_key env obj) [
    | none ↦ none
    | some key ↦ some (
        tell env (record a { objects = insert key obj a.objects }) l
          (on_get (pos 0) (some obj) ucb))
  ]
]
got env a l type_key missing ucb = none
got env a l type_key failed ucb = some (tell env a l (on_get data_internal_err none ucb))
got env a l type_key nothing ucb = some (tell env a l (on_get data_internal_err none ucb))
got env a l type_key other ucb = some (tell env a l (on_get data_internal_err none ucb))

unfoldable pub dispatch_result :
    Env → CacheAgent → ℕ → List ℕ → Reply → List ℕ → Bool → Option Outcome
dispatch_result env a cmd type_key reply ucb timeout =
    let ret = result_code env reply timeout in
    elim (lookup type_key a.listeners) [
      | none ↦ some (record { ret = minus_one; agent = a; told = [] })
      | some l ↦
          if cmd == cmd_get
          then (if is_zero_ℤ ret
              then got env a l type_key reply ucb
              else some (tell env a l (on_get ret none ucb)))
          else if cmd == cmd_update
          then some (tell env a l (on_update ret ucb))
          else if cmd == cmd_insert
          then some (tell env a l (on_insert ret ucb))
          else if cmd == cmd_remove
          then some (tell env a l (on_remove ret ucb))
          else some (record { ret = minus_one; agent = a; told = [] })
    ]

-- A string in a field: the bytes before the first 0.
unfoldable pub c_string : List ℕ → List ℕ
c_string [] = []
c_string (b ∷ bytes) = let rest = c_string bytes in if b == 0 then [] else b ∷ rest

-- OnCommand of the listener for Redis, up to its own result, which is 0. `none`: a callback that is
-- too short, or a fault of DispatchResult.
unfoldable pub on_command : Env → CacheAgent → List ℕ → Reply → Bool → Option Outcome
on_command env a (l0 ∷ l1 ∷ type ∷ c0 ∷ c1 ∷ key) reply timeout =
    let cb = l0 ∷ l1 ∷ type ∷ c0 ∷ c1 ∷ key in
    if leb (l0 + l1 * 256) (length cb)
    then dispatch_result env a (c0 + c1 * 256) (c_string (take 16 key)) reply
        (drop (l0 + l1 * 256) cb) timeout
    else none
on_command env a _ reply timeout = none
