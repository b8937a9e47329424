-- ===== src/Redis/TimeOut.antt =====
-- datacenter/RedisAgent.cpp: the check of commands that wait too long.
use playground.Prelude.{
  ℕ, zero, suc, ◌+◌, Bool, true, [], ◌∷◌, ◌++◌, none, some, ltb, leb, if◌then◌else◌,
}
use playground.Prelude.Map.{lookup, erase, next_u32}
use playground.Prelude.Words.{u32}
use playground.Cache.{Reply}
use playground.Redis.{RedisAgentCallBack, RedisAgent, Env}

-- Whether the callback's five seconds are over.
abbrev pub is_late : Env → RedisAgentCallBack → Bool
is_late env p = ltb (u32 (p.time + 5)) env.now

unfoldable pub time_out : RedisAgent → RedisAgentCallBack → RedisAgent
time_out a p = record a {
  pool = erase a.chk_time_out a.pool;
  told = a.told ++ record { reply = Reply.missing; cb = p.cb; timeout = true } ∷ [];
}

abbrev pub next_check : RedisAgent → RedisAgent
next_check a = record a { chk_time_out = next_u32 a.chk_time_out }

-- The first loop of CheckTimeOut, with its rounds.
unfoldable pub check_beyond : ℕ → Env → RedisAgent → RedisAgent
check_beyond zero env a = a
check_beyond (suc rounds) env a =
    let skip = check_beyond rounds env (next_check a) in
    elim (lookup a.chk_time_out a.pool) [
      | none ↦ skip
      | some p ↦
          let late = check_beyond rounds env (next_check (time_out a p)) in
          if is_late env p then late else a
    ]

-- The second, which stops behind the last id.
unfoldable pub check_up_to : ℕ → Env → RedisAgent → RedisAgent
check_up_to zero env a = a
check_up_to (suc rounds) env a =
    let skip = check_up_to rounds env (next_check a) in
    if leb a.chk_time_out a.call_back_seq
    then elim (lookup a.chk_time_out a.pool) [
      | none ↦ skip
      | some p ↦
          let late = check_up_to rounds env (next_check (time_out a p)) in
          if is_late env p then late else a
    ]
    else a

unfoldable pub check_time_out : Env → RedisAgent → ℕ → RedisAgent
check_time_out env a chk_num =
    if ltb a.call_back_seq a.chk_time_out
    then check_beyond chk_num env a
    else (let a' = check_up_to chk_num env a in
        if ltb a'.call_back_seq a'.chk_time_out
        then record a' { chk_time_out = a'.call_back_seq }
        else a')
