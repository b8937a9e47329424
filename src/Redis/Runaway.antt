-- ===== src/Redis/Runaway.antt =====
-- CheckTimeOut of datacenter/RedisAgent.cpp, where it looks beyond the ids in use.
use playground.Prelude.{ℕ, zero, suc, ◌+◌, ◌<◌, ◌≤◌, ◌≡◌, refl, ap, ◌∙◌, true, none, ltb, arith}
use playground.Prelude.Map.{lookup, next_u32}
use playground.Redis.{RedisAgent, Env}
use playground.Redis.TimeOut.{check_beyond, next_check, check_time_out}

check_beyond-skips :
    (rounds : ℕ) (env : Env) (a : RedisAgent)
    → ((j : ℕ) → a.chk_time_out ≤ j → lookup j a.pool ≡ none)
    → a.chk_time_out + rounds < 4294967296
    → check_beyond rounds env a ≡ record a { chk_time_out = a.chk_time_out + rounds }
unfolding check_beyond
check_beyond-skips zero env a free small = ap (λ n. record a { chk_time_out = n }) (omega arith)
check_beyond-skips (suc rounds) env a free small =
    let next : next_u32 a.chk_time_out ≡ a.chk_time_out + 1 = omega (arith, small) in
    let here : check_beyond (suc rounds) env a ≡ check_beyond rounds env (next_check a) =
      simp (free a.chk_time_out (omega arith), check_beyond) refl in
    here
    ∙ check_beyond-skips rounds env (next_check a) (λ j le. free j (omega (arith, le, next)))
        (omega (arith, small, next))
    ∙ ap (λ n. record a { chk_time_out = n }) (omega (arith, next))

-- Where the id that CheckTimeOut looks at next lies beyond the last id and no command waits under
-- it or a higher one, and it does not reach 2 ^ 32, CheckTimeOut of some rounds only moves it on
-- by as many: however old the waiting commands are, none is timed out.
pub check_time_out-runaway :
    (env : Env) (a : RedisAgent) (chk_num : ℕ)
    → a.call_back_seq < a.chk_time_out
    → ((j : ℕ) → a.chk_time_out ≤ j → lookup j a.pool ≡ none)
    → a.chk_time_out + chk_num < 4294967296
    → check_time_out env a chk_num ≡ record a { chk_time_out = a.chk_time_out + chk_num }
unfolding check_time_out
check_time_out-runaway env a chk_num beyond free small =
    let away : ltb a.call_back_seq a.chk_time_out ≡ true = ground (arith, beyond) in
    simp (away, check_time_out) (check_beyond-skips chk_num env a free small)
