-- ===== src/Tests/RedisTests.antt =====
-- The theorems of the Redis agent, applied to an agent with one waiting command.
use playground.Prelude.{ℕ, ◌≤◌, ◌≡◌, ◌⊎◌, refl, true, false, [], ◌∷◌, none, some, arith}
use playground.Prelude.Map.{lookup}
use playground.Prelude.Words.{pos, minus_one}
use playground.Cache.{Reply}
use playground.Redis.{
  RedisAgent, Env, get_key, selectdb_cb, starts_with, strstr, command, on_command,
}
use playground.Redis.TimeOut.{check_time_out}
use playground.Redis.Answer.{IsWaiting, IsAnswered, command-on_command}
use playground.Redis.Runaway.{check_time_out-runaway}

abbrev env : Env
env = record { now = 1000; rand = 3; sends = λ ctx format id. true; is_status_zero = λ reply. true }

-- The command 1 waits since the time 0; the agent checks from the id 5 on, where it starts.
abbrev agent : RedisAgent
agent = record {
  call_back_seq = 2;
  pool = (1, record { cb = 7 ∷ []; time = 0 }) ∷ [];
  chk_time_out = 5;
  contexts = record { ctx = 1; dbidx = 0; db_selected = true } ∷ [];
  connected = pos 1;
  told = [];
}

plain : strstr (8 ∷ []) selectdb_cb ≡ false
unfolding strstr starts_with
plain = refl

command-on_command_example :
    (a' : RedisAgent) × (((command env agent (8 ∷ []) (get_key (107 ∷ [])) ≡ some (minus_one, a'))
        × (a'.pool ≡ agent.pool)
        × (a'.told ≡ agent.told))
      ⊎ ((id : ℕ) × (command env agent (8 ∷ []) (get_key (107 ∷ [])) ≡ some (pos 0, a'))
          × IsWaiting agent a' (8 ∷ []) env.now id
          × ((ctx : ℕ) (reply : Reply)
              → IsAnswered env a' (on_command env a' ctx reply id) (8 ∷ []) reply id)))
command-on_command_example =
    command-on_command env agent (8 ∷ []) (get_key (107 ∷ [])) (omega arith) (omega arith)
      (omega arith) plain

free : (j : ℕ) → 5 ≤ j → lookup j agent.pool ≡ none
unfolding lookup
free j le = ground (arith, le)

check_time_out-runaway_example : check_time_out env agent 10 ≡ record agent { chk_time_out = 15 }
check_time_out-runaway_example =
    check_time_out-runaway env agent 10 (omega arith) free (omega arith)
