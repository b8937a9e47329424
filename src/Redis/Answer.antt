-- ===== src/Redis/Answer.antt =====
-- A command of datacenter/RedisAgent.cpp and its reply.
use playground.Prelude.{
  ℕ, ◌+◌, ◌<◌, ◌≡◌, ◌≢◌, ◌⊎◌, refl, false, List, [], ◌∷◌, ◌++◌, none, some, inl, inr, Bool-cases,
  length, arith, get_elem?, zero, suc, ◌%◌,
}
use playground.Prelude.Map.{
  lookup, insert, erase, next_u32, lookup-insert, lookup-erase, first_free-next_u32_lem,
}
use playground.Prelude.Words.{pos, minus_one, u32}
use playground.Cache.{Reply}
use playground.Redis.{
  RedisAgentCallBack, RedisAgent, Format, Env, find_call_back, selectdb_cb, strstr, on_command,
  command, RedisClientContext, select_context,
}

-- The command waits under an id that none had, and no other command's id changes.
pub record IsWaiting (a a' : RedisAgent) (cb : List ℕ) (now id : ℕ) : Type 0 where
  pub free : lookup id a.pool ≡ none
  pub kept : lookup id a'.pool ≡ some (record { cb = cb; time = u32 now })
  pub others : (j : ℕ) → id ≢ j → lookup j a'.pool ≡ lookup j a.pool
  pub silent : a'.told ≡ a.told

-- Where there is a context, rand() picks one.
get_elem?-some :
    {A : Type 0} → (l : List A) (n : ℕ) → n < length l → (x : A) × (get_elem? l n ≡ some x)
get_elem?-some [] n h = absurd (omega (arith, h))
get_elem?-some (x ∷ l) zero h = (x, refl)
get_elem?-some (x ∷ l) (suc n) h = get_elem?-some l n (omega (arith, h))

select_context-some :
    (env : Env) (a : RedisAgent)
    → 0 < length a.contexts
    → (c : RedisClientContext) × (select_context env a ≡ some c)
unfolding select_context
select_context-some env a h =
    get_elem?-some a.contexts (env.rand % length a.contexts) (omega (arith, h))

command_lem :
    (env : Env) (a : RedisAgent) (cb : List ℕ) (format : Format)
    → 0 < length a.contexts
    → length a.pool < 4294967296
    → a.call_back_seq < 4294967296
    → (a' : RedisAgent) × (((command env a cb format ≡ some (minus_one, a'))
          × (a'.pool ≡ a.pool)
          × (a'.told ≡ a.told))
        ⊎ ((id : ℕ) × (command env a cb format ≡ some (pos 0, a')) × IsWaiting a a' cb env.now id))
unfolding command
command_lem env a cb format ready few small =
    let (c, there) = select_context-some env a ready in
    let (id, found, free) =
      first_free-next_u32_lem (length a.pool + 1) a.call_back_seq a.pool (omega arith)
        (omega (arith, few)) small in
    elim (Bool-cases (env.sends c.ctx format id)) [
      | inr f ↦
          (record a { call_back_seq = id }, inl (simp (there, found, f, command) refl, refl, refl))
      | inl t ↦
          let entry : RedisAgentCallBack = record { cb = cb; time = u32 env.now } in
          (
            record a { pool = insert id entry a.pool; call_back_seq = next_u32 id },
            inr (
              id,
              simp (there, found, t, command) refl,
              record {
                free = free;
                kept = ground (arith, lookup-insert id id entry a.pool);
                others = λ j ne. ground (arith, ne, lookup-insert id j entry a.pool);
                silent = refl;
              },
            ),
          )
    ]

-- The command under the id is answered: the listener has one more call, with the callback and the
-- reply, and nothing waits under the id any more, so that another reply for it changes nothing.
pub record IsAnswered (env : Env) (a a' : RedisAgent) (cb : List ℕ) (reply : Reply) (id : ℕ)
    : Type 0 where
  pub told : a'.told ≡ a.told ++ record { reply = reply; cb = cb; timeout = false } ∷ []
  pub gone : lookup id a'.pool ≡ none
  pub others : (j : ℕ) → id ≢ j → lookup j a'.pool ≡ lookup j a.pool
  pub again : (ctx : ℕ) (r : Reply) → on_command env a' ctx r id ≡ a'

answer_lem :
    (env : Env) (a : RedisAgent) (p : RedisAgentCallBack) (ctx : ℕ) (reply : Reply) (id : ℕ)
    → lookup id a.pool ≡ some p
    → strstr p.cb selectdb_cb ≡ false
    → IsAnswered env a (on_command env a ctx reply id) p.cb reply id
unfolding on_command find_call_back
answer_lem env a p ctx reply id has plain =
    let a' : RedisAgent = record a {
      told = a.told ++ record { reply = reply; cb = p.cb; timeout = false } ∷ [];
      pool = erase id a.pool;
    } in
    let gone : lookup id a'.pool ≡ none = ground (arith, lookup-erase id id a.pool) in
    let is : on_command env a ctx reply id ≡ a' = simp (has, on_command, plain) refl in
    rw is (record {
      told = refl;
      gone = gone;
      others = λ j ne. ground (arith, ne, lookup-erase id j a.pool);
      again = λ ctx r. simp (gone, on_command) refl;
    })

-- With at least one context, fewer than 2 ^ 32 waiting commands and a callback that does not hold
-- the mark of SelectDB, Command ends. It refuses with -1 and changes neither the waiting commands
-- nor what the listener was told, or it returns 0, and the command waits with its callback and the
-- time under an id that no command had, while all others wait as before. Any reply for that id
-- then tells the listener once, with this callback and reply, takes the command and no other from
-- those that wait, and a further reply for the id changes nothing.
pub command-on_command :
    (env : Env) (a : RedisAgent) (cb : List ℕ) (format : Format)
    → 0 < length a.contexts
    → length a.pool < 4294967296
    → a.call_back_seq < 4294967296
    → strstr cb selectdb_cb ≡ false
    → (a' : RedisAgent) × (((command env a cb format ≡ some (minus_one, a'))
          × (a'.pool ≡ a.pool)
          × (a'.told ≡ a.told))
        ⊎ ((id : ℕ) × (command env a cb format ≡ some (pos 0, a'))
            × IsWaiting a a' cb env.now id
            × ((ctx : ℕ) (reply : Reply)
                → IsAnswered env a' (on_command env a' ctx reply id) cb reply id)))
command-on_command env a cb format ready few small plain =
    let (a', h) = command_lem env a cb format ready few small in
    elim h [
      | inl refused ↦ (a', inl refused)
      | inr (id, e, w) ↦ (
        a',
        inr (
          id,
          e,
          w,
          λ ctx reply.
              answer_lem env a' (record { cb = cb; time = u32 env.now }) ctx reply id w.kept plain,
        ),
      )
    ]
