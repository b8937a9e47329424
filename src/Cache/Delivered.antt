-- ===== src/Cache/Delivered.antt =====
-- A GET of the cache (datacenter/CacheAgent.cpp) over the agent of Redis (datacenter/RedisAgent.cpp).
use playground.Prelude.{
  ℕ, ◌<◌, ◌≡◌, sym, ap, ◌∙◌, Bool, true, false, List, [], ◌∷◌, ◌++◌, Option, none, some, inl, inr,
  Bool-cases, Option-cases, length, get_elem?, ◌%◌, dec_lt, arith, refl,
}
use playground.Prelude.Words.{ℤ, pos, is_zero_ℤ}
use playground.Prelude.StringMap.{lookup, insert}
use playground.Cache
use playground.Cache.{
  CacheAgent, text_reply, on_get, type_kv, cmd_get, create_call_back, get_object_key, sent_if,
}
use playground.Cache.Dispatch
use playground.Cache.Dispatch.{name_space}
use playground.Cache.Answered.{FitsField, get-sent, get-on_command}
use playground.Redis
use playground.Redis.{
  RedisAgent, Format, get_key, command, select_context, selectdb_cb, strstr, starts_with,
}
use playground.Redis.Answer.{IsWaiting, IsAnswered, command-on_command}

-- Whether a command returns 0.
abbrev pub is_taken : Option (ℤ × RedisAgent) → Bool
is_taken none = false
is_taken (some (ret, a)) = is_zero_ℤ ret

-- The cache, whose GETs go to the agent of Redis.
abbrev pub over : Redis.Env → RedisAgent → Cache.Env → Cache.Env
over re ra env = record env { redis_get = λ key ccb. is_taken (Redis.get re ra key ccb) }

-- A callback is no callback of SelectDB: its second byte is 0.
create_call_back-plain :
    (env : Cache.Env) (name cb ccb : List ℕ)
    → create_call_back env type_kv cmd_get name cb [] ≡ some ccb
    → strstr ccb selectdb_cb ≡ false
unfolding create_call_back strstr starts_with
create_call_back-plain env name cb ccb made = elim (Bool-cases env.allocates) [
  | inr f ↦ absurd (cc (simp (f, create_call_back) at made))
  | inl t ↦
      let same_some : some (21 ∷ 0 ∷ 0 ∷ 1 ∷ 0 ∷ (env.field 16 name ++ cb)) ≡ some ccb =
        simp (t, create_call_back) at made in
      let is : 21 ∷ 0 ∷ 0 ∷ 1 ∷ 0 ∷ (env.field 16 name ++ cb) ≡ ccb = cc same_some in
      ap (λ s. strstr s selectdb_cb) (sym is)
]

-- Redis has taken the GET.
get-is_taken :
    (env : Cache.Env) (obj : ℕ) (cb ccb : List ℕ)
    → Cache.get env obj cb ≡ (pos 0, some ccb)
    → (key : List ℕ) × (env.redis_get key ccb ≡ true)
unfolding Cache.get sent_if
get-is_taken env obj cb ccb e = elim (Option-cases (get_object_key env obj)) [
  | inl n ↦ absurd (cc (simp (n, Cache.get) at e))
  | inr (key, has) ↦
      elim (Option-cases (create_call_back env type_kv cmd_get (env.type_name obj) cb [])) [
        | inl n ↦ absurd (cc (simp (has, n, Cache.get) at e))
        | inr (c, made) ↦ elim (Bool-cases (env.redis_get key c)) [
          | inl t ↦
              let is : c ≡ ccb = cc (simp (has, made, t, Cache.get) at e) in
              (key, ap (env.redis_get key) (sym is) ∙ t)
          | inr f ↦ absurd (cc (simp (has, made, f, Cache.get) at e))
        ]
      ]
]

nothing_in : {A : Type 0} → (l : List A) (n : ℕ) → length l ≡ 0 → get_elem? l n ≡ none
nothing_in [] n e = refl
nothing_in (x ∷ l) n e = absurd (omega (arith, e))

-- A command is only taken where there is a context.
select_context-none :
    (re : Redis.Env) (ra : RedisAgent) → length ra.contexts ≡ 0 → select_context re ra ≡ none
unfolding select_context
select_context-none re ra e = nothing_in ra.contexts (re.rand % length ra.contexts) e

taken-ready :
    (re : Redis.Env) (ra : RedisAgent) (key ccb : List ℕ)
    → is_taken (Redis.get re ra key ccb) ≡ true
    → 0 < length ra.contexts
unfolding Redis.get command
taken-ready re ra key ccb taken = elim (dec_lt 0 (length ra.contexts)) [
  | yes h ↦ h
  | no h ↦
      absurd (cc (rw (select_context-none re ra (omega (arith, h)), Redis.get, command) at taken))
]

-- Take a cache whose GETs go to an agent of Redis with fewer than 2 ^ 32 waiting commands, and an
-- object whose type's name fits into its field and has a listener. Where Get returns 0 with a
-- callback, the command waits at the agent of Redis with this callback under an id that no command
-- had. Whatever string that unpacks to an object with a key comes as the reply for that id, the
-- agent passes it on once with this callback, and OnCommand of the cache then stores the object
-- under its key, leaves the rest as it is, and calls only this listener, with OnGet, DATA_OK, the
-- object and the bytes that the caller of Get gave.
pub get-delivered :
    (env : Cache.Env) (re : Redis.Env) (ra : RedisAgent) (a : CacheAgent) (obj : ℕ)
    (cb ccb : List ℕ) (l : ℕ)
    → Cache.get (over re ra env) obj cb ≡ (pos 0, some ccb)
    → length ra.pool < 4294967296
    → ra.call_back_seq < 4294967296
    → FitsField env (env.type_name obj)
    → lookup (env.type_name obj) a.listeners ≡ some l
    → (key : List ℕ) × (ra' : RedisAgent) × (id : ℕ) × (Redis.get re ra key ccb ≡ some (pos 0, ra'))
      × IsWaiting ra ra' ccb re.now id
      × ((ctx : ℕ) (text : List ℕ) (got_obj : ℕ) (own : List ℕ)
          → env.unpack (name_space ++ env.type_name obj) text ≡ some got_obj
          → get_object_key env got_obj ≡ some own
          → let notice = on_get (pos 0) (some got_obj) cb in
            IsAnswered re ra'
              (Redis.on_command re ra' ctx (text_reply text) id)
              ccb
              (text_reply text)
              id
            × (Dispatch.on_command (over re ra env) a ccb (text_reply text) false
                ≡ some (record {
                  ret = env.heard l notice;
                  agent = record a { objects = insert own got_obj a.objects };
                  told = (l, notice) ∷ [];
                })))
unfolding Redis.get get_object_key Cache.key_of Cache.key_from Cache.key_part
get-delivered env re ra a obj cb ccb l sent few small fits known =
    let cenv = over re ra env in
    let (key, taken) = get-is_taken cenv obj cb ccb sent in
    let ready = taken-ready re ra key ccb taken in
    let plain =
      create_call_back-plain cenv (env.type_name obj) cb ccb
        (get-sent cenv obj cb ccb (pos 0) sent) in
    let (ra', h) = command-on_command re ra ccb (get_key key) ready few small plain in
    elim h [
      | inl (e, _, _) ↦ absurd (cc (sym taken ∙ ap is_taken e))
      | inr (id, e, w, answers) ↦ (
        key,
        ra',
        id,
        e,
        w,
        λ ctx text got_obj own read has. (
          answers ctx (text_reply text),
          get-on_command cenv a obj cb ccb text false l got_obj own sent
              (record { size = fits.size; read = fits.read }) known read has,
        ),
      )
    ]
