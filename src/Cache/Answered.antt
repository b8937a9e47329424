-- ===== src/Cache/Answered.antt =====
-- The callback of a command to the cache (datacenter/CacheAgent.cpp) comes back with the reply.
use playground.Prelude.{
  ℕ, ◌+◌, ◌*◌, ◌/◌, ◌%◌, ◌<◌, ◌≡◌, refl, sym, ap, ◌∙◌, Bool, true, List, [], ◌∷◌, ◌++◌, none, some,
  arith, leb, if◌then◌else◌, inl, inr, Bool-cases, Option-cases, length, take, drop, length-append,
  take-append, drop-append,
}
use playground.Prelude.Words.{ℤ, pos}
use playground.Prelude.StringMap.{lookup, insert}
use playground.Cache.{
  Env, CacheAgent, Reply, text_reply, on_get, cmd_get, type_kv, create_call_back, get_object_key,
  get, sent_if,
}
use playground.Cache.Dispatch.{
  tell, result_code, name_space, got, dispatch_result, c_string, on_command,
}

-- The type's name fits into its field: STRNCPY fills the field, and the name is read from it.
pub record FitsField (env : Env) (name : List ℕ) : Type 0 where
  pub size : length (env.field 16 name) ≡ 16
  pub read : c_string (env.field 16 name) ≡ name

take-field : (xs ys : List ℕ) (n : ℕ) → length xs ≡ n → take n (xs ++ ys) ≡ xs
take-field xs ys n e = ap (λ k. take k (xs ++ ys)) (sym e) ∙ take-append xs ys

drop-field : (xs ys : List ℕ) (n : ℕ) → length xs ≡ n → drop n (xs ++ ys) ≡ ys
drop-field xs ys n e = ap (λ k. drop k (xs ++ ys)) (sym e) ∙ drop-append xs ys

-- For a command below 2 ^ 16 and a type's name that fits into its field, a callback that
-- CreateCallBack makes without an object's key makes OnCommand pass the command, the name, the
-- reply and the caller's own bytes on to DispatchResult unchanged.
pub on_command-create_call_back :
    (env : Env) (a : CacheAgent) (type cmd : ℕ) (name cb ccb : List ℕ) (reply : Reply)
    (timeout : Bool)
    → cmd < 65536
    → FitsField env name
    → create_call_back env type cmd name cb [] ≡ some ccb
    → on_command env a ccb reply timeout ≡ dispatch_result env a cmd name reply cb timeout
unfolding create_call_back on_command
on_command-create_call_back env a type cmd name cb ccb reply timeout small fits made =
    elim (Bool-cases env.allocates) [
      | inr f ↦ absurd (cc (simp (f, create_call_back) at made))
      | inl t ↦
          let bytes =
            21 ∷ 0 ∷ type % 256 ∷ cmd % 256 ∷ cmd / 256 % 256 ∷ (env.field 16 name ++ cb) in
          let same_some : some bytes ≡ some ccb = simp (t, create_call_back) at made in
          let is : bytes ≡ ccb = cc same_some in
          let whole : leb 21 (length bytes) ≡ true =
            ground (arith, length-append (env.field 16 name) cb, fits.size) in
          let cmd_read : cmd % 256 + cmd / 256 % 256 * 256 ≡ cmd = omega (arith, small) in
          let name_read : c_string (take 16 (env.field 16 name ++ cb)) ≡ name =
            ap c_string (take-field (env.field 16 name) cb 16 fits.size) ∙ fits.read in
          let rest : drop 21 bytes ≡ cb = drop-field (env.field 16 name) cb 16 fits.size in
          ap (λ b. on_command env a b reply timeout) (sym is)
          ∙ ap
              (λ b.
                if b
                then dispatch_result env a (cmd % 256 + cmd / 256 % 256 * 256)
                    (c_string (take 16 (env.field 16 name ++ cb))) reply (drop 21 bytes) timeout
                else none)
              whole
          ∙ ap
              (λ c.
                dispatch_result env a c (c_string (take 16 (env.field 16 name ++ cb))) reply
                  (drop 21 bytes) timeout)
              cmd_read
          ∙ ap (λ n. dispatch_result env a cmd n reply (drop 21 bytes) timeout) name_read
          ∙ ap (λ u. dispatch_result env a cmd name reply u timeout) rest
    ]

-- What Redis has taken of a GET.
pub get-sent :
    (env : Env) (obj : ℕ) (cb ccb : List ℕ) (ret : ℤ)
    → get env obj cb ≡ (ret, some ccb)
    → create_call_back env type_kv cmd_get (env.type_name obj) cb [] ≡ some ccb
unfolding get sent_if
get-sent env obj cb ccb ret e = elim (Option-cases (get_object_key env obj)) [
  | inl n ↦ absurd (cc (simp (n, get) at e))
  | inr (key, has) ↦
      elim (Option-cases (create_call_back env type_kv cmd_get (env.type_name obj) cb [])) [
        | inl n ↦ absurd (cc (simp (has, n, get) at e))
        | inr (c, made) ↦ elim (Bool-cases (env.redis_get key c)) [
          | inl t ↦ made ∙ cc (simp (has, made, t, get) at e)
          | inr f ↦ absurd (cc (simp (has, made, f, get) at e))
        ]
      ]
]

-- Where Get returns 0 and Redis keeps its callback, the name of the object's type fits into its
-- field and has a listener, and Redis replies with a string that unpacks to an object with a key,
-- OnCommand stores that object under its key, leaves the rest of the agent as it is, and calls
-- only this listener, with OnGet, DATA_OK, the object and the bytes that the caller of Get gave.
pub get-on_command :
    (env : Env) (a : CacheAgent) (obj : ℕ) (cb ccb text : List ℕ) (timeout : Bool) (l got_obj : ℕ)
    (key : List ℕ)
    → get env obj cb ≡ (pos 0, some ccb)
    → FitsField env (env.type_name obj)
    → lookup (env.type_name obj) a.listeners ≡ some l
    → env.unpack (name_space ++ env.type_name obj) text ≡ some got_obj
    → get_object_key env got_obj ≡ some key
    → let notice = on_get (pos 0) (some got_obj) cb in
      on_command env a ccb (text_reply text) timeout
      ≡ some (record {
        ret = env.heard l notice;
        agent = record a { objects = insert key got_obj a.objects };
        told = (l, notice) ∷ [];
      })
unfolding dispatch_result result_code got tell
get-on_command env a obj cb ccb text timeout l got_obj key sent fits known read own =
    on_command-create_call_back env a type_kv cmd_get (env.type_name obj) cb ccb (text_reply text)
      timeout (omega arith) fits (get-sent env obj cb ccb (pos 0) sent)
    ∙ simp (known, read, own, dispatch_result, got) refl
