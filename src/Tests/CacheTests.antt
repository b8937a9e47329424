-- ===== src/Tests/CacheTests.antt =====
-- The theorems of the cache, applied to an agent with one listener.
use playground.Prelude.{ℕ, zero, suc, ◌≡◌, refl, true, false, List, [], ◌∷◌, none, some, arith}
use playground.Prelude.Words.{pos}
use playground.Prelude.Strings.{same}
use playground.Prelude.StringMap.{lookup, insert}
use playground.Prelude.Map
use playground.Prelude.Map.{first_free}
use playground.Cache
use playground.Cache.Dispatch
use playground.Redis
use playground.Redis.{RedisAgent, command}
use playground.Redis.Answer.{IsWaiting, IsAnswered}
use playground.Cache.Delivered.{over, get-delivered}
use playground.Cache.{
  Env, CacheAgent, text, text_reply, on_get, create_call_back, key_part, key_from, key_of,
  get_object_key, get, sent_if, find_object, find_object_of, get_object_ptr,
}
use playground.Cache.Dispatch.{c_string, dispatch_result, on_command}
use playground.Cache.Answered.{FitsField, on_command-create_call_back}
use playground.Cache.Lost.{find_object-lost}

unfoldable padded : ℕ → List ℕ → List ℕ
padded zero name = []
padded (suc n) [] = 0 ∷ padded n []
padded (suc n) (b ∷ name) = b ∷ padded n name

-- Objects are of the type `r` and have the key `k`; every string unpacks to the object 5.
abbrev env : Env
env = record {
  type_name = λ obj. 114 ∷ [];
  key_fields = λ obj. some (text (107 ∷ [])) ∷ [];
  pack = λ obj. some [];
  unpack = λ type bytes. some 5;
  printed = λ n. [];
  field = padded;
  allocates = true;
  redis_get = λ key ccb. true;
  redis_remove = λ key ccb. true;
  redis_update = λ key bytes ccb. true;
  error_type = 6;
  heard = λ l notice. pos 0;
}

abbrev agent : CacheAgent
agent = record { listeners = (114 ∷ [], 9) ∷ []; objects = [] }

env-FitsField : FitsField env (114 ∷ [])
unfolding padded c_string
env-FitsField = record { size = refl; read = refl }

-- The callback of a GET with the caller's bytes 1 and 2.
abbrev ccb : List ℕ
ccb =
    21 ∷ 0 ∷ 0 ∷ 1 ∷ 0 ∷ 114 ∷ 0 ∷ 0 ∷ 0 ∷ 0 ∷ 0 ∷ 0 ∷ 0 ∷ 0 ∷ 0 ∷ 0 ∷ 0 ∷ 0 ∷ 0 ∷ 0 ∷ 0 ∷ 1 ∷ 2
    ∷ []

taken_ccb : get env 3 (1 ∷ 2 ∷ []) ≡ (pos 0, some ccb)
unfolding get get_object_key key_of key_from key_part create_call_back sent_if padded
taken_ccb = refl

made_ccb : create_call_back env 0 1 (114 ∷ []) (1 ∷ 2 ∷ []) [] ≡ some ccb
unfolding create_call_back padded
made_ccb = refl

key_5 : get_object_key env 5 ≡ some (114 ∷ 58 ∷ 107 ∷ [])
unfolding get_object_key key_of key_from key_part
key_5 = refl

known : lookup (114 ∷ []) agent.listeners ≡ some 9
unfolding lookup same
known = refl

on_command-create_call_back_example :
    on_command env agent ccb (text_reply []) false
    ≡ dispatch_result env agent 1 (114 ∷ []) (text_reply []) (1 ∷ 2 ∷ []) false
on_command-create_call_back_example =
    on_command-create_call_back env agent 0 1 (114 ∷ []) (1 ∷ 2 ∷ []) ccb (text_reply []) false
      (omega arith) env-FitsField made_ccb

find_object-lost_example :
    let a' = record agent { objects = insert (114 ∷ 58 ∷ 107 ∷ []) 5 agent.objects } in
    (get_object_ptr env a' 5 ≡ some 5)
    × (find_object_of env a' 5 ≡ none)
    × (find_object a' (114 ∷ 58 ∷ 107 ∷ []) ≡ none)
find_object-lost_example = find_object-lost env agent 5 5 (114 ∷ 58 ∷ 107 ∷ []) key_5

-- An agent of Redis with no waiting command.
abbrev redis_env : Redis.Env
redis_env = record {
  now = 100;
  rand = 3;
  sends = λ ctx format id. true;
  is_status_zero = λ reply. true;
}

abbrev redis : RedisAgent
redis = record {
  call_back_seq = 1;
  pool = [];
  chk_time_out = 5;
  contexts = record { ctx = 1; dbidx = 0; db_selected = true } ∷ [];
  connected = pos 1;
  told = [];
}

sent_ccb : Cache.get (over redis_env redis env) 3 (1 ∷ 2 ∷ []) ≡ (pos 0, some ccb)
unfolding Cache.get get_object_key key_of key_from key_part create_call_back sent_if padded
    Redis.get command Redis.select_context first_free Map.lookup
sent_ccb = refl

get-delivered_example :
    (key : List ℕ) × (ra' : RedisAgent) × (id : ℕ) × (Redis.get redis_env redis key ccb
      ≡ some (pos 0, ra'))
    × IsWaiting redis ra' ccb 100 id
    × ((ctx : ℕ) (text : List ℕ) (got_obj : ℕ) (own : List ℕ)
        → some 5 ≡ some got_obj
        → get_object_key env got_obj ≡ some own
        → let notice = on_get (pos 0) (some got_obj) (1 ∷ 2 ∷ []) in
          IsAnswered redis_env ra'
            (Redis.on_command redis_env ra' ctx (text_reply text) id)
            ccb
            (text_reply text)
            id
          × (Dispatch.on_command (over redis_env redis env) agent ccb (text_reply text) false
              ≡ some (record {
                ret = pos 0;
                agent = record agent { objects = insert own got_obj agent.objects };
                told = (9, notice) ∷ [];
              })))
get-delivered_example =
    get-delivered env redis_env redis agent 3 (1 ∷ 2 ∷ []) ccb 9 sent_ccb (omega arith)
      (omega arith) env-FitsField known
