-- ===== src/Cache.antt =====
-- datacenter/CacheAgent.cpp: objects in a Redis cache. A command takes a callback buffer along that
-- comes back with the reply; objects and listeners are named by their addresses, strings by their
-- bytes.
pub mod Dispatch
pub mod Answered
pub mod Lost
pub mod Delivered
use playground.Prelude.{
  ℕ, zero, suc, ◌+◌, ◌*◌, ◌/◌, ◌%◌, Bool, true, false, ◌||◌, List, [], ◌∷◌, ◌++◌, Option, none,
  some, ltb, leb, ◌==◌, if◌then◌else◌, length, take, drop,
}
use playground.Prelude.Words.{ℤ, pos, minus_one, is_zero_ℤ}
use playground.Prelude.StringMap.{StringMap, lookup, insert, erase}

-- A set field of an object by its type; `unsupported`: a type that the switch refuses.
pub data Value : Type 0 where
  number : ℤ → Value
  text : List ℕ → Value
  unsupported : Value

-- A reply of Redis; `failed` has the type REDIS_REPLY_ERROR, `other` any type that is not named.
pub data Reply : Type 0 where
  missing failed nothing : Reply
  text_reply : List ℕ → Reply
  other : Reply

-- A call of a listener.
pub data Notice : Type 0 where
  on_get : ℤ → Option ℕ → List ℕ → Notice
  on_update on_insert on_remove : ℤ → List ℕ → Notice

-- What is not of this file: protobuf's reflection and the serializer (the type's name, the fields of
-- the primary key, `none` where one is not set, packing), snprintf of a number, what STRNCPY leaves
-- in an empty field, the allocation of a buffer, Redis, and what listeners return.
pub record Env : Type 0 where
  pub type_name : ℕ → List ℕ
  pub key_fields : ℕ → List (Option Value)
  pub pack : ℕ → Option (List ℕ)
  pub unpack : List ℕ → List ℕ → Option ℕ
  pub printed : ℤ → List ℕ
  pub field : ℕ → List ℕ → List ℕ
  pub allocates : Bool
  pub redis_get : List ℕ → List ℕ → Bool
  pub redis_remove : List ℕ → List ℕ → Bool
  pub redis_update : List ℕ → List ℕ → List ℕ → Bool
  pub error_type : ℕ
  pub heard : ℕ → Notice → ℤ

pub record CacheAgent : Type 0 where
  pub listeners : StringMap ℕ
  pub objects : StringMap ℕ

-- DataResultCode
abbrev pub data_time_out : ℤ
data_time_out = minus_one

abbrev pub data_unpack_error : ℤ
data_unpack_error = pos 3

abbrev pub data_internal_err : ℤ
data_internal_err = pos 4

abbrev pub data_redis_err_start : ℕ
data_redis_err_start = 1000

-- CacheCallBackTypeCmd
abbrev pub cmd_get : ℕ
cmd_get = 1

abbrev pub cmd_update : ℕ
cmd_update = 2

abbrev pub cmd_insert : ℕ
cmd_insert = 3

abbrev pub cmd_remove : ℕ
cmd_remove = 4

-- CACHE_TYPE_KV
abbrev pub type_kv : ℕ
type_kv = 0

unfoldable pub add_listener : CacheAgent → List ℕ → ℕ → ℤ × CacheAgent
add_listener a name l = elim (lookup name a.listeners) [
  | some _ ↦ (minus_one, a)
  | none ↦ (pos 0, record a { listeners = insert name l a.listeners })
]

-- A part of a key, in a buffer of 512 bytes.
unfoldable pub key_part : Env → Value → Option (List ℕ)
key_part env (number n) = some (take 511 (env.printed n))
key_part env (text s) = some (take 511 s)
key_part env unsupported = none

-- The loop of GetObjectKey; `&` stands before every part but the first.
unfoldable pub key_from : Env → ℕ → List ℕ → List (Option Value) → Option (List ℕ)
key_from env i key [] = some key
key_from env i key (none ∷ fields) = none
key_from env i key (some v ∷ fields) = elim (key_part env v) [
  | none ↦ none
  | some part ↦ key_from env (suc i) ((if ltb 0 i then key ++ 38 ∷ [] else key) ++ part) fields
]

-- `type:part&part`; `none` is -1, also for a type without a primary key.
unfoldable pub key_of : Env → List ℕ → List (Option Value) → Option (List ℕ)
key_of env name [] = none
key_of env name (f ∷ fields) = key_from env 0 (name ++ 58 ∷ []) (f ∷ fields)

unfoldable pub get_object_key : Env → ℕ → Option (List ℕ)
get_object_key env obj = key_of env (env.type_name obj) (env.key_fields obj)

unfoldable pub find_object : CacheAgent → List ℕ → Option ℕ
find_object a key = if ltb 0 (length key) then none else lookup key a.objects

-- FindObject of an object.
unfoldable pub find_object_of : Env → CacheAgent → ℕ → Option ℕ
find_object_of env a obj = elim (get_object_key env obj) [
  | none ↦ none
  | some key ↦ find_object a key
]

-- `none` is the empty pointer, which the source reads from the entry under the empty key.
unfoldable pub get_object_ptr : Env → CacheAgent → ℕ → Option ℕ
get_object_ptr env a obj = elim (get_object_key env obj) [
  | none ↦ lookup [] a.objects
  | some key ↦ elim (lookup key a.objects) [ some o ↦ some o | none ↦ lookup [] a.objects ]
]

unfoldable pub free_object : CacheAgent → List ℕ → CacheAgent
free_object a key = record a { objects = erase key a.objects }

-- A `uint16_t` in memory, its low byte first.
abbrev pub le16 : ℕ → List ℕ
le16 n = n % 256 ∷ n / 256 % 256 ∷ []

-- sizeof(CacheAgentCallBack::Head) and sizeof(CacheAgentCallBack::Body)
abbrev pub head_size : ℕ
head_size = 21

abbrev pub body_size : ℕ
body_size = 64

abbrev pub mcb_size : List ℕ → ℕ
mcb_size obj_key = if ltb 0 (length obj_key) then head_size + body_size else head_size

-- The callback's bytes; `[]` for no object key. `none` is -1.
unfoldable pub create_call_back : Env → ℕ → ℕ → List ℕ → List ℕ → List ℕ → Option (List ℕ)
create_call_back env type cmd type_key custom obj_key =
    if ltb body_size (length obj_key) || (if env.allocates then false else true)
    then none
    else some (
        le16 (mcb_size obj_key)
        ++ (type % 256
            ∷ (le16 cmd
                ++ (env.field 16 type_key
                    ++ ((if ltb 0 (length obj_key) then env.field body_size obj_key else [])
                        ++ custom)))))

-- What a command of the cache comes to: it is refused, or Redis has taken it.
unfoldable pub sent_if : Bool → List ℕ → ℤ × Option (List ℕ)
sent_if true ccb = (pos 0, some ccb)
sent_if false ccb = (minus_one, none)

-- The number, and the callback that Redis keeps.
unfoldable pub get : Env → ℕ → List ℕ → ℤ × Option (List ℕ)
get env obj cb = elim (get_object_key env obj) [
  | none ↦ (minus_one, none)
  | some key ↦ elim (create_call_back env type_kv cmd_get (env.type_name obj) cb []) [
    | none ↦ (minus_one, none)
    | some ccb ↦ sent_if (env.redis_get key ccb) ccb
  ]
]

unfoldable pub remove : Env → ℕ → List ℕ → ℤ × Option (List ℕ)
remove env obj cb = elim (get_object_key env obj) [
  | none ↦ (minus_one, none)
  | some key ↦ elim (create_call_back env type_kv cmd_remove (env.type_name obj) cb []) [
    | none ↦ (minus_one, none)
    | some ccb ↦ sent_if (env.redis_remove key ccb) ccb
  ]
]

unfoldable pub update : Env → ℕ → List ℕ → ℤ × Option (List ℕ)
update env obj cb = elim (get_object_key env obj) [
  | none ↦ (minus_one, none)
  | some key ↦ elim (if env.allocates then env.pack obj else none) [
    | none ↦ (minus_one, none)
    | some buffer ↦ elim (create_call_back env type_kv cmd_update (env.type_name obj) cb []) [
      | none ↦ (minus_one, none)
      | some ccb ↦ sent_if (env.redis_update key buffer ccb) ccb
    ]
  ]
]
