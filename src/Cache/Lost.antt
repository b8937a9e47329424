-- ===== src/Cache/Lost.antt =====
-- FindObject of datacenter/CacheAgent.cpp.
use playground.Prelude.{
  ℕ, suc, ◌<◌, ◌≤◌, ◌≡◌, refl, ap, Bool, true, false, List, [], ◌∷◌, ◌++◌, Option, none, some,
  arith, ltb, if◌then◌else◌, inl, inr, Option-cases, length, length-append,
}
use playground.Prelude.StringMap.{insert, lookup-insert_same}
use playground.Cache.{
  Env, CacheAgent, Value, key_part, key_from, key_of, get_object_key, find_object, find_object_of,
  get_object_ptr,
}

length-if : (b : Bool) (key : List ℕ) → length key ≤ length (if b then key ++ 38 ∷ [] else key)
length-if true key = omega (arith, length-append key (38 ∷ []))
length-if false key = omega arith

key_from-positive :
    (env : Env) (i : ℕ) (key : List ℕ) (fields : List (Option Value)) (k : List ℕ)
    → 0 < length key
    → key_from env i key fields ≡ some k
    → 0 < length k
unfolding key_from
key_from-positive env i key [] k h e = let eq : key ≡ k = cc e in omega (arith, h, ap length eq)
key_from-positive env i key (none ∷ fields) k h e = absurd (cc e)
key_from-positive env i key (some v ∷ fields) k h e = elim (Option-cases (key_part env v)) [
  | inl n ↦ absurd (cc (simp (n, key_from) at e))
  | inr (part, has) ↦
      let longer = if ltb 0 i then key ++ 38 ∷ [] else key in
      key_from-positive env (suc i) (longer ++ part) fields k
        (omega (arith, h, length-if (ltb 0 i) key, length-append longer part))
        (simp (has, key_from) at e)
]

key_of-positive :
    (env : Env) (name : List ℕ) (fields : List (Option Value)) (k : List ℕ)
    → key_of env name fields ≡ some k
    → 0 < length k
unfolding key_of
key_of-positive env name [] k e = absurd (cc e)
key_of-positive env name (f ∷ fields) k e =
    key_from-positive env 0 (name ++ 58 ∷ []) (f ∷ fields) k
      (omega (arith, length-append name (58 ∷ []))) e

get_object_key-positive :
    (env : Env) (obj : ℕ) (k : List ℕ) → get_object_key env obj ≡ some k → 0 < length k
unfolding get_object_key
get_object_key-positive env obj k e =
    key_of-positive env (env.type_name obj) (env.key_fields obj) k e

-- After an object is stored under its key, GetObjectPtr finds it and neither FindObject does.
pub find_object-lost :
    (env : Env) (a : CacheAgent) (obj stored : ℕ) (key : List ℕ)
    → get_object_key env obj ≡ some key
    → let a' = record a { objects = insert key stored a.objects } in
      (get_object_ptr env a' obj ≡ some stored)
      × (find_object_of env a' obj ≡ none)
      × (find_object a' key ≡ none)
unfolding get_object_ptr find_object_of find_object
find_object-lost env a obj stored key own =
    let some_key : ltb 0 (length key) ≡ true =
      ground (arith, get_object_key-positive env obj key own) in
    (
      simp (own, get_object_ptr, lookup-insert_same key stored a.objects) refl,
      simp (own, find_object_of, some_key) refl,
      simp some_key refl,
    )
