-- ===== src/Knapsack.antt =====
-- rgtd/zone/logic/PlayerKnapsackLogic.cpp: a player's pack of item grids. The pack is the message
-- `db::RolePackage`; `none` is a failed `assert`, and the events that an operation fires come back
-- beside the pack. An `int` sum is an integer without overflow, a `uint32_t` wraps.
pub mod Held
pub mod Tidy
pub mod Fill
pub mod Place
pub mod Put
pub mod SwapOut
pub mod Take
pub mod Noted
pub mod Remove
use playground.Prelude.{
  ℕ, zero, suc, ◌+◌, ◌-◌, ◌*◌, Bool, true, false, ◌&&◌, List, [], ◌∷◌, ◌++◌, Option, none, some,
  ltb, leb, ◌==◌, if◌then◌else◌, length,
}
use playground.Prelude.Words.{
  ℤ, pos, ◌+ℤ◌, ◌-ℤ◌, ltb_ℤ, minus_one, u32, to_int, to_u32, to_u64, sub_u32,
}
use playground.Repeated.{RepeatedField}
use playground.Events.{
  Fired, event_player_item_add, event_player_item_dec, event_player_remove_grid_item,
  event_player_change_pack_max_grid,
}

pub record Item : Type 0 where
  pub id : ℕ
  pub level : ℕ
  pub gid : ℕ

pub record Grid : Type 0 where
  pub item : Item
  pub num : ℕ
  pub place : ℕ

pub record Package : Type 0 where
  pub max_grid : ℕ
  pub grids : List Grid
  pub next_gid : ℕ

-- What an operation leaves: the pack, the returned `int`, and the events it fired, in order.
pub record Outcome : Type 0 where
  pub pack : Package
  pub ret : ℤ
  pub fired : List Fired

-- `iMaxTiled`, a constant until the configuration is read ("todo read from cfg").
abbrev pub max_tiled : ℕ
max_tiled = 1

abbrev pub refused : Package → Outcome
refused p = record { pack = p; ret = minus_one; fired = [] }

pub on_init_birth_player : Package → Package
on_init_birth_player p = record p { max_grid = 10 }

unfoldable pub create_item : Item → Package → Item × Package
create_item item p =
    (record item { gid = p.next_gid }, record p { next_gid = u32 (p.next_gid + 1) })

unfoldable pub occupied : ℕ → List Grid → Bool
occupied at [] = false
occupied at (g ∷ gs) = if g.place == at && ltb 0 g.num then true else occupied at gs

unfoldable pub is_grid_fill : Package → ℕ → Bool
is_grid_fill p at = if leb p.max_grid at then true else occupied at p.grids

-- The condition of the `while` of GetFreeGridPos.
unfoldable pub is_taken : Package → ℕ → Bool
is_taken p at = ltb_ℤ (pos at) (to_int p.max_grid) && is_grid_fill p at

-- That loop, with the rounds left. `max_grid` rounds reach the end of the pack.
unfoldable pub free_from : ℕ → ℕ → Package → ℕ
free_from zero at p = at
free_from (suc rounds) at p =
    let next = free_from rounds (suc at) p in if is_taken p at then next else at

unfoldable pub get_free_grid_pos : Package → ℤ
get_free_grid_pos p =
    let at = free_from p.max_grid 1 p in
    if ltb_ℤ (pos at) (to_int p.max_grid) then pos at else minus_one

-- One round of the first loop of PutItem: the grid, and the number still to put.
unfoldable pub fill_grid : ℕ → ℕ → Grid → Grid × ℕ
fill_grid id num g =
    let fill = to_int g.num in
    let free = pos max_tiled -ℤ fill in
    if id == g.item.id && ltb_ℤ (pos 0) free
    then if ltb_ℤ free (to_int num)
      then (record g { num = max_tiled }, sub_u32 num (to_u32 free))
      else (record g { num = u32 (to_u32 fill + num) }, 0)
    else (g, num)

unfoldable pub fill_grids : ℕ → ℕ → List Grid → List Grid × ℕ
fill_grids id num [] = ([], num)
fill_grids id num (g ∷ gs) =
    let (g', left) = fill_grid id num g in
    let (gs', rest) = fill_grids id left gs in (g' ∷ gs', rest)

-- The new grid stands in the pack, with number and position 0, while its position is looked for.
unfoldable pub add_grid : Item → ℕ → Package → Package
add_grid item num p =
    let (made, q) = create_item item p in
    let new : Grid = record { item = made; num = 0; place = 0 } in
    let at = to_u32 (get_free_grid_pos (record q { grids = q.grids ++ new ∷ [] })) in
    record q { grids = q.grids ++ record { item = made; num = num; place = at } ∷ [] }

-- The second loop of PutItem: the pack, and `num` as the loop leaves it. `num -= iMaxTiled` takes
-- `suc n` to `n`.
unfoldable pub add_grids : Item → ℕ → Package → Package × ℕ
add_grids item zero p = (p, 0)
add_grids item (suc n) p =
    let more = add_grids item n (add_grid item max_tiled p) in
    if ltb_ℤ (to_int (suc n)) (pos max_tiled) then (add_grid item (suc n) p, 0) else more

unfoldable pub free_in : ℕ → List Grid → ℤ
free_in id [] = pos 0
free_in id (g ∷ gs) =
    let free = pos max_tiled -ℤ to_int g.num in
    let rest = free_in id gs in if id == g.item.id && ltb_ℤ (pos 0) free then free +ℤ rest else rest

unfoldable pub get_item_capacity : Package → ℕ → Option ℤ
get_item_capacity p id =
    let empty = to_int (sub_u32 p.max_grid (length p.grids)) in
    if ltb_ℤ empty (pos 0) then none else some (free_in id p.grids +ℤ empty)

-- What PutItem does once the capacity is checked. The event's parameter is the item's id in the
-- high half and `num` in the low half, as the loops have left it.
unfoldable pub put_fitting : Package → Item → ℕ → Outcome
put_fitting p item num =
    let (grids, left) = fill_grids item.id num p.grids in
    let (q, rest) = add_grids item left (record p { grids = grids }) in
    record {
      pack = q;
      ret = pos 0;
      fired =
          record {
            code = event_player_item_add;
            receiver = none;
            param = item.id * 4294967296 + rest;
          }
          ∷ [];
    }

unfoldable pub put_item : Package → Item → ℕ → Option Outcome
put_item p item num = elim (get_item_capacity p item.id) [
  | none ↦ none
  | some cap ↦ some (if ltb_ℤ cap (to_int num) then refused p else put_fitting p item num)
]

unfoldable pub sum_num : ℕ → List Grid → ℕ
sum_num id [] = 0
sum_num id (g ∷ gs) =
    let rest = sum_num id gs in if id == g.item.id && ltb 0 g.num then u32 (g.num + rest) else rest

unfoldable pub get_item_num : Package → ℕ → ℤ
get_item_num p id = to_int (sum_num id p.grids)

unfoldable pub index_of : ℕ → List Grid → Option ℕ
index_of at [] = none
index_of at (g ∷ gs) =
    if g.place == at then some 0 else elim (index_of at gs) [ none ↦ none | some i ↦ some (suc i) ]

-- `none` is the index -1.
unfoldable pub find_pack_grid_idx : Package → ℕ → Option ℕ
find_pack_grid_idx p at = if leb p.max_grid at then none else index_of at p.grids

-- FindPackGrid: a pointer to a grid is its index, and `none` is NULL.
pub find_pack_grid : Package → ℕ → Option ℕ
find_pack_grid p at = find_pack_grid_idx p at

-- One round of the loop of RemoveItem: the grid, the number left, and the position if it is empty.
unfoldable pub take_grid : ℕ → ℕ → Grid → Grid × ℕ × List ℕ
take_grid id num g =
    let have = to_int g.num in
    let kept = sub_u32 (to_u32 have) num in
    if id == g.item.id && ltb_ℤ (pos 0) have
    then if ltb_ℤ have (to_int num)
      then (record g { num = 0 }, sub_u32 num (to_u32 have), g.place ∷ [])
      else (record g { num = kept }, 0, if kept == 0 then g.place ∷ [] else [])
    else (g, num, [])

unfoldable pub take_grids : ℕ → ℕ → List Grid → List Grid × ℕ × List ℕ
take_grids id num [] = ([], num, [])
take_grids id num (g ∷ gs) =
    let (g', left, gone) = take_grid id num g in
    let (gs', rest, more) = take_grids id left gs in
    if num == 0 then (g ∷ gs, num, []) else (g' ∷ gs', rest, gone ++ more)

module _ (field : RepeatedField Grid) where
  unfoldable pub swap_out : List Grid → ℕ → List Grid
  swap_out gs i = field.remove_last (field.swap_elements gs i (length gs - 1))

  unfoldable pub remove_grid : Package → ℕ → Outcome
  remove_grid p at = elim (find_pack_grid_idx p at) [
    | none ↦ refused p
    | some i ↦ record {
      pack = record p { grids = swap_out p.grids i };
      ret = pos 0;
      fired = record { code = event_player_remove_grid_item; receiver = none; param = at } ∷ [];
    }
  ]

  -- The loop over `rmposvec`; what RemoveGrid returns is dropped.
  unfoldable pub remove_all : Package → List ℕ → Package × List Fired
  remove_all p [] = (p, [])
  remove_all p (at ∷ ats) =
      let o = remove_grid p at in let (q, fired) = remove_all o.pack ats in (q, o.fired ++ fired)

  unfoldable pub remove_item : Package → ℕ → ℕ → Outcome
  remove_item p id num =
      let (grids, left, gone) = take_grids id num p.grids in
      let (q, fired) = remove_all (record p { grids = grids }) gone in
      if ltb_ℤ (get_item_num p id) (to_int num) then refused p else record {
        pack = q;
        ret = pos 0;
        fired =
            fired
            ++ record {
              code = event_player_item_dec;
              receiver = none;
              param = id * 4294967296 + left;
            }
              ∷ [];
      }

pub get_max_grid : Package → ℤ
get_max_grid p = to_int p.max_grid

-- The argument is a `uint8_t`: a pack only grows.
pub change_max_grid : Package → ℕ → Outcome
change_max_grid p chg =
    let old = get_max_grid p +ℤ pos chg in
    record {
      pack = record p { max_grid = to_u32 old };
      ret = pos 0;
      fired =
          record { code = event_player_change_pack_max_grid; receiver = none; param = to_u64 old }
          ∷ [];
    }
