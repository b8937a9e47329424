-- ===== src/Tests/KnapsackTests.antt =====
-- The theorems of the pack, applied to a small pack.
use playground.Prelude.{none, ℕ, ◌≤◌, ◌<◌, ◌≡◌, refl, ◌⊎◌, [], ◌∷◌, some, length, arith}
use playground.Prelude.Words.{pos}
use playground.Events.{event_player_item_add}
use playground.Knapsack.{
  Item, Grid, Package, Outcome, put_item, remove_item, get_item_capacity, get_item_num, refused,
  get_free_grid_pos, is_grid_fill, put_fitting, fill_grids, fill_grid, add_grids, add_grid,
  create_item, free_in, free_from, is_taken, occupied, take_grids, take_grid, remove_all,
  remove_grid, swap_out, find_pack_grid_idx, index_of, sum_num,
}
use playground.Knapsack.Held.{held}
use playground.Knapsack.Tidy.{IsTidy}
use playground.Knapsack.Put.{Stored, put_item_lem, put_item_huge}
use playground.Knapsack.Remove.{Withdrawn, remove_item_lem}
use playground.Tests.Fields.{list_field, swap_list, drop_last}

abbrev pub sword : Item
sword = record { id = 7; level = 1; gid = 0 }

-- A pack of ten grids with two swords in it, at the positions 1 and 3.
abbrev pub two_swords : Package
two_swords = record {
  max_grid = 10;
  grids =
      record { item = sword; num = 1; place = 1 }
      ∷ record { item = sword; num = 1; place = 3 }
      ∷ [];
  next_gid = 2;
}

two_swords-IsTidy : IsTidy two_swords
two_swords-IsTidy = record {
  tiled = (omega arith, (omega arith, tt));
  settled = (λ _. omega arith, (λ _. omega arith, tt));
  apart = λ at lt. ground arith;
  fits = omega arith;
  small = omega arith;
}

abbrev blank_pack : Package
blank_pack = record { max_grid = 0; grids = []; next_gid = 0 }

put_item_lem_example :
    (c : ℕ) × (get_item_capacity two_swords 7 ≡ some (pos c))
    × (((c < 3) × (put_item two_swords sword 3 ≡ some (refused two_swords)))
        ⊎ ((3 ≤ c)
            × (o : Outcome) × (put_item two_swords sword 3 ≡ some o)
            × (o.ret ≡ pos 0)
            × Stored sword 3 two_swords o.pack))
put_item_lem_example = put_item_lem two_swords sword 3 two_swords-IsTidy (omega arith)

remove_item_lem_example :
    let o = remove_item (list_field Grid) two_swords 7 1 in
    (c : ℕ) × (get_item_num two_swords 7 ≡ pos c)
    × (((c < 1) × (o ≡ refused two_swords))
        ⊎ ((1 ≤ c) × (o.ret ≡ pos 0) × Withdrawn (list_field Grid) 7 1 two_swords o.pack))
remove_item_lem_example =
    remove_item_lem (list_field Grid) two_swords 7 1 two_swords-IsTidy (omega arith)

abbrev pub put_two : Outcome
put_two = record {
  pack = record {
    max_grid = 10;
    grids =
        record { item = sword; num = 1; place = 1 }
        ∷ record { item = sword; num = 1; place = 3 }
        ∷ record { item = record { id = 7; level = 1; gid = 2 }; num = 1; place = 2 }
        ∷ record { item = record { id = 7; level = 1; gid = 3 }; num = 1; place = 4 }
        ∷ [];
    next_gid = 4;
  };
  ret = pos 0;
  fired = record { code = event_player_item_add; receiver = none; param = 30064771072 } ∷ [];
}

pub put_two-result : put_item two_swords sword 2 ≡ some put_two
unfolding put_item put_fitting fill_grids fill_grid add_grids add_grid create_item get_item_capacity
    free_in get_free_grid_pos free_from is_taken is_grid_fill occupied
put_two-result = refl

one_taken : (remove_item (list_field Grid) two_swords 7 1).ret ≡ pos 0
unfolding remove_item take_grids take_grid remove_all remove_grid swap_out find_pack_grid_idx
    index_of get_item_num sum_num swap_list drop_last
one_taken = refl

put_item_huge_example :
    (o : Outcome) × (put_item blank_pack sword 2147483648 ≡ some o)
    × (o.ret ≡ pos 0)
    × (length o.pack.grids ≡ 1)
    × (held 7 o.pack.grids ≡ 2147483648)
put_item_huge_example =
    put_item_huge blank_pack sword 2147483648 refl (omega arith) (omega arith) (omega arith)
