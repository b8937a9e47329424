-- ===== src/Zone/RoleId.antt =====
-- The role ids of rgtd/zone/ZoneAgentMgr.cpp: the area in 16 bits above the user id in 32.
use playground.Prelude.{ℕ, ◌+◌, ◌*◌, ◌/◌, ◌<◌, ◌≡◌, arith}
use playground.Prelude.Words.{u16, u32}

-- The halves do not overlap, so `|` is a sum.
unfoldable pub get_role_id : ℕ → ℕ → ℕ
get_role_id uid area = u16 area * 4294967296 + u32 uid

unfoldable pub get_uid_from_role_id : ℕ → ℕ
get_uid_from_role_id rid = u32 rid

unfoldable pub get_area_from_role_id : ℕ → ℕ
get_area_from_role_id rid = u16 (rid / 4294967296)

unfoldable pub get_zone_id_from_area : ℕ → ℕ
get_zone_id_from_area area = u16 area

-- A role id is below 2 ^ 48. The user id read from it is the user id's low 32 bits, and the area
-- read from it is the zone of the area.
pub get_role_id_lem :
    (uid area : ℕ)
    → (get_uid_from_role_id (get_role_id uid area) ≡ u32 uid)
      × (get_area_from_role_id (get_role_id uid area) ≡ get_zone_id_from_area area)
      × (get_role_id uid area < 281474976710656)
unfolding get_role_id get_uid_from_role_id get_area_from_role_id get_zone_id_from_area
get_role_id_lem uid area = (omega arith, omega arith, omega arith)
