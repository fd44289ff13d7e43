-- ===== src/Json.antt =====
-- The JSON values that the program keeps in payloads, coverages and metadata. Numbers are natural:
-- the core computes with no other number of these columns.
use astrbot_community_plugin.Prelude.{
  ℕ, String, Bool, ◌==◌, string_eq, Option, none, some, if◌then◌else◌,
}

mutual
  pub data Json : Type 0 where
    null : Json
    bool : Bool → Json
    num : ℕ → Json
    text : String → Json
    arr : Items → Json
    obj : Object → Json

  pub data Items : Type 0 where
    nil : Items
    cons : Json → Items → Items

  pub data Object : Type 0 where
    empty : Object
    field : String → Json → Object → Object

-- `d[key] = value`: in place if the key is there, else at the end.
unfoldable pub set_field : String → Json → Object → Object
set_field key value empty = field key value empty
set_field key value (field k v rest) =
    if k == key then field k value rest else field k v (set_field key value rest)

-- `d.get(key)`
unfoldable pub get_field : String → Object → Option Json
get_field key empty = none
get_field key (field k v rest) = if k == key then some v else get_field key rest
