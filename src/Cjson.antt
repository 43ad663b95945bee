-- ===== src/Cjson.antt =====
-- The library cJSON, as far as the services call it: a parameter. Additions to an object are read
-- as functions that give the changed object.
pub mod Laws
use single_terminal_login_sy.Base.{Option, Bool}
use single_terminal_login_sy.Base.Text.{Text}
use single_terminal_login_sy.Base.Int.{ℤ}

pub record Cjson : Type 1 where
  pub Item : Type 0
  -- cJSON_Parse, none for NULL
  pub parse : Text → Option Item
  pub print_unformatted : Item → Text
  -- cJSON_GetObjectItem
  pub get_object_item : Item → Text → Option Item
  -- `type == cJSON_Number` and its two kin
  pub is_number : Item → Bool
  pub is_string : Item → Bool
  pub is_object : Item → Bool
  pub valueint : Item → ℤ
  pub valuestring : Item → Text
  pub create_object : Item
  pub create_number : ℤ → Item
  pub create_string : Text → Item
  -- cJSON_AddNumberToObject, cJSON_AddItemToObject
  pub add_number_to_object : Item → Text → ℤ → Item
  pub add_item_to_object : Item → Text → Item → Item
  pub add_string_to_object : Item → Text → Text → Item
  -- cJSON_AddItemToObject of an item that still hangs in another object: the object, the name, the
  -- other object and the item. What follows the item in the other object follows it in this one.
  pub add_linked_item_to_object : Item → Text → Item → Item → Item
