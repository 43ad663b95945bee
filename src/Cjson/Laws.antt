-- ===== src/Cjson/Laws.antt =====
-- What the services rely on of cJSON: members are added at the end, and a lookup gives the first
-- member with the name.
use single_terminal_login_sy.Base.{
  ℕ, ◌≡◌, ◌+◌, ◌&&◌, leb, if◌then◌else◌, map, true, false, none, some,
}
use single_terminal_login_sy.Base.Text.{Text, text_eq}
use single_terminal_login_sy.Base.Int.{ℤ, IsInt}
use single_terminal_login_sy.Cjson.{Cjson}

-- tolower; names are compared without regard to case.
abbrev pub lower : ℕ → ℕ
lower c = if leb 65 c && leb c 90 then c + 32 else c

pub record CjsonLaws (j : Cjson) : Type 0 where
  pub get-create : (k : Text) → j.get_object_item j.create_object k ≡ none
  pub create_number-IsNumber : (z : ℤ) → j.is_number (j.create_number z) ≡ true
  pub valueint-create_number : (z : ℤ) → IsInt z → j.valueint (j.create_number z) ≡ z
  pub create_string-IsString : (v : Text) → j.is_string (j.create_string v) ≡ true
  pub valuestring-create_string : (v : Text) → j.valuestring (j.create_string v) ≡ v
  pub add_item-IsObject :
      (i : j.Item) (k : Text) (x : j.Item)
      → j.is_object i ≡ true
      → j.is_object (j.add_item_to_object i k x) ≡ true
  pub create-IsObject : j.is_object j.create_object ≡ true
  pub add_number-IsObject :
      (i : j.Item) (k : Text) (z : ℤ)
      → j.is_object i ≡ true
      → j.is_object (j.add_number_to_object i k z) ≡ true
  pub get-add_number :
      (i : j.Item) (k : Text) (z : ℤ)
      → IsInt z
      → j.get_object_item i k ≡ none
      → (n : j.Item) × (j.get_object_item (j.add_number_to_object i k z) k ≡ some n)
        × (j.is_number n ≡ true)
        × (j.valueint n ≡ z)
  pub get-add_number_first :
      (i : j.Item) (k l : Text) (z : ℤ) (x : j.Item)
      → j.get_object_item i l ≡ some x
      → j.get_object_item (j.add_number_to_object i k z) l ≡ some x
  pub get-add_item :
      (i : j.Item) (k : Text) (x : j.Item)
      → j.get_object_item i k ≡ none
      → j.get_object_item (j.add_item_to_object i k x) k ≡ some x
  pub get-add_item_first :
      (i : j.Item) (k l : Text) (x y : j.Item)
      → j.get_object_item i l ≡ some y
      → j.get_object_item (j.add_item_to_object i k x) l ≡ some y
  pub get-add_string :
      (i : j.Item) (k v : Text)
      → j.get_object_item i k ≡ none
      → (n : j.Item) × (j.get_object_item (j.add_string_to_object i k v) k ≡ some n)
        × (j.is_string n ≡ true)
        × (j.valuestring n ≡ v)
  pub get-add_linked :
      (i : j.Item) (k : Text) (other x : j.Item)
      → j.get_object_item i k ≡ none
      → j.get_object_item (j.add_linked_item_to_object i k other x) k ≡ some x
  pub get-add_linked_first :
      (i : j.Item) (k l : Text) (other x y : j.Item)
      → j.get_object_item i l ≡ some y
      → j.get_object_item (j.add_linked_item_to_object i k other x) l ≡ some y
  -- Another name is not found where it was not.
  pub get-add_number_none :
      (i : j.Item) (k l : Text) (z : ℤ)
      → text_eq (map lower k) (map lower l) ≡ false
      → j.get_object_item i l ≡ none
      → j.get_object_item (j.add_number_to_object i k z) l ≡ none
  pub get-add_string_none :
      (i : j.Item) (k l v : Text)
      → text_eq (map lower k) (map lower l) ≡ false
      → j.get_object_item i l ≡ none
      → j.get_object_item (j.add_string_to_object i k v) l ≡ none
  pub get-add_item_none :
      (i : j.Item) (k l : Text) (x : j.Item)
      → text_eq (map lower k) (map lower l) ≡ false
      → j.get_object_item i l ≡ none
      → j.get_object_item (j.add_item_to_object i k x) l ≡ none
