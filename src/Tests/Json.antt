-- ===== src/Tests/Json.antt =====
-- A JSON library to run the services on: trees with members in order, printed as text; a parser
-- that knows the trees of a list by their text.
use single_terminal_login_sy.Base.{
  ◌≡◌, refl, Bool, true, false, Option, none, some, List, [], ◌∷◌, ◌++◌, map, if◌then◌else◌, arith,
}
use single_terminal_login_sy.Base.Text.{Text, codes, text_eq, text_eq_refl}
use single_terminal_login_sy.Base.Int.{ℤ, pos}
use single_terminal_login_sy.Base.Decimal.{show_ℤ}
use single_terminal_login_sy.Cjson.{Cjson}
use single_terminal_login_sy.Cjson.Laws.{CjsonLaws, lower}

pub data Kind : Type 0 where
  object number words : Kind

-- A node has the fields of the C struct, used or not.
mutual
  pub data Tree : Type 0 where
    node : Kind → ℤ → Text → Fields → Tree

  pub data Fields : Type 0 where
    no_fields : Fields
    field : Text → Tree → Fields → Fields

abbrev pub num : ℤ → Tree
num z = node number z [] no_fields

abbrev pub str : Text → Tree
str s = node words (pos 0) s no_fields

abbrev pub obj : Fields → Tree
obj fs = node object (pos 0) [] fs

abbrev pub quoted : Text → Text
quoted s = 34 ∷ (s ++ codes "\"")

unfoldable mutual
  pub print_tree : Tree → Text
  print_tree (node object z s fs) = codes "{" ++ print_fields fs
  print_tree (node number z s fs) = show_ℤ z
  print_tree (node words z s fs) = quoted s

  pub print_fields : Fields → Text
  print_fields no_fields = codes "}"
  print_fields (field k t fs) =
      quoted k ++ codes ":" ++ print_tree t ++ codes "," ++ print_fields fs

unfoldable pub find_field : Fields → Text → Option Tree
find_field no_fields k = none
find_field (field l t fs) k =
    let rest = find_field fs k in if text_eq (map lower l) (map lower k) then some t else rest

unfoldable pub append_field : Fields → Text → Tree → Fields
append_field no_fields k t = field k t no_fields
append_field (field l u fs) k t = field l u (append_field fs k t)

unfoldable pub find_text : List Tree → Text → Option Tree
find_text [] s = none
find_text (t ∷ ts) s =
    let rest = find_text ts s in if text_eq (print_tree t) s then some t else rest

abbrev pub get : Tree → Text → Option Tree
get (node k z s fs) l = find_field fs l

abbrev pub add : Tree → Text → Tree → Tree
add (node k z s fs) l t = node k z s (append_field fs l t)

-- The members after the first one with the name.
unfoldable pub rest_after : Fields → Text → Fields
rest_after no_fields k = no_fields
rest_after (field l t fs) k =
    let rest = rest_after fs k in if text_eq (map lower l) (map lower k) then fs else rest

unfoldable pub append_fields : Fields → Fields → Fields
append_fields no_fields gs = gs
append_fields (field l t fs) gs = field l t (append_fields fs gs)

abbrev pub add_linked : Tree → Text → Tree → Tree → Tree
add_linked (node k z s fs) l (node k' z' s' gs) t =
    node k z s (append_fields fs (field l t (rest_after gs l)))

abbrev pub of_kind : Kind → Tree → Bool
of_kind object (node object z s fs) = true
of_kind object (node number z s fs) = false
of_kind object (node words z s fs) = false
of_kind number (node object z s fs) = false
of_kind number (node number z s fs) = true
of_kind number (node words z s fs) = false
of_kind words (node object z s fs) = false
of_kind words (node number z s fs) = false
of_kind words (node words z s fs) = true

abbrev pub int_of : Tree → ℤ
int_of (node k z s fs) = z

abbrev pub text_of : Tree → Text
text_of (node k z s fs) = s

abbrev pub json : List Tree → Cjson
json known = record {
  Item = Tree;
  parse = find_text known;
  print_unformatted = print_tree;
  get_object_item = get;
  is_number = of_kind number;
  is_string = of_kind words;
  is_object = of_kind object;
  valueint = int_of;
  valuestring = text_of;
  create_object = obj no_fields;
  create_number = num;
  create_string = str;
  add_number_to_object = λ i k z. add i k (num z);
  add_item_to_object = add;
  add_string_to_object = λ i k v. add i k (str v);
  add_linked_item_to_object = add_linked;
}

find-append :
    (fs : Fields) (k : Text) (t : Tree)
    → find_field fs k ≡ none
    → find_field (append_field fs k t) k ≡ some t
unfolding find_field append_field
find-append no_fields k t h = rw (text_eq_refl (map lower k)) refl
find-append (field l u fs) k t h = ground (arith, find-append fs k t)

find-append_first :
    (fs : Fields) (k l : Text) (t x : Tree)
    → find_field fs l ≡ some x
    → find_field (append_field fs k t) l ≡ some x
unfolding find_field append_field
find-append_first no_fields k l t x h = cc
find-append_first (field n u fs) k l t x h = ground (arith, find-append_first fs k l t x)

find-append_fields :
    (fs gs : Fields) (k : Text) (t : Tree)
    → find_field fs k ≡ none
    → find_field (append_fields fs (field k t gs)) k ≡ some t
unfolding find_field append_fields
find-append_fields no_fields gs k t h = rw (text_eq_refl (map lower k)) refl
find-append_fields (field l u fs) gs k t h = ground (arith, find-append_fields fs gs k t)

find-append_fields_first :
    (fs gs : Fields) (l : Text) (x : Tree)
    → find_field fs l ≡ some x
    → find_field (append_fields fs gs) l ≡ some x
unfolding find_field append_fields
find-append_fields_first no_fields gs l x h = cc
find-append_fields_first (field n u fs) gs l x h =
    ground (arith, find-append_fields_first fs gs l x)

find-append_none :
    (fs : Fields) (k l : Text) (t : Tree)
    → text_eq (map lower k) (map lower l) ≡ false
    → find_field fs l ≡ none
    → find_field (append_field fs k t) l ≡ none
unfolding find_field append_field
find-append_none no_fields k l t ne h = rw ne refl
find-append_none (field n u fs) k l t ne h = ground (arith, find-append_none fs k l t)

pub json_laws : (known : List Tree) → CjsonLaws (json known)
unfolding find_field
json_laws known = record {
  get-create = λ k. refl;
  create-IsObject = refl;
  create_number-IsNumber = λ z. refl;
  valueint-create_number = λ z small. refl;
  create_string-IsString = λ v. refl;
  valuestring-create_string = λ v. refl;
  add_item-IsObject = kept;
  get-add_item_none = other;
  add_number-IsObject = λ i k z h. kept i k (num z) h;
  get-add_number = λ i k z small h. (num z, added i k (num z) h, refl, refl);
  get-add_number_first = λ i k l z x h. first i k l (num z) x h;
  get-add_item = added;
  get-add_item_first = first;
  get-add_string = λ i k v h. (str v, added i k (str v) h, refl, refl);
  get-add_linked = linked;
  get-add_linked_first = linked_first;
  get-add_number_none = λ i k l z ne h. other i k l (num z) ne h;
  get-add_string_none = λ i k l v ne h. other i k l (str v) ne h;
}
  where
    kept :
        (i : Tree) (k : Text) (x : Tree)
        → of_kind object i ≡ true
        → of_kind object (add i k x) ≡ true
    kept (node object n s fs) k x h = refl
    kept (node number n s fs) k x h = cc
    kept (node words n s fs) k x h = cc

    added : (i : Tree) (k : Text) (t : Tree) → get i k ≡ none → get (add i k t) k ≡ some t
    added (node kind n s fs) k t h = find-append fs k t h

    linked :
        (i : Tree) (k : Text) (o x : Tree) → get i k ≡ none → get (add_linked i k o x) k ≡ some x
    linked (node kind n s fs) k (node kind' n' s' gs) x h =
        find-append_fields fs (rest_after gs k) k x h

    linked_first :
        (i : Tree) (k l : Text) (o x y : Tree)
        → get i l ≡ some y
        → get (add_linked i k o x) l ≡ some y
    linked_first (node kind n s fs) k l (node kind' n' s' gs) x y h =
        find-append_fields_first fs (field k x (rest_after gs k)) l y h

    other :
        (i : Tree) (k l : Text) (t : Tree)
        → text_eq (map lower k) (map lower l) ≡ false
        → get i l ≡ none
        → get (add i k t) l ≡ none
    other (node kind n s fs) k l t ne h = find-append_none fs k l t ne h

    first : (i : Tree) (k l : Text) (t x : Tree) → get i l ≡ some x → get (add i k t) l ≡ some x
    first (node kind n s fs) k l t x h = find-append_first fs k l t x h

-- The first tree of the list is read back from its text.
pub find-print : (t : Tree) (ts : List Tree) → find_text (t ∷ ts) (print_tree t) ≡ some t
unfolding find_text
find-print t ts = rw (text_eq_refl (print_tree t)) refl
