-- ===== src/Client/Words.antt =====
-- client/main/main.cpp, str2vec, and the members of std::string that it uses.
pub mod Reference
pub mod Laws
use single_terminal_login_sy.Base.{
  ℕ, zero, suc, ◌+◌, ◌-◌, Bool, true, false, ◌&&◌, Option, none, some, List, [], ◌∷◌, ◌++◌, length,
  ◌==◌,
}
use single_terminal_login_sy.Base.Text.{Text}

unfoldable pub take : ℕ → Text → Text
take zero s = []
take (suc n) [] = []
take (suc n) (c ∷ s) = c ∷ take n s

unfoldable pub drop : ℕ → Text → Text
drop zero s = s
drop (suc n) [] = []
drop (suc n) (c ∷ s) = drop n s

unfoldable pub starts_with : Text → Text → Bool
starts_with s [] = true
starts_with [] (d ∷ seg) = false
starts_with (c ∷ s) (d ∷ seg) = c == d && starts_with s seg

abbrev pub shift : ℕ → Option ℕ → Option ℕ
shift k none = none
shift k (some n) = some (k + n)

-- The offset of the first occurrence.
unfoldable pub offset : Text → Text → Option ℕ
offset [] [] = some 0
offset [] (d ∷ seg) = none
offset (c ∷ s) seg =
    let rest = shift 1 (offset s seg) in
    elim (starts_with (c ∷ s) seg) [ true ↦ some 0 | false ↦ rest ]

-- src.find(seg, pos) for pos up to the size of src; none is npos.
unfoldable pub find : Text → Text → ℕ → Option ℕ
find src seg pos = shift pos (offset (drop pos src) seg)

-- src.substr(pos) and src.substr(pos, n)
abbrev pub substr_from : Text → ℕ → Text
substr_from src pos = drop pos src

abbrev pub substr : Text → ℕ → ℕ → Text
substr src pos n = take n (drop pos src)

-- A round of the loop after its search; `again` goes on from a position with the words so far.
abbrev pub round :
    Text
    → Text
    → ℕ
    → List Text
    → (ℕ → List Text → Option (List Text))
    → Option ℕ
    → Option (List Text)
round src seg pos_start vec again none = some (vec ++ substr_from src pos_start ∷ [])
round src seg pos_start vec again (some pos_end) =
    again (pos_end + length seg) (vec ++ substr src pos_start (pos_end - pos_start) ∷ [])

-- The do-while loop; none when the rounds run out.
unfoldable pub str2vec_loop : ℕ → Text → Text → ℕ → List Text → Option (List Text)
str2vec_loop zero src seg pos_start vec = none
str2vec_loop (suc fuel) src seg pos_start vec =
    round src seg pos_start vec (str2vec_loop fuel src seg) (find src seg pos_start)

-- Each round moves on by a separator, so that there are at most as many as there are bytes, and one.
unfoldable pub str2vec : Text → Text → Option (List Text)
str2vec [] seg = some []
str2vec (c ∷ s) seg = str2vec_loop (suc (length (c ∷ s))) (c ∷ s) seg 0 []
