-- ===== src/Tests/Split.antt =====
-- Splitting a text at a separator, for the server of Tests/Server.
use single_terminal_login_sy.Base.{
  ℕ, zero, suc, ◌+◌, ◌/◌, ◌%◌, ◌≤◌, ◌<◌, ◌≡◌, ◌≢◌, refl, ap, ◌∙◌, inl, inr, List, [], ◌∷◌, ◌++◌,
  ◌==◌, if◌then◌else◌, arith, Bool-cases,
}
use single_terminal_login_sy.Base.Text.{Text}
use single_terminal_login_sy.Base.Int.{ℤ, pos, negsuc}
use single_terminal_login_sy.Base.Decimal.{show_ℕ, show_ℤ, show_from, read_digits}
use single_terminal_login_sy.Base.Decimal.RoundTrip.{read-show_from}

abbrev pub Lacks : ℕ → Text → Type 0
Lacks sep [] = Unit
Lacks sep (c ∷ s) = (c ≢ sep) × Lacks sep s

push_first : ℕ → List Text → List Text
push_first c [] = (c ∷ []) ∷ []
push_first c (t ∷ ts) = (c ∷ t) ∷ ts

unfoldable pub split : ℕ → Text → List Text
unfolding push_first
split sep [] = [] ∷ []
split sep (c ∷ s) = let rest = split sep s in if c == sep then [] ∷ rest else push_first c rest

pub split_cut :
    (sep : ℕ) (u rest : Text) → Lacks sep u → split sep (u ++ sep ∷ rest) ≡ u ∷ split sep rest
unfolding split
split_cut sep [] rest h = ground arith
split_cut sep (c ∷ u) rest h = ground (arith, split_cut sep u rest h.1)

pub split_whole : (sep : ℕ) (u : Text) → Lacks sep u → split sep u ≡ u ∷ []
unfolding split
split_whole sep [] h = refl
split_whole sep (c ∷ u) h = ground (arith, split_whole sep u h.1)

abbrev AreDigits : Text → Type 0
AreDigits [] = Unit
AreDigits (c ∷ s) = (b'0' ≤ c) × (c ≤ b'9') × AreDigits s

show_from-AreDigits : (f n : ℕ) (rest : Text) → AreDigits rest → AreDigits (show_from f n rest)
unfolding show_from
show_from-AreDigits zero n rest h = h
show_from-AreDigits (suc f) n rest h = elim (Bool-cases (n / 10 == 0)) [
  | inl small ↦ rw small (omega arith, omega arith, h)
  | inr big ↦
      rw big (show_from-AreDigits f (n / 10) ((b'0' + n % 10) ∷ rest) (omega arith, omega arith, h))
]

Lacks-of_AreDigits : (sep : ℕ) (s : Text) → sep < b'0' → AreDigits s → Lacks sep s
Lacks-of_AreDigits sep [] l h = tt
Lacks-of_AreDigits sep (c ∷ s) l (a, b, h) = (omega arith, Lacks-of_AreDigits sep s l h)

-- A printed number holds no quote, comma, bracket or space.
pub show_ℕ-Lacks : (sep n : ℕ) → sep < b'0' → Lacks sep (show_ℕ n)
unfolding show_ℕ
show_ℕ-Lacks sep n l = Lacks-of_AreDigits sep _ l (show_from-AreDigits (suc n) n [] tt)

show_from-append :
    (f n : ℕ) (rest more : Text) → show_from f n rest ++ more ≡ show_from f n (rest ++ more)
unfolding show_from
show_from-append zero n rest more = refl
show_from-append (suc f) n rest more = elim (Bool-cases (n / 10 == 0)) [
  | inl small ↦ rw small
  | inr big ↦ rw big (show_from-append f (n / 10) ((b'0' + n % 10) ∷ rest) more)
]

-- Reading stops at the byte behind a printed number.
pub read-show_ℕ-append :
    (n : ℕ) (more : Text) → read_digits 10 0 (show_ℕ n ++ more) ≡ read_digits 10 n more
unfolding show_ℕ
read-show_ℕ-append n more =
    ap (read_digits 10 0) (show_from-append (suc n) n [] more)
    ∙ read-show_from (suc n) n more (omega arith)

pub Lacks-append : (sep : ℕ) (s t : Text) → Lacks sep s → Lacks sep t → Lacks sep (s ++ t)
Lacks-append sep [] t h k = k
Lacks-append sep (c ∷ s) t (p, h) k = (p, Lacks-append sep s t h k)

pub show_ℤ-Lacks : (sep : ℕ) (z : ℤ) → sep < b'-' → Lacks sep (show_ℤ z)
unfolding show_ℤ
show_ℤ-Lacks sep (pos n) l = show_ℕ-Lacks sep n (omega arith)
show_ℤ-Lacks sep (negsuc n) l = (omega arith, show_ℕ-Lacks sep (suc n) (omega arith))
