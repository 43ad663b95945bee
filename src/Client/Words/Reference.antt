-- ===== src/Client/Words/Reference.antt =====
-- The words of a text, by recursion on its bytes, and how they are put together again.
use single_terminal_login_sy.Base.{ℕ, ◌≢◌, List, [], ◌∷◌, ◌++◌, ◌==◌, if◌then◌else◌}
use single_terminal_login_sy.Base.Text.{Text}

abbrev pub extend : ℕ → List Text → List Text
extend c [] = (c ∷ []) ∷ []
extend c (w ∷ ws) = (c ∷ w) ∷ ws

-- The parts of a text between its separators; a text with n separators has n + 1 of them.
unfoldable pub words : ℕ → Text → List Text
words sep [] = [] ∷ []
words sep (c ∷ s) = let rest = words sep s in if c == sep then [] ∷ rest else extend c rest

unfoldable pub join : ℕ → List Text → Text
join sep [] = []
join sep (w ∷ []) = w
join sep (w ∷ v ∷ ws) = w ++ sep ∷ join sep (v ∷ ws)

-- A text without the separator.
abbrev pub Lacks : ℕ → Text → Type 0
Lacks sep [] = Unit
Lacks sep (c ∷ s) = (c ≢ sep) × Lacks sep s

abbrev pub AllLack : ℕ → List Text → Type 0
AllLack sep [] = Unit
AllLack sep (w ∷ ws) = Lacks sep w × AllLack sep ws
