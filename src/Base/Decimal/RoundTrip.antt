-- ===== src/Base/Decimal/RoundTrip.antt =====
-- Reading back a printed integer.
use Prim.Native.Nat.{ℕ, zero, suc, ◌+◌, ◌-◌, ◌*◌, ◌/◌, ◌%◌, ◌^◌, ◌<◌}
use mathlib.Core.Path.{◌≡◌, refl, ◌∙◌}
use mathlib.Core.Bool.{true, false}
use mathlib.Core.Logic.{inl, inr}
use mathlib.Core.List.{[], ◌∷◌}
use native.Mathlib.Omega.{arith}
use single_terminal_login_sy.Base.Tests.{◌==◌, Bool-cases}
use single_terminal_login_sy.Base.Text.{Text}
use single_terminal_login_sy.Base.Int.{ℤ, pos, negsuc, IsInt, to_int, to_ull, to_int-to_ull}
use single_terminal_login_sy.Base.Decimal.{
  show_from, show_ℕ, show_ℤ, read_digits, digit_value, magnitude, signed, clip, skip_space,
  is_space, strtoul,
}

digit_value_lem : (d : ℕ) → d < 10 → digit_value (b'0' + d) ≡ d
unfolding digit_value
digit_value_lem d h = ground arith

read_digit :
    (acc d : ℕ) (s : Text)
    → d < 10
    → read_digits 10 acc ((b'0' + d) ∷ s) ≡ read_digits 10 (acc * 10 + d) s
unfolding read_digits
read_digit acc d s h = rw (digit_value_lem d h) (ground arith)

pub read-show_from :
    (f n : ℕ) (rest : Text) → n < f → read_digits 10 0 (show_from f n rest) ≡ read_digits 10 n rest
unfolding show_from
read-show_from zero n rest h = absurd (omega arith)
read-show_from (suc f) n rest h = elim (Bool-cases (n / 10 == 0)) [
  | inl small ↦ rw small (read_digit 0 (n % 10) rest (omega arith) ∙ (rw (same n small)))
  | inr big ↦ rw big (
      read-show_from f (n / 10) ((b'0' + n % 10) ∷ rest) (ground arith)
      ∙ read_digit (n / 10) (n % 10) rest (omega arith)
      ∙ (rw (split n)))
]
  where
    same : (n : ℕ) → (n / 10 == 0) ≡ true → 0 * 10 + n % 10 ≡ n
    same n e = ground arith

    split : (n : ℕ) → n / 10 * 10 + n % 10 ≡ n
    split n = omega arith

-- A number that is not zero prints with a first digit other than `0`.
show_from-leads :
    (f n : ℕ) (rest : Text)
    → n < f
    → 0 < n
    → (d : ℕ) × (s : Text) × (show_from f n rest ≡ (b'0' + d) ∷ s) × (0 < d) × (d < 10)
unfolding show_from
show_from-leads zero n rest h p = absurd (omega arith)
show_from-leads (suc f) n rest h p = elim (Bool-cases (n / 10 == 0)) [
  | inl small ↦ (n % 10, rest, rw small, ground arith, omega arith)
  | inr big ↦
      rw big (show_from-leads f (n / 10) ((b'0' + n % 10) ∷ rest) (ground arith) (ground arith))
]

module _ (d : ℕ) (s : Text) (low : 0 < d) (high : d < 10) where
  skip_space-digit : skip_space ((b'0' + d) ∷ s) ≡ (b'0' + d) ∷ s
  unfolding skip_space is_space
  skip_space-digit = ground arith

  magnitude-digit : magnitude ((b'0' + d) ∷ s) ≡ read_digits 10 0 ((b'0' + d) ∷ s)
  unfolding magnitude
  magnitude-digit = ground arith

  signed-digit : signed ((b'0' + d) ∷ s) ≡ clip false (magnitude ((b'0' + d) ∷ s))
  unfolding signed
  signed-digit = ground arith

clip_small : (n : ℕ) → n < 2 ^ 64 → clip false n ≡ n
unfolding clip
clip_small n h = ground arith

clip_negative : (n : ℕ) → n < 2 ^ 31 → clip true (suc n) ≡ 2 ^ 64 - 1 - n
unfolding clip
clip_negative n h = ground arith

-- The first byte of a text is a digit other than `0`.
abbrev pub Leads : Text → Type 0
Leads t = (d : ℕ) × (s : Text) × (t ≡ (b'0' + d) ∷ s) × (0 < d) × (d < 10)

pub show_ℕ-Leads : (n : ℕ) → 0 < n → Leads (show_ℕ n)
unfolding show_ℕ
show_ℕ-Leads n p = show_from-leads (suc n) n [] (omega arith) p

pub read-show_ℕ : (n : ℕ) → read_digits 10 0 (show_ℕ n) ≡ n
unfolding show_ℕ read_digits
read-show_ℕ n = read-show_from (suc n) n [] (omega arith)

show_ℕ-zero : show_ℕ 0 ≡ b'0' ∷ []
unfolding show_ℕ
show_ℕ-zero = refl

strtoul_of_Leads : (t : Text) → Leads t → strtoul t ≡ clip false (read_digits 10 0 t)
unfolding strtoul
strtoul_of_Leads t (d, s, e, low, high) =
    rw (e, skip_space-digit d s low high, signed-digit d s low high, magnitude-digit d s low high)

magnitude_of_Leads : (t : Text) → Leads t → magnitude t ≡ read_digits 10 0 t
magnitude_of_Leads t (d, s, e, low, high) = rw (e, magnitude-digit d s low high)

-- Reading with `strtoul` what `operator<<` printed gives the number back.
pub strtoul-show_ℕ : (n : ℕ) → n < 2 ^ 64 → strtoul (show_ℕ n) ≡ n
strtoul-show_ℕ zero h = rw show_ℕ-zero (unfold strtoul in refl)
strtoul-show_ℕ (suc n) h =
    strtoul_of_Leads (show_ℕ (suc n)) (show_ℕ-Leads (suc n) (omega arith))
    ∙ (rw (read-show_ℕ (suc n)) (clip_small (suc n) h))

minus_strtoul : (t : Text) → strtoul (b'-' ∷ t) ≡ clip true (magnitude t)
unfolding strtoul
minus_strtoul t = refl

-- An `int` comes back from its printed form, read as an unsigned number and cast.
pub to_int-strtoul-show_ℤ : (z : ℤ) → IsInt z → to_int (strtoul (show_ℤ z)) ≡ z
unfolding show_ℤ
to_int-strtoul-show_ℤ (pos n) h =
    rw (strtoul-show_ℕ n (omega arith)) (unfold to_ull in to_int-to_ull (pos n) h)
to_int-strtoul-show_ℤ (negsuc n) h =
    rw
      (
        minus_strtoul (show_ℕ (suc n)),
        magnitude_of_Leads _ (show_ℕ-Leads (suc n) (omega arith)),
        read-show_ℕ (suc n),
        clip_negative n h,
      )
      (unfold to_ull in to_int-to_ull (negsuc n) h)
