-- ===== src/Base/Decimal.antt =====
-- Printing integers with `operator<<`, and `strtoul(s, NULL, 0)`.
pub mod RoundTrip
use Prim.Native.Nat.{ℕ, zero, suc, ◌+◌, ◌-◌, ◌*◌, ◌/◌, ◌%◌, ◌^◌}
use mathlib.Core.Bool.{Bool, true, false, ◌&&◌, ◌||◌}
use mathlib.Core.List.{List, [], ◌∷◌}
use single_terminal_login_sy.Base.Tests.{ltb, leb, ◌==◌, if◌then◌else◌}
use single_terminal_login_sy.Base.Text.{Text}
use single_terminal_login_sy.Base.Int.{ℤ, pos, negsuc}

-- The digits of `n` before `rest`; `n + 1` rounds are enough, since each divides by ten.
unfoldable pub show_from : ℕ → ℕ → Text → Text
show_from zero n rest = rest
show_from (suc f) n rest =
    let more = show_from f (n / 10) ((b'0' + n % 10) ∷ rest) in
    if n / 10 == 0 then (b'0' + n % 10) ∷ rest else more

unfoldable pub show_ℕ : ℕ → Text
unfolding show_from
show_ℕ n = show_from (suc n) n []

unfoldable pub show_ℤ : ℤ → Text
show_ℤ (pos n) = show_ℕ n
show_ℤ (negsuc n) = b'-' ∷ show_ℕ (suc n)

is_space : ℕ → Bool
is_space c = c == 32 || (leb 9 c && leb c 13)

skip_space : Text → Text
skip_space [] = []
skip_space (c ∷ s) = let rest = skip_space s in if is_space c then rest else c ∷ s

-- 36 stands for what is no digit in any base.
unfoldable pub digit_value : ℕ → ℕ
digit_value c =
    if leb b'0' c && leb c b'9'
    then c - b'0'
    else if leb b'a' c && leb c b'z'
    then c - b'a' + 10
    else if leb b'A' c && leb c b'Z'
    then c - b'A' + 10
    else 36

-- The value of the digits at the front, up to the first byte that is no digit of the base.
unfoldable pub read_digits : ℕ → ℕ → Text → ℕ
read_digits base acc [] = acc
read_digits base acc (c ∷ s) =
    let rest = read_digits base (acc * base + digit_value c) s in
    if ltb (digit_value c) base then rest else acc

starts_hex : Text → Bool
starts_hex [] = false
starts_hex (c ∷ s) = ltb (digit_value c) 16

after_zero : Text → ℕ
after_zero [] = 0
after_zero (x ∷ s) =
    if (x == b'x' || x == b'X') && starts_hex s then read_digits 16 0 s else read_digits 8 0 (x ∷ s)

-- Base 0: `0x` and `0` choose the base.
magnitude : Text → ℕ
magnitude [] = 0
magnitude (c ∷ s) = if c == b'0' then after_zero s else read_digits 10 0 (c ∷ s)

-- Out of range gives ULONG_MAX; a minus sign negates as unsigned numbers do.
clip : Bool → ℕ → ℕ
clip negative m =
    if ltb (2 ^ 64 - 1) m then 2 ^ 64 - 1 else if negative then (2 ^ 64 - m) % 2 ^ 64 else m

signed : Text → ℕ
signed [] = 0
signed (c ∷ s) =
    if c == b'-'
    then clip true (magnitude s)
    else if c == b'+'
    then clip false (magnitude s)
    else clip false (magnitude (c ∷ s))

unfoldable pub strtoul : Text → ℕ
unfolding signed clip magnitude after_zero starts_hex read_digits digit_value skip_space is_space
strtoul s = signed (skip_space s)
