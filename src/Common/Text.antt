-- ===== src/Common/Text.antt =====
-- strings.TrimSpace, strings.ToLower and strings.EqualFold. Letters outside ASCII are left as they
-- are.
use Prim.Native.Nat.{ℕ, ◌+◌, ◌<◌}
use Prim.Native.Char.{Char, char, code, IsScalar}
use Prim.Native.String.{String}
use mathlib.Core.Bool.{Bool, true, false, ◌&&◌, ◌||◌}
use mathlib.Core.Logic.{dite}
use native.Mathlib.Decide.{dec_le}
use native.Mathlib.Omega.{arith}
use text.Mathlib.Text.{◌==◌}
use unified_ephemeral_runner.Common.Tests.{leb, eqb, if◌then◌else◌}

IsScalar_of_lt : (n : ℕ) → n < 55296 → IsScalar n
IsScalar_of_lt n h = ground arith

lower_char : Char → Char
unfolding IsScalar_of_lt dec_le
lower_char c =
    dite (dec_le 65 (code c))
      (λ _.
        dite (dec_le (code c) 90)
          (λ h. char (code c + 32) (IsScalar_of_lt (code c + 32) (omega arith))) (λ _. c))
      (λ _. c)

unfoldable pub to_lower : String → String
unfolding lower_char
to_lower String.[] = String.[]
to_lower (String.◌∷◌ c s) = String.◌∷◌ (lower_char c) (to_lower s)

is_space : Char → Bool
is_space c =
    (leb 9 (code c) && leb (code c) 13) || eqb (code c) 32 || eqb (code c) 133 || eqb (code c) 160

trim_left : String → String
unfolding is_space
trim_left String.[] = String.[]
trim_left (String.◌∷◌ c s) = let rest = trim_left s in if is_space c then rest else String.◌∷◌ c s

abbrev is_empty : String → Bool
is_empty String.[] = true
is_empty (String.◌∷◌ c s) = false

trim_right : String → String
unfolding is_space
trim_right String.[] = String.[]
trim_right (String.◌∷◌ c s) =
    let rest = trim_right s in if is_space c && is_empty rest then String.[] else String.◌∷◌ c rest

unfoldable pub trim_space : String → String
unfolding trim_left trim_right
trim_space s = trim_right (trim_left s)

unfoldable pub equal_fold : String → String → Bool
unfolding to_lower
equal_fold s t = to_lower s == to_lower t
