-- ===== src/Common/Text.antt =====
-- Texts as code points: lower case, substrings, and numbers in decimal.
use Prim.Native.Nat.{ℕ, zero, suc, ◌+◌, ◌/◌, ◌%◌}
use Prim.Native.Char.{code}
use Prim.Native.String
use Prim.Native.String.{String}
use mathlib.Core.Bool.{Bool, true, false, ◌&&◌, ◌||◌}
use mathlib.Core.List.{List, [], ◌∷◌, map}
use krossdb.Common.Tests.{ltb, leb, nat_eq, if◌then◌else◌}

abbrev pub codes : String → List ℕ
codes String.[] = []
codes (String.◌∷◌ c s) = code c ∷ codes s

-- `str.lower` on ASCII letters.
unfoldable pub lower : List ℕ → List ℕ
lower = map (λ c. if leb b'A' c && leb c b'Z' then c + 32 else c)

unfoldable pub is_prefix : List ℕ → List ℕ → Bool
is_prefix [] s = true
is_prefix (c ∷ w) [] = false
is_prefix (c ∷ w) (d ∷ s) = nat_eq c d && is_prefix w s

-- `w in s`
unfoldable pub contains : List ℕ → List ℕ → Bool
unfolding is_prefix
contains w [] = is_prefix w []
contains w (d ∷ s) = is_prefix w (d ∷ s) || contains w s

digit : ℕ → String
digit n =
    if ltb n 1
    then "0"
    else if ltb n 2
    then "1"
    else if ltb n 3
    then "2"
    else if ltb n 4
    then "3"
    else if ltb n 5
    then "4"
    else if ltb n 6
    then "5"
    else if ltb n 7
    then "6"
    else if ltb n 8
    then "7"
    else if ltb n 9
    then "8"
    else "9"

decimal_of : ℕ → ℕ → String
unfolding digit
decimal_of zero n = digit n
decimal_of (suc f) n =
    let rest = decimal_of f (n / 10) in
    if ltb n 10 then digit n else String.◌++◌ rest (digit (n % 10))

-- `str(n)`; the fuel `n` is at least the number of digits but one.
unfoldable pub decimal : ℕ → String
unfolding decimal_of
decimal n = decimal_of n n

infixr 65 ◌+++◌
abbrev pub ◌+++◌ : String → String → String
s +++ t = String.◌++◌ s t
