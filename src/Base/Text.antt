-- ===== src/Base/Text.antt =====
-- What the program uses of Go's package strings.
use Prim.Native.Char.{Char, code}
use Prim.Native.Nat.{ℕ}
use Prim.Native.String.{String}
use mathlib.Core.Bool.{Bool, true, false, ◌&&◌, ◌||◌}
use mathlib.Core.Option.{Option, none, some}
use text.Mathlib.Text.{find?}
use package.telemux.Base.Equality.{if◌then◌else◌, ◌==◌, string_eq, nat_eq, leb}

abbrev found : Option ℕ → Bool
found none = false
found (some _) = true

-- strings.Contains
unfoldable pub contains : String → String → Bool
contains s part = found (find? s part)

-- Without the longest ending of characters that pass the test.
trim_end : (Char → Bool) → String → String
trim_end p String.[] = String.[]
trim_end p (String.◌∷◌ c s) =
    let rest = trim_end p s in if p c && rest == String.[] then String.[] else String.◌∷◌ c rest

trim_start : (Char → Bool) → String → String
trim_start p String.[] = String.[]
trim_start p (String.◌∷◌ c s) = let rest = trim_start p s in if p c then rest else String.◌∷◌ c s

-- unicode.IsSpace
unfoldable pub is_space : Char → Bool
is_space c =
    let n = code c in
    leb 9 n && leb n 13
    || nat_eq n 32
    || nat_eq n 0x85
    || nat_eq n 0xa0
    || nat_eq n 0x1680
    || leb 0x2000 n && leb n 0x200a
    || nat_eq n 0x2028
    || nat_eq n 0x2029
    || nat_eq n 0x202f
    || nat_eq n 0x205f
    || nat_eq n 0x3000

-- strings.TrimSpace
unfoldable pub trim_space : String → String
unfolding trim_end trim_start is_space
trim_space s = trim_start is_space (trim_end is_space s)

-- strings.TrimRight(s, "/")
unfoldable pub trim_slashes : String → String
unfolding trim_end
trim_slashes s = trim_end (λ c. nat_eq (code c) b'/') s
