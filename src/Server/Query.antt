-- ===== src/Server/Query.antt =====
-- `atoiDefault` of internal/server/users.go, with what it uses of `strconv.Atoi`.
use Prim.Native.Char.{code}
use telemux.Base.{
  ℕ, zero, suc, ◌+◌, ◌-◌, ◌*◌, ◌^◌, String, ◌&&◌, Option, none, some, ◌==◌, string_eq,
  if◌then◌else◌, leb, ltb, nat_eq,
}
use telemux.Base.Int.{ℤ, pos, negsuc}

unfoldable pub digits : String → ℕ → Option ℕ
digits String.[] n = some n
digits (String.◌∷◌ c s) n =
    let rest = digits s (n * 10 + (code c - 48)) in
    if leb 48 (code c) && leb (code c) 57 then rest else none

-- At least one digit.
unfoldable pub magnitude : String → Option ℕ
magnitude String.[] = none
magnitude (String.◌∷◌ c s) = digits (String.◌∷◌ c s) 0

-- An int has 64 bits.
positive : Option ℕ → Option ℤ
positive none = none
positive (some n) = if ltb n (2 ^ 63) then some (pos n) else none

negated : ℕ → ℤ
negated zero = pos 0
negated (suc n) = negsuc n

negative : Option ℕ → Option ℤ
unfolding negated
negative none = none
negative (some n) = if leb n (2 ^ 63) then some (negated n) else none

unfoldable pub atoi : String → Option ℤ
unfolding positive negative
atoi String.[] = none
atoi (String.◌∷◌ c s) =
    if nat_eq (code c) b'-'
    then negative (magnitude s)
    else if nat_eq (code c) b'+'
    then positive (magnitude s)
    else positive (magnitude (String.◌∷◌ c s))

unfoldable pub atoi_default : String → ℤ → ℤ
atoi_default s d = if s == "" then d else elim (atoi s) [ none ↦ d | some n ↦ n ]
