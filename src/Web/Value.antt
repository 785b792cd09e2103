-- ===== src/Web/Value.antt =====
-- JavaScript values, as far as the panel looks at them: what `JSON.parse` returns, and `undefined`.
use telemux.Base.{String, Bool, true, false, Result, ok, err, ◌==◌, string_eq, not, if◌then◌else◌}
use telemux.Base.Int.{ℤ, is_zero}

mutual
  pub data Value : Type 0 where
    undefined null : Value
    obj : Members → Value
    arr : Elements → Value
    str : String → Value
    num : ℤ → Value
    bool : Bool → Value

  pub data Members : Type 0 where
    member : String → Value → Members → Members
    no_members : Members

  pub data Elements : Type 0 where
    element : Value → Elements → Elements
    no_elements : Elements

-- A field that an object lacks is `undefined`.
unfoldable pub find : String → Members → Value
find k no_members = undefined
find k (member j v fs) = if k == j then v else find k fs

-- `v.k`: an exception with its message where `v` has no fields at all. No value but an object has
-- fields of the names that the panel asks for.
unfoldable pub get : Value → String → Result String Value
unfolding find
get undefined k = err "Cannot read properties of undefined"
get null k = err "Cannot read properties of null"
get (obj fs) k = ok (find k fs)
get _ k = ok undefined

-- `v?.k`
unfoldable pub get_opt : Value → String → Value
unfolding find
get_opt (obj fs) k = find k fs
get_opt _ k = undefined

-- `v ?? d`
abbrev pub or_default : Value → Value → Value
or_default undefined d = d
or_default null d = d
or_default v _ = v

abbrev pub truthy : Value → Bool
truthy undefined = false
truthy null = false
truthy (bool b) = b
truthy (num n) = not (is_zero n)
truthy (str s) = not (s == "")
truthy (arr _) = true
truthy (obj _) = true

-- `a && b`
abbrev pub and_also : Value → Value → Value
and_also a b = if truthy a then b else a
