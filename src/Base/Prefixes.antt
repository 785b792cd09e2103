-- ===== src/Base/Prefixes.antt =====
-- Texts with different beginnings.
use Prim.Native.Nat.{zero}
use Prim.Native.String.{String, ◌++◌ as ◌<>◌, len, slice}
use mathlib.Core.Path.{◌≡◌, sym, ap, ◌∙◌}
use mathlib.Core.Logic.{inl, inr}
use mathlib.Core.Bool.{false}
use native.Mathlib.Omega.{arith}
use text.Mathlib.Text.{starts_with}
use text.Mathlib.TextEquality.{starts_with_iff}
use text.Mathlib.TextLemmas.{append_assoc}
use text.Mathlib.TextPositions.{slice-append_left, slice-append_right, len-append}
use package.telemux.Base.Equality.{◌==◌, string_eq, Bool-cases}

pub append_cancel : (p s t : String) → p <> s ≡ p <> t → s ≡ t
append_cancel p s t e = sym (sliced s) ∙ ap (λ u. slice u (len p) (len u)) e ∙ sliced t
  where
    sliced : (r : String) → slice (p <> r) (len p) (len (p <> r)) ≡ r
    sliced r = ap (slice (p <> r) (len p)) (len-append p r) ∙ slice-append_right p r

same_start : (a b s t : String) → len a ≡ len b → a <> s ≡ b <> t → a ≡ b
same_start a b s t n e =
    sym (slice-append_left a s)
    ∙ ap (λ u. slice u zero (len a)) e
    ∙ ap (slice (b <> t) zero) n
    ∙ slice-append_left b t

module _ (a b s t : String) (same_length : len a ≡ len b) (differ : (a == b) ≡ false) where
  pub start-ne : (a <> s == b <> t) ≡ false
  start-ne = elim (Bool-cases (a <> s == b <> t)) [
    | inr e ↦ e
    | inl e ↦ absurd (ground (arith, same_start a b s t same_length))
  ]

  pub starts_with-ne : starts_with (a <> s) (b <> t) ≡ false
  starts_with-ne = elim (Bool-cases (starts_with (a <> s) (b <> t))) [
    | inr e ↦ e
    | inl e ↦
        let (rest, joined) = (starts_with_iff (a <> s) (b <> t)).0 e in
        let same = same_start a b s (t <> rest) same_length (sym joined ∙ append_assoc b t rest) in
        absurd (ground arith)
  ]
