-- ===== src/Diff/Safety.antt =====
-- The guard against mass deletion, internal/telemtsync/diff.go: `ComputeSafety`, `IsMassDelete`.
-- `float64` is a parameter: its values and the operations that the guard applies to them.
pub mod Guard
use telemux.Base.{
  String, ℕ, ◌+◌, Bool, true, false, ◌&&◌, List, [], ◌∷◌, ltb, nat_eq, if◌then◌else◌, starts_with,
}
use telemux.Base.Int.{ℤ, pos, is_zero, lebℤ}
use telemux.Diff.{RemoteUser, SyncOp, OpKind, create, patch, delete, other, Options, prefix}

pub record Float64 : Type 1 where
  pub Float : Type 0
  -- The constants 0.0 and 0.5.
  pub zero_float : Float
  pub half : Float
  -- `float64(n)`, and the operators.
  pub of_int : ℕ → Float
  pub div : Float → Float → Float
  pub eq : Float → Float → Bool
  pub lt : Float → Float → Bool

abbrev pub is_delete : OpKind → Bool
is_delete delete = true
is_delete _ = false

unfoldable pub count_managed : String → List RemoteUser → ℕ → ℕ
count_managed prefix [] total = total
count_managed prefix (r ∷ rs) total =
    count_managed prefix rs (if starts_with r.username prefix then total + 1 else total)

unfoldable pub count_deletes : List SyncOp → ℕ → ℕ
count_deletes [] del = del
count_deletes (o ∷ os) del = count_deletes os (if is_delete o.kind then del + 1 else del)

module _ (f : Float64) where
  open f use {Float, zero_float, half, of_int, div, eq, lt}

  pub record DiffSafety : Type 0 where
    pub total_remote_managed : ℕ
    pub delete_count : ℕ
    pub delete_fraction : Float

  unfoldable pub compute_safety : List SyncOp → List RemoteUser → Options → DiffSafety
  compute_safety ops remote opts =
      let total = count_managed (prefix opts) remote 0 in
      let del = count_deletes ops 0 in
      record {
        total_remote_managed = total;
        delete_count = del;
        delete_fraction = if ltb 0 total then div (of_int del) (of_int total) else zero_float;
      }

  pub record MassDeleteOptions : Type 0 where
    pub options : Options
    pub fraction_threshold : Float
    pub min_deletes : ℤ

  unfoldable pub is_mass_delete : List SyncOp → List RemoteUser → MassDeleteOptions → Bool
  unfolding compute_safety
  is_mass_delete ops remote opts =
      let ft = if eq opts.fraction_threshold zero_float then half else opts.fraction_threshold in
      let md = if is_zero opts.min_deletes then pos 5 else opts.min_deletes in
      let s = compute_safety ops remote opts.options in
      lebℤ md (pos s.delete_count) && lt ft s.delete_fraction
