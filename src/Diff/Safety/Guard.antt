-- ===== src/Diff/Safety/Guard.antt =====
-- When the guard fires with the thresholds that `serve` and `sync` leave at 0.
use telemux.Base.{
  Option, ℕ, ◌+◌, ◌*◌, ◌^◌, ◌≤◌, ◌<◌, String, true, false, not, ◌&&◌, List, [], ◌∷◌, ◌++◌, ◌≡◌, ◌↔◌,
  ◌∙◌, refl, arith, if◌then◌else◌, starts_with,
}
use telemux.Base.Int.{pos}
use telemux.Diff.{DesiredUser, RemoteUser, SyncOp, Options, prefix, compute_diff}
use telemux.Diff.Scan.{wanted, is_some, creates, patches, deletes, compute_diff-eq}
use telemux.Diff.Safety.{Float64, count_managed, count_deletes, MassDeleteOptions, is_mass_delete}

-- What the guard relies on of IEEE 754: 0.0 equals itself and is below 0.5; a quotient of integers
-- below 2^52 is rounded to a value above 0.5 exactly when it is above 0.5.
pub record IsIeee (f : Float64) : Type 0 where
  pub zero-eq-zero : f.eq f.zero_float f.zero_float ≡ true
  pub half-lt-zero : f.lt f.half f.zero_float ≡ false
  pub half-lt-div :
      (a b : ℕ)
      → a ≤ b
      → 0 < b
      → b < 2 ^ 52
      → (f.lt f.half (f.div (f.of_int a) (f.of_int b)) ≡ true) ↔ (b < 2 * a)

module _ (p : String) (ds : List DesiredUser) where
  -- The managed users of the node that are desired, and those that are not.
  unfoldable pub kept : List RemoteUser → ℕ
  kept [] = 0
  kept (r ∷ rs) =
      (if starts_with r.username p && is_some (wanted r.username ds) then 1 else 0) + kept rs

  unfoldable pub dropped : List RemoteUser → ℕ
  dropped [] = 0
  dropped (r ∷ rs) =
      (if starts_with r.username p && not (is_some (wanted r.username ds)) then 1 else 0)
      + dropped rs

  count_managed-eq :
      (rs : List RemoteUser) (n : ℕ) → count_managed p rs n ≡ n + kept rs + dropped rs
  unfolding count_managed kept dropped
  count_managed-eq [] n = omega arith
  count_managed-eq (r ∷ rs) n = ground (arith, count_managed-eq rs n, count_managed-eq rs (n + 1))

  count_deletes-deletes :
      (rs : List RemoteUser) (n : ℕ) → count_deletes (deletes p ds rs) n ≡ n + dropped rs
  unfolding count_deletes deletes dropped
  count_deletes-deletes [] n = omega arith
  count_deletes-deletes (r ∷ rs) n =
      ground (arith, count_deletes-deletes rs n, count_deletes-deletes rs (n + 1))

count_deletes-append :
    (os ps : List SyncOp) (n : ℕ)
    → count_deletes (os ++ ps) n ≡ count_deletes ps (count_deletes os n)
unfolding count_deletes
count_deletes-append [] ps n = refl
count_deletes-append (o ∷ os) ps n = count_deletes-append os ps _

module _ (parse_time : String → Option ℕ) (rs : List RemoteUser) where
  count_deletes-creates :
      (ds : List DesiredUser) (n : ℕ) → count_deletes (creates parse_time rs ds) n ≡ n
  unfolding count_deletes creates
  count_deletes-creates [] n = refl
  count_deletes-creates (d ∷ ds) n = ground (arith, count_deletes-creates ds n)

  count_deletes-patches :
      (ds : List DesiredUser) (n : ℕ) → count_deletes (patches parse_time rs ds) n ≡ n
  unfolding count_deletes patches
  count_deletes-patches [] n = refl
  count_deletes-patches (d ∷ ds) n = ground (arith, count_deletes-patches ds n)

  count_deletes-diff :
      (ds : List DesiredUser) (opts : Options)
      → count_deletes (compute_diff parse_time ds rs opts) 0 ≡ dropped (prefix opts) ds rs
  count_deletes-diff ds opts =
      rw
        (
          compute_diff-eq parse_time ds rs opts,
          count_deletes-append,
          count_deletes-append,
          count_deletes-creates,
          count_deletes-patches,
        )
        (count_deletes-deletes (prefix opts) ds rs 0 ∙ omega arith)

-- Both thresholds left at zero.
abbrev pub default_guard : (f : Float64) → Options → MassDeleteOptions f
default_guard f opts = record {
  options = opts;
  fraction_threshold = f.zero_float;
  min_deletes = pos 0;
}

module _ (f : Float64) (law : IsIeee f) where
  -- With its default thresholds the guard stops a diff exactly when it would delete at least five
  -- users and more than it leaves of the managed ones, on a node with fewer than 2^52 of them.
  pub is_mass_delete-diff :
      (parse_time : String → Option ℕ) (ds : List DesiredUser) (rs : List RemoteUser)
      (opts : Options)
      → kept (prefix opts) ds rs + dropped (prefix opts) ds rs < 2 ^ 52
      → (is_mass_delete f (compute_diff parse_time ds rs opts) rs (default_guard f opts) ≡ true) ↔ (
          (5 ≤ dropped (prefix opts) ds rs)
          × (kept (prefix opts) ds rs < dropped (prefix opts) ds rs))
  unfolding is_mass_delete
  is_mass_delete-diff parse_time ds rs opts small =
      let k = kept (prefix opts) ds rs in
      let d = dropped (prefix opts) ds rs in
      let law' = law.half-lt-div d (k + d) (omega arith) in
      rw
        (
          count_deletes-diff parse_time rs ds opts,
          count_managed-eq (prefix opts) ds rs 0,
          law.zero-eq-zero,
        )
        (ground (arith, law', law.half-lt-zero))
