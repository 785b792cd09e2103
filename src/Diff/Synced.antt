-- ===== src/Diff/Synced.antt =====
-- When `ComputeDiff` finds nothing to do.
use telemux.Base.{
  ℕ, String, true, false, Option, none, some, List, [], ◌∷◌, ◌++◌, string_eq, ◌≡◌, ◌↔◌, inl, inr,
  Option-cases, arith, starts_with, All,
}
use telemux.Base.Int.{int_eq}
use telemux.Diff.{
  DesiredUser, RemoteUser, Options, prefix, compute_diff, patch_fields_for, expiration_equals,
  int_equal,
}
use telemux.Diff.Scan.{wanted, last_remote, is_some, creates, patches, deletes, compute_diff-eq}

append-eq-nil {ℓ} : {A : Type ℓ} (xs ys : List A) → ((xs ++ ys) ≡ []) ↔ ((xs ≡ []) × (ys ≡ []))
append-eq-nil [] ys = ground arith
append-eq-nil (x ∷ xs) ys = ground arith

module _ (ds : List DesiredUser) where
  abbrev pub IsKept : String → RemoteUser → Type 0
  IsKept p r = starts_with r.username p ≡ true → is_some (wanted r.username ds) ≡ true

  deletes-eq-nil : (p : String) (rs : List RemoteUser) → (deletes p ds rs ≡ []) ↔ All (IsKept p) rs
  unfolding deletes
  deletes-eq-nil p [] = ground arith
  deletes-eq-nil p (r ∷ rs) = ground (arith, deletes-eq-nil p rs)

module _ (parse_time : String → Option ℕ) where
  -- The node has the user, enabled, at the same instant of expiry and with the same limit.
  abbrev pub Matches : DesiredUser → Option RemoteUser → Type 0
  Matches d none = ⊥
  Matches d (some r) =
      (expiration_equals parse_time d.expiration_rfc3339 r.expiration_rfc3339 ≡ true)
      × (int_equal d.max_tcp_conns r.max_tcp_conns ≡ true)
      × (r.enabled ≡ true)

  pub Matches-iff :
      (d : DesiredUser) (r : RemoteUser)
      → Matches d (some r) ↔ ((patch_fields_for parse_time d r).1 ≡ false)
  unfolding patch_fields_for
  Matches-iff d r = ground arith

  module _ (rs : List RemoteUser) where
    updates-eq-nil :
        (ds : List DesiredUser)
        → ((creates parse_time rs ds ≡ []) × (patches parse_time rs ds ≡ []))
          ↔ All (λ d. Matches d (last_remote d.username none rs)) ds
    unfolding creates patches
    updates-eq-nil [] = ground arith
    updates-eq-nil (d ∷ ds) = elim (Option-cases (last_remote d.username none rs)) [
      | inl absent ↦ ground (arith, updates-eq-nil ds)
      | inr (r, present) ↦ ground (arith, updates-eq-nil ds, Matches-iff d r)
    ]

  -- Each desired user is on the node as wanted, and each managed user of the node is desired.
  pub record IsSynced (ds : List DesiredUser) (rs : List RemoteUser) (opts : Options) : Type 0 where
    pub wanted_there : All (λ d. Matches d (last_remote d.username none rs)) ds
    pub rest_kept : All (IsKept ds (prefix opts)) rs

  pub compute_diff-eq-nil :
      (ds : List DesiredUser) (rs : List RemoteUser) (opts : Options)
      → (compute_diff parse_time ds rs opts ≡ []) ↔ IsSynced ds rs opts
  compute_diff-eq-nil ds rs opts =
      let c = creates parse_time rs ds in
      let p = patches parse_time rs ds in
      let t = deletes (prefix opts) ds rs in
      let (none_left, from) = append-eq-nil (c ++ p) t in
      let (none_left', from') = append-eq-nil c p in
      let updates = updates-eq-nil rs ds in
      let gone = deletes-eq-nil ds (prefix opts) rs in
      rw (compute_diff-eq parse_time ds rs opts) (
        λ e.
            let a = none_left e in
            record { wanted_there = updates.0 (none_left' a.0); rest_kept = gone.0 a.1 },
        λ h. from (from' (updates.1 h.wanted_there), gone.1 h.rest_kept),
      )
