-- ===== src/Diff/Order.antt =====
-- Which operations a diff holds, and in which order.
use telemux.Base.{
  ℕ, ◌≤◌, String, true, Option, none, some, List, [], ◌∷◌, ◌++◌, string_eq, ◌≡◌, refl, arith,
  starts_with, All, All-append, All-map,
}
use telemux.Diff.{
  DesiredUser, RemoteUser, SyncOp, OpKind, create, patch, delete, other, Options, prefix,
  compute_diff,
}
use telemux.Diff.Scan.{wanted, last_remote, is_some, creates, patches, deletes, compute_diff-eq}

abbrev pub rank : OpKind → ℕ
rank create = 0
rank patch = 1
rank delete = 2
rank (other _) = 3

-- No operation is of an earlier kind than one before it.
abbrev pub IsOrdered : List SyncOp → Type 0
IsOrdered [] = Unit
IsOrdered (o ∷ os) = All (λ later. rank o.kind ≤ rank later.kind) os × IsOrdered os

IsOrdered-append :
    (n : ℕ) (os ps : List SyncOp)
    → IsOrdered os
    → IsOrdered ps
    → All (λ o. rank o.kind ≤ n) os
    → All (λ o. n ≤ rank o.kind) ps
    → IsOrdered (os ++ ps)
IsOrdered-append n [] ps so sp ho hp = sp
IsOrdered-append n (o ∷ os) ps so sp ho hp = (
  All-append _ os ps so.0 (All-map (λ later h. omega arith) ps hp),
  IsOrdered-append n os ps so.1 sp ho.1 hp,
)

IsOrdered-same : (n : ℕ) (os : List SyncOp) → All (λ o. rank o.kind ≡ n) os → IsOrdered os
IsOrdered-same n [] h = tt
IsOrdered-same n (o ∷ os) h = (All-map (λ later e. omega arith) os h.1, IsOrdered-same n os h.1)

-- Why an operation is in the diff.
module _ (ds : List DesiredUser) (rs : List RemoteUser) (p : String) where
  abbrev pub Reason : OpKind → String → Type 0
  Reason create k = (is_some (wanted k ds) ≡ true) × (last_remote k none rs ≡ none)
  Reason patch k = (is_some (wanted k ds) ≡ true) × (is_some (last_remote k none rs) ≡ true)
  Reason delete k =
      (starts_with k p ≡ true) × (wanted k ds ≡ none) × (is_some (last_remote k none rs) ≡ true)
  Reason (other _) k = ⊥

  abbrev pub IsJustified : SyncOp → Type 0
  IsJustified o = Reason o.kind o.username

module _ (ds : List DesiredUser) where
  wanted_cons :
      (k : String) (d : DesiredUser)
      → is_some (wanted k ds) ≡ true
      → is_some (wanted k (d ∷ ds)) ≡ true
  unfolding wanted
  wanted_cons k d h = ground arith

All-wanted : (ds : List DesiredUser) → All (λ d. is_some (wanted d.username ds) ≡ true) ds
unfolding wanted
All-wanted [] = tt
All-wanted (d ∷ ds) =
    (ground arith, All-map (λ e h. wanted_cons ds e.username d h) ds (All-wanted ds))

last_remote-found :
    (k : String) (rs : List RemoteUser) (r : RemoteUser)
    → is_some (last_remote k (some r) rs) ≡ true
unfolding last_remote
last_remote-found k [] r = refl
last_remote-found k (s ∷ rs) r = ground (arith, last_remote-found k rs r, last_remote-found k rs s)

last_remote_cons :
    (k : String) (rs : List RemoteUser) (r : RemoteUser)
    → is_some (last_remote k none rs) ≡ true
    → is_some (last_remote k none (r ∷ rs)) ≡ true
unfolding last_remote
last_remote_cons k rs r h = ground (arith, last_remote-found k rs r)

All-remote : (rs : List RemoteUser) → All (λ r. is_some (last_remote r.username none rs) ≡ true) rs
All-remote [] = tt
All-remote (r ∷ rs) = (
  unfold last_remote in ground (arith, last_remote-found r.username rs r),
  All-map (λ s h. last_remote_cons s.username rs r h) rs (All-remote rs),
)

module _ (parse_time : String → Option ℕ) (ds : List DesiredUser) (rs : List RemoteUser)
    (p : String) where
  creates-IsJustified :
      (es : List DesiredUser)
      → All (λ d. is_some (wanted d.username ds) ≡ true) es
      → All (λ o. (rank o.kind ≡ 0) × IsJustified ds rs p o) (creates parse_time rs es)
  unfolding creates
  creates-IsJustified [] h = tt
  creates-IsJustified (d ∷ es) h = ground (arith, creates-IsJustified es)

  patches-IsJustified :
      (es : List DesiredUser)
      → All (λ d. is_some (wanted d.username ds) ≡ true) es
      → All (λ o. (rank o.kind ≡ 1) × IsJustified ds rs p o) (patches parse_time rs es)
  unfolding patches
  patches-IsJustified [] h = tt
  patches-IsJustified (d ∷ es) h = ground (arith, patches-IsJustified es)

  deletes-IsJustified :
      (us : List RemoteUser)
      → All (λ r. is_some (last_remote r.username none rs) ≡ true) us
      → All (λ o. (rank o.kind ≡ 2) × IsJustified ds rs p o) (deletes p ds us)
  unfolding deletes
  deletes-IsJustified [] h = tt
  deletes-IsJustified (r ∷ us) h = ground (arith, deletes-IsJustified us)

  parts :
      All (λ o. (rank o.kind ≡ 0) × IsJustified ds rs p o) (creates parse_time rs ds)
      × All (λ o. (rank o.kind ≡ 1) × IsJustified ds rs p o) (patches parse_time rs ds)
      × All (λ o. (rank o.kind ≡ 2) × IsJustified ds rs p o) (deletes p ds rs)
  parts = (
    creates-IsJustified ds (All-wanted ds),
    patches-IsJustified ds (All-wanted ds),
    deletes-IsJustified rs (All-remote rs),
  )

module _ (parse_time : String → Option ℕ) (ds : List DesiredUser) (rs : List RemoteUser)
    (opts : Options) where
  -- Creates come first, then patches, then deletes. A create names a desired user that the node
  -- lacks, a patch a desired user that it has, and a delete a user of the node that is not desired
  -- and whose name has the managed prefix: nothing else is ever touched.
  pub compute_diff-IsOrdered :
      IsOrdered (compute_diff parse_time ds rs opts)
      × All (IsJustified ds rs (prefix opts)) (compute_diff parse_time ds rs opts)
  compute_diff-IsOrdered =
      let p = prefix opts in
      let c = creates parse_time rs ds in
      let u = patches parse_time rs ds in
      let t = deletes p ds rs in
      let (hc, hu, ht) = parts parse_time ds rs p in
      let low : All (λ o. rank o.kind ≤ 1) (c ++ u) =
        All-append _ c u (All-map (λ o h. omega arith) c hc) (All-map (λ o h. omega arith) u hu) in
      let first : IsOrdered (c ++ u) =
        IsOrdered-append 0 c u (IsOrdered-same 0 c (All-map (λ o h. h.0) c hc))
          (IsOrdered-same 1 u (All-map (λ o h. h.0) u hu)) (All-map (λ o h. omega arith) c hc)
          (All-map (λ o h. omega arith) u hu) in
      rw (compute_diff-eq parse_time ds rs opts) (
        IsOrdered-append 1 (c ++ u) t first (IsOrdered-same 2 t (All-map (λ o h. h.0) t ht)) low
            (All-map (λ o h. omega arith) t ht),
        All-append _ (c ++ u) t
            (All-append _ c u (All-map (λ o h. h.1) c hc) (All-map (λ o h. h.1) u hu))
            (All-map (λ o h. h.1) t ht),
      )
