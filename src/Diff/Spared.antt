-- ===== src/Diff/Spared.antt =====
-- The operations of a diff, and a user that they leave: a node has somebody else whenever it is to
-- delete a user.
use telemux.Base.{
  ◌++◌, ◌∙◌, ◌≡◌, ◌≢◌, String, ℕ, Option, List, [], ◌∷◌, arith, All, none, some, Bool-cases, inl,
  inr, refl,
}
use telemux.Diff.{
  DesiredUser, RemoteUser, Options, SyncOp, delete, prefix, compute_diff, patch_fields_for,
}
use telemux.Diff.Scan.{creates, patches, deletes, patch_for, compute_diff-eq, is_some, last_remote}
use telemux.Diff.Node.{IsSpared, IsSpared-append, after, after-append, effect}

abbrev AllDelete : List SyncOp → Type 0
AllDelete os = All (λ o. o.kind ≡ delete) os

deletes-AllDelete :
    (p : String) (ds : List DesiredUser) (rs : List RemoteUser) → AllDelete (deletes p ds rs)
unfolding deletes
deletes-AllDelete p ds [] = tt
deletes-AllDelete p ds (r ∷ rs) = ground (arith, deletes-AllDelete p ds rs)

after-deletes_none : (j : String) (os : List SyncOp) → AllDelete os → after j none os ≡ none
after-deletes_none j [] h = refl
after-deletes_none j (o ∷ os) (e, h) = ground (arith, after-deletes_none j os h)

-- Deletes only remove users: one that is left after them was there all the time.
AllDelete-IsSpared :
    (j : String) (u : Option RemoteUser) (os : List SyncOp)
    → AllDelete os
    → after j u os ≢ none
    → IsSpared j u os
AllDelete-IsSpared j u [] h left = tt
AllDelete-IsSpared j u (o ∷ os) (e, h) left = (
  (λ deleting.
      (ground (arith, after-deletes_none j os h), ground (arith, after-deletes_none j os h))),
  AllDelete-IsSpared j (effect j u o) os h left,
)

module _ (parse_time : String → Option ℕ) where
  creates-IsSpared :
      (rs : List RemoteUser) (ds : List DesiredUser) (j : String) (u : Option RemoteUser)
      → IsSpared j u (creates parse_time rs ds)
  unfolding creates
  creates-IsSpared rs [] j u = tt
  creates-IsSpared rs (d ∷ ds) j u = elim (Bool-cases (is_some (last_remote d.username none rs))) [
    | inl there ↦ rw there (creates-IsSpared rs ds j u)
    | inr absent ↦ rw absent ((λ e. ground arith), creates-IsSpared rs ds j _)
  ]

  patch_for-IsSpared :
      (d : DesiredUser) (found : Option RemoteUser) (os : List SyncOp) (j : String)
      → ((u : Option RemoteUser) → IsSpared j u os)
      → (u : Option RemoteUser) → IsSpared j u (patch_for parse_time d found os)
  patch_for-IsSpared d none os j h u = h u
  patch_for-IsSpared d (some r) os j h u = elim (Bool-cases (patch_fields_for parse_time d r).1) [
    | inl changed ↦ rw changed ((λ e. ground arith), h _)
    | inr same ↦ rw same (h u)
  ]

  patches-IsSpared :
      (rs : List RemoteUser) (ds : List DesiredUser) (j : String) (u : Option RemoteUser)
      → IsSpared j u (patches parse_time rs ds)
  unfolding patches
  patches-IsSpared rs [] j u = tt
  patches-IsSpared rs (d ∷ ds) j u =
      patch_for-IsSpared d (last_remote d.username none rs) (patches parse_time rs ds) j
        (patches-IsSpared rs ds j) u

  -- A user that the diff leaves is spared by it.
  pub compute_diff-IsSpared :
      (ds : List DesiredUser) (rs : List RemoteUser) (opts : Options) (j : String)
      (u : Option RemoteUser)
      → after j u (compute_diff parse_time ds rs opts) ≢ none
      → IsSpared j u (compute_diff parse_time ds rs opts)
  compute_diff-IsSpared ds rs opts j u left =
      let c = creates parse_time rs ds in
      let p = patches parse_time rs ds in
      let d = deletes (prefix opts) ds rs in
      let split : after j u (compute_diff parse_time ds rs opts) ≡ after j (after j u (c ++ p)) d =
        rw (compute_diff-eq parse_time ds rs opts, after-append j u (c ++ p) d) refl in
      rw (compute_diff-eq parse_time ds rs opts) (
        IsSpared-append j u (c ++ p) d
          (IsSpared-append j u c p (creates-IsSpared rs ds j u) (patches-IsSpared rs ds j _))
          (AllDelete-IsSpared j _ d (deletes-AllDelete (prefix opts) ds rs)
            (λ gone. left (split ∙ gone))))
