-- ===== src/Diff/Node.antt =====
-- What the machine API of a node does with an operation, as the comments of internal/telemt and
-- internal/telemtsync document it. The node itself is not part of the repository: it is a
-- parameter, and `IsLawful` names what the diff engine relies on.
use telemux.Base.{
  arith, String, Bool, true, false, ℕ, ◌≢◌, ◌+◌, Bool-cases, inl, inr, Option, none, some, List, [],
  ◌∷◌, ◌++◌, ◌==◌, string_eq, ◌≡◌, refl, if◌then◌else◌,
}
use telemux.Diff.{RemoteUser, SyncOp, PatchFields, OpKind, create, patch, delete, other}
use telemux.Diff.Scan.{last_remote}

-- The user that a create leaves: the API client sends `enabled: true`.
abbrev pub created : SyncOp → RemoteUser
created o = record {
  username = o.username;
  enabled = true;
  expiration_rfc3339 = o.expiration_rfc3339;
  max_tcp_conns = o.max_tcp_conns;
}

abbrev pub value_or : Option Bool → Bool → Bool
value_or none b = b
value_or (some a) b = a

-- JSON Merge Patch: a field that is set is replaced, also by null.
abbrev pub patched : PatchFields → RemoteUser → RemoteUser
patched f r = record {
  username = r.username;
  enabled = value_or f.enabled r.enabled;
  expiration_rfc3339 = if f.set_expiration then f.expiration_rfc3339 else r.expiration_rfc3339;
  max_tcp_conns = if f.set_max_tcp_conns then f.max_tcp_conns else r.max_tcp_conns;
}

abbrev pub create_on : SyncOp → Option RemoteUser → Option RemoteUser
create_on o none = some (created o)
create_on o (some r) = some r

abbrev pub patch_on : SyncOp → Option RemoteUser → Option RemoteUser
patch_on o none = none
patch_on o (some r) = some (patched o.fields r)

-- The user named by the operation, after it: creating one that is there and changing or deleting
-- one that is not leave the node as it is.
abbrev pub on_user : OpKind → SyncOp → Option RemoteUser → Option RemoteUser
on_user create o u = create_on o u
on_user patch o u = patch_on o u
on_user delete o u = none
on_user (other _) o u = u

abbrev pub effect : String → Option RemoteUser → SyncOp → Option RemoteUser
effect k u o = if k == o.username then on_user o.kind o u else u

pub record Node : Type 1 where
  pub State : Type 0
  pub users : State → List RemoteUser
  pub step : State → SyncOp → State
  pub refuses : State → SyncOp → Bool

-- A node does what it is asked, but may refuse to delete its last user (last_user_forbidden).
pub record IsLawful (n : Node) : Type 0 where
  pub user-step :
      (s : n.State) (o : SyncOp) (k : String)
      → n.refuses s o ≡ false
      → last_remote k none (n.users (n.step s o)) ≡ effect k (last_remote k none (n.users s)) o
  pub last_user :
      (s : n.State) (o : SyncOp)
      → n.refuses s o ≡ true
      → (o.kind ≡ delete) × ((k : String) → k ≢ o.username → last_remote k none (n.users s) ≡ none)

abbrev pub after : String → Option RemoteUser → List SyncOp → Option RemoteUser
after k u [] = u
after k u (o ∷ os) = after k (effect k u o) os

-- An operation that is refused leaves the node as it is.
abbrev pub next : (n : Node) → n.State → SyncOp → n.State
next n s o = if n.refuses s o then s else n.step s o

abbrev pub run : (n : Node) → n.State → List SyncOp → n.State
run n s [] = s
run n s (o ∷ os) = run n (next n s o) os

-- How many of the operations are refused.
abbrev pub refusals : (n : Node) → n.State → List SyncOp → ℕ
refusals n s [] = 0
refusals n s (o ∷ os) = (if n.refuses s o then 1 else 0) + refusals n (next n s o) os

pub user-run :
    (n : Node)
    → IsLawful n
    → (os : List SyncOp) (s : n.State) (k : String) → refusals n s os ≡ 0
    → last_remote k none (n.users (run n s os)) ≡ after k (last_remote k none (n.users s)) os
user-run n law [] s k h = refl
user-run n law (o ∷ os) s k h = elim (Bool-cases (n.refuses s o)) [
  | inl no_way ↦ absurd (ground arith)
  | inr accepted ↦
      rw (accepted, ← law.user-step s o k accepted)
        (user-run n law os (n.step s o) k (ground arith))
]

-- The name is there whenever a user is deleted, and is not the one.
abbrev pub IsSpared : String → Option RemoteUser → List SyncOp → Type 0
IsSpared j u [] = Unit
IsSpared j u (o ∷ os) =
    (o.kind ≡ delete → (j ≢ o.username) × (u ≢ none)) × IsSpared j (effect j u o) os

-- Where a user stays, no operation is refused.
pub IsSpared-refusals :
    (n : Node)
    → IsLawful n
    → (os : List SyncOp) (s : n.State) (j : String) → IsSpared j (last_remote j none (n.users s)) os
    → refusals n s os ≡ 0
IsSpared-refusals n law [] s j h = refl
IsSpared-refusals n law (o ∷ os) s j (spared, later) = elim (Bool-cases (n.refuses s o)) [
  | inl no_way ↦
      let (deleting, alone) = law.last_user s o no_way in
      let (other_name, there) = spared deleting in absurd (there (alone j other_name))
  | inr accepted ↦
      let rest =
        IsSpared-refusals n law os (n.step s o) j (rw (law.user-step s o j accepted) later) in
      rw accepted (omega (arith, rest))
]

pub IsSpared-append :
    (j : String) (u : Option RemoteUser) (os ps : List SyncOp)
    → IsSpared j u os
    → IsSpared j (after j u os) ps
    → IsSpared j u (os ++ ps)
IsSpared-append j u [] ps h g = g
IsSpared-append j u (o ∷ os) ps (here, h) g = (here, IsSpared-append j (effect j u o) os ps h g)

pub after-append :
    (k : String) (u : Option RemoteUser) (os ps : List SyncOp)
    → after k u (os ++ ps) ≡ after k (after k u os) ps
after-append k u [] ps = refl
after-append k u (o ∷ os) ps = after-append k (effect k u o) os ps
