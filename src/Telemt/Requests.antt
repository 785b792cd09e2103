-- ===== src/Telemt/Requests.antt =====
-- The requests of a diff's operations, against what the node makes of them.
use telemux.Base.{
  ◌++◌, ◌≡◌, String, arith, Bool, true, Option, none, some, List, [], ◌∷◌, ◌==◌, string_eq,
  if◌then◌else◌, refl, ℕ, ok, All, All-map, ◌∙◌, sym, ◌<>◌, ◌⊎◌, inl, inr,
}
use telemux.Base.Int.{ℤ}
use telemux.Diff.{
  DesiredUser, Options, OpKind, create, patch, delete, other, prefix, compute_diff, RemoteUser,
  SyncOp, PatchFields,
}
use telemux.Base.Prefixes.{append_cancel}
use telemux.Diff.Scan.{wanted, last_remote, is_some}
use telemux.Diff.Node.{effect, on_user, create_on, patch_on, created, patched}
use telemux.Diff.Order.{Reason, compute_diff-IsOrdered}
use telemux.Telemt.{
  Client, Request, op_request, if_some, pointer, Body, bool, num, str, patch_body, create_body,
}
use telemux.Telemt.Received.{merge, described, is_plain, names, is_at, received}

patch_members : Option Bool → Bool → Option String → Bool → Option ℤ → Body
patch_members on set_e e set_c n =
    if_some "enabled" bool on
    ++ (if set_e then ("expiration_rfc3339", pointer str e) ∷ [] else [])
    ++ (if set_c then ("max_tcp_conns", pointer num n) ∷ [] else [])

merge-patch_members :
    (on : Option Bool) (set_e : Bool) (e : Option String) (set_c : Bool) (n : Option ℤ)
    (r : RemoteUser)
    → merge (patch_members on set_e e set_c n) r
      ≡ patched
          (record {
            set_expiration = set_e;
            expiration_rfc3339 = e;
            set_max_tcp_conns = set_c;
            max_tcp_conns = n;
            enabled = on;
          })
          r
unfolding patch_members string_eq
merge-patch_members on set_e e set_c n r = ground arith

described-members :
    (name secret : String) (empty : Bool) (e : Option String) (n : Option ℤ)
    → described name (
        ("username", str name) ∷ (if empty then [] else ("secret", str secret) ∷ [])
        ++ if_some "max_tcp_conns" num n
        ++ if_some "expiration_rfc3339" str e
        ++ ("enabled", bool true) ∷ [])
      ≡ record { username = name; enabled = true; expiration_rfc3339 = e; max_tcp_conns = n }
unfolding string_eq
described-members name secret empty e n = ground arith

described-create_body : (o : SyncOp) → described o.username (create_body o) ≡ created o
unfolding create_body
described-create_body o =
    described-members o.username o.secret (o.secret == "") o.expiration_rfc3339 o.max_tcp_conns

merge-patch_body : (f : PatchFields) (r : RemoteUser) → merge (patch_body f) r ≡ patched f r
unfolding patch_body patch_members
merge-patch_body f r =
    merge-patch_members f.enabled f.set_expiration f.expiration_rfc3339 f.set_max_tcp_conns
      f.max_tcp_conns r

names-create_body : (k : String) (o : SyncOp) → names k (create_body o) ≡ (k == o.username)
unfolding create_body
names-create_body k o = ground arith

received-create :
    (base : String) (o : SyncOp) (k : String) (u : Option RemoteUser)
    → received base "POST" (base <> "/v1/users") (some (create_body o)) k u
      ≡ (if k == o.username then create_on o u else u)
received-create base o k none = elim (string_eq.dec k o.username) [
  | yes same ↦ ground (arith, names-create_body k o, described-create_body o)
  | no other_name ↦ ground (arith, names-create_body k o)
]
received-create base o k (some v) = ground arith

is_at_eq :
    (base name k : String)
    → is_plain name ≡ true
    → is_at base (base <> ("/v1/users/" <> name)) k ≡ (k == name)
is_at_eq base name k plain = elim (string_eq.dec k name) [
  | yes same ↦ ground arith
  | no other_name ↦ ground (
    arith,
    append_cancel base ("/v1/users/" <> name) ("/v1/users/" <> k),
    append_cancel "/v1/users/" name k,
  )
]

either : (b : Bool) (u : Option RemoteUser) → (if b then u else u) ≡ u
either b u = ground arith

received-patch :
    (base : String) (o : SyncOp) (k : String) (u : Option RemoteUser)
    → is_plain o.username ≡ true
    → received base "PATCH" (base <> ("/v1/users/" <> o.username)) (some (patch_body o.fields)) k u
      ≡ (if k == o.username then patch_on o u else u)
unfolding string_eq
received-patch base o k none plain =
    rw (is_at_eq base o.username k plain)
      (either (k == o.username) none ∙ sym (either (k == o.username) none))
received-patch base o k (some v) plain =
    rw (is_at_eq base o.username k plain, merge-patch_body) refl

received-delete :
    (base : String) (o : SyncOp) (k : String) (u : Option RemoteUser)
    → is_plain o.username ≡ true
    → received base "DELETE" (base <> ("/v1/users/" <> o.username)) none k u
      ≡ (if k == o.username then none else u)
unfolding string_eq
received-delete base o k u plain = rw (is_at_eq base o.username k plain) refl

wanted-is_plain :
    (ds : List DesiredUser) (k : String)
    → All (λ d. is_plain d.username ≡ true) ds
    → is_some (wanted k ds) ≡ true
    → is_plain k ≡ true
unfolding wanted
wanted-is_plain [] k h e = absurd (ground arith)
wanted-is_plain (d ∷ ds) k (plain, h) e = ground (arith, wanted-is_plain ds k h)

last_remote-is_plain :
    (rs : List RemoteUser) (found : Option RemoteUser) (k : String)
    → All (λ r. is_plain r.username ≡ true) rs
    → is_some (last_remote k found rs) ≡ true
    → (is_some found ≡ true) ⊎ (is_plain k ≡ true)
unfolding last_remote
last_remote-is_plain [] found k h e = inl e
last_remote-is_plain (r ∷ rs) found k (plain, h) e =
    ground (arith, last_remote-is_plain rs found k h, last_remote-is_plain rs (some r) k h)

module _ (c : Client) where
  -- A request goes out for the operation, and a node that does what it says changes its users as
  -- the operation means.
  abbrev pub IsCarried : SyncOp → Type 0
  IsCarried o =
      (rev : String)
      → (r : Request) × (op_request c o o.kind rev ≡ ok r)
        × (r.if_match ≡ (if rev == "" then none else some rev))
        × ((k : String) (u : Option RemoteUser)
            → received c.base_url r.method r.url r.body k u ≡ effect k u o)

module _ (c : Client) (ds : List DesiredUser) (rs : List RemoteUser)
    (desired_plain : All (λ d. is_plain d.username ≡ true) ds)
    (remote_plain : All (λ r. is_plain r.username ≡ true) rs) where
  kind-IsCarried :
      (p : String) (o : SyncOp) (kind : OpKind) (rev : String)
      → o.kind ≡ kind
      → Reason ds rs p kind o.username
      → (r : Request) × (op_request c o kind rev ≡ ok r)
        × (r.if_match ≡ (if rev == "" then none else some rev))
        × ((k : String) (u : Option RemoteUser)
            → received c.base_url r.method r.url r.body k u
              ≡ (if k == o.username then on_user kind o u else u))
  unfolding op_request
  kind-IsCarried p o create rev e h = (_, refl, refl, received-create c.base_url o)
  kind-IsCarried p o patch rev e h =
      let plain = wanted-is_plain ds o.username desired_plain h.0 in
      (_, refl, refl, λ k u. received-patch c.base_url o k u plain)
  kind-IsCarried p o delete rev e h =
      let plain : is_plain o.username ≡ true =
        elim (last_remote-is_plain rs none o.username remote_plain h.2) [
          | inl found ↦ absurd (ground arith)
          | inr plain ↦ plain
        ] in
      (_, refl, refl, λ k u. received-delete c.base_url o k u plain)
  kind-IsCarried p o (other _) rev e h = elim h [ ]

  pub compute_diff-IsCarried :
      (parse_time : String → Option ℕ) (opts : Options)
      → All (IsCarried c) (compute_diff parse_time ds rs opts)
  compute_diff-IsCarried parse_time opts =
      All-map (λ o h rev. kind-IsCarried (prefix opts) o o.kind rev refl h) _
        (compute_diff-IsOrdered parse_time ds rs opts).1
