-- ===== src/Diff/Follow.antt =====
-- One user followed through the operations of a diff.
use telemux.Base.{
  ℕ, String, Bool, true, false, Option, none, some, List, [], ◌∷◌, ◌==◌, string_eq, ◌≡◌, refl,
  arith, not, ◌&&◌, if◌then◌else◌, starts_with,
}
use telemux.Base.Int.{ℤ, int_eq}
use telemux.Diff.{
  DesiredUser, RemoteUser, create_op, patch_fields_for, expiration_equals, int_equal,
}
use telemux.Diff.Scan.{NamedOnce, wanted, last_remote, is_some, creates, patches, deletes}
use telemux.Diff.Node.{created, patched, after}

int_equal_refl : (a : Option ℤ) → int_equal a a ≡ true
unfolding int_equal
int_equal_refl none = refl
int_equal_refl (some a) = ground arith

abbrev pub created_opt : Option DesiredUser → Option RemoteUser
created_opt none = none
created_opt (some d) = some (created (create_op d))

module _ (k : String) where
  unfoldable pub occurs : List RemoteUser → Bool
  occurs [] = false
  occurs (r ∷ rs) = if k == r.username then true else occurs rs

  pub after-deletes :
      (p : String) (ds : List DesiredUser) (us : List RemoteUser) (u : Option RemoteUser)
      → after k u (deletes p ds us)
        ≡ (if occurs us && starts_with k p && not (is_some (wanted k ds)) then none else u)
  unfolding deletes occurs
  after-deletes p ds [] u = refl
  after-deletes p ds (r ∷ us) u =
      ground (arith, after-deletes p ds us u, after-deletes p ds us none)

int_equal-eq : (a b : Option ℤ) → int_equal a b ≡ true → a ≡ b
unfolding int_equal
int_equal-eq none none h = refl
int_equal-eq none (some b) h = cc
int_equal-eq (some a) none h = cc
int_equal-eq (some a) (some b) h = ground arith

module _ (parse_time : String → Option ℕ) where
  expiration_equals_refl : (a : Option String) → expiration_equals parse_time a a ≡ true
  unfolding expiration_equals
  expiration_equals_refl none = refl
  expiration_equals_refl (some a) = ground arith

  -- The user of the node brought to the desired one: the expiry is kept where it is the same instant.
  abbrev pub mended : DesiredUser → RemoteUser → RemoteUser
  mended d r = record {
    username = r.username;
    enabled = true;
    expiration_rfc3339 =
        if expiration_equals parse_time d.expiration_rfc3339 r.expiration_rfc3339
        then r.expiration_rfc3339
        else d.expiration_rfc3339;
    max_tcp_conns = d.max_tcp_conns;
  }

  -- A patch with the changed fields does that, and where no field is changed there is nothing to do.
  patched-patch_fields_for :
      (d : DesiredUser) (r : RemoteUser)
      → (if (patch_fields_for parse_time d r).1
          then patched (patch_fields_for parse_time d r).0 r
          else r)
        ≡ mended d r
  unfolding patch_fields_for
  patched-patch_fields_for d r = ground (arith, int_equal-eq d.max_tcp_conns r.max_tcp_conns)

  -- No field differs any more.
  pub mended_matches :
      (d : DesiredUser) (r : RemoteUser) → (patch_fields_for parse_time d (mended d r)).1 ≡ false
  unfolding patch_fields_for
  mended_matches d r =
      ground (arith, expiration_equals_refl d.expiration_rfc3339, int_equal_refl d.max_tcp_conns)

  pub created_matches :
      (d : DesiredUser) → (patch_fields_for parse_time d (created (create_op d))).1 ≡ false
  unfolding patch_fields_for
  created_matches d =
      ground (arith, expiration_equals_refl d.expiration_rfc3339, int_equal_refl d.max_tcp_conns)

  module _ (k : String) (rs : List RemoteUser) where
    pub after-creates_present :
        (ds : List DesiredUser) (r : RemoteUser)
        → after k (some r) (creates parse_time rs ds) ≡ some r
    unfolding creates
    after-creates_present [] r = refl
    after-creates_present (d ∷ ds) r = ground (arith, after-creates_present ds r)

    pub after-creates_absent :
        (ds : List DesiredUser)
        → last_remote k none rs ≡ none
        → after k none (creates parse_time rs ds) ≡ created_opt (wanted k ds)
    unfolding creates wanted
    after-creates_absent [] h = refl
    after-creates_absent (d ∷ ds) h =
        ground (arith, after-creates_absent ds h, after-creates_present ds (created (create_op d)))

    pub after-patches_absent :
        (ds : List DesiredUser) (u : Option RemoteUser)
        → last_remote k none rs ≡ none
        → after k u (patches parse_time rs ds) ≡ u
    unfolding patches
    after-patches_absent [] u h = refl
    after-patches_absent (d ∷ ds) u h = ground (arith, after-patches_absent ds u h)

    abbrev pub mended_opt : RemoteUser → Option DesiredUser → RemoteUser
    mended_opt r none = r
    mended_opt r (some d) = mended d r

    after-patches_unwanted :
        (ds : List DesiredUser) (r : RemoteUser)
        → wanted k ds ≡ none
        → after k (some r) (patches parse_time rs ds) ≡ some r
    unfolding patches wanted
    after-patches_unwanted [] r h = refl
    after-patches_unwanted (d ∷ ds) r h = ground (arith, after-patches_unwanted ds r)

    pub after-patches_present :
        (ds : List DesiredUser) (r : RemoteUser)
        → NamedOnce ds
        → last_remote k none rs ≡ some r
        → after k (some r) (patches parse_time rs ds) ≡ some (mended_opt r (wanted k ds))
    unfolding patches wanted
    after-patches_present [] r u h = refl
    after-patches_present (d ∷ ds) r u h = ground (
      arith,
      after-patches_present ds r,
      after-patches_unwanted ds r,
      after-patches_unwanted ds (patched (patch_fields_for parse_time d r).0 r),
      patched-patch_fields_for d r,
    )
