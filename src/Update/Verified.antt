-- ===== src/Update/Verified.antt =====
-- Nothing is written to disk but a binary with the published checksum.
use mathlib.Core.Path.{sym}
use telemux.Base.{
  ◌≡◌, ◌⊎◌, inl, inr, ◌≢◌, ◌∙◌, ap, refl, Option, none, some, Result, ok, err, String, arith,
  string_eq, Result-cases,
}
use telemux.Base.Dict.{Dict, lookup}
use telemux.Update.Files.{File, Faults, swap_binary}
use telemux.Update.Checksums.{parse_checksums}
use telemux.Update.Run.{
  Asset, Release, Options, Outside, ◌>>=◌, found, asset_name, pick_asset, fetch_latest, download,
  checked, fetch_verified, wanted_binary, update,
}

bind-ok :
    {A B : Type 0} (m : Result String A) (f : A → Result String B) (b : B)
    → (m >>= f) ≡ ok b
    → (a : A) × (m ≡ ok a) × (f a ≡ ok b)
bind-ok (ok a) f b e = (a, refl, e)
bind-ok (err s) f b e = ground arith

found-ok : {A : Type 0} (s : String) (o : Option A) (a : A) → found s o ≡ ok a → o ≡ some a
found-ok s none a e = ground arith
found-ok s (some b) a e = ground arith

module _ (out : Outside) (opts : Options) where
  -- The release has the binary for this system and a file of checksums, both are downloaded, and
  -- the binary has the checksum that the file notes for its name.
  abbrev pub IsVerified : Release → String → Type 0
  IsVerified rel binary =
      let name = asset_name opts.goos opts.goarch in
      (bin : Asset) × (sums : Asset) × (raw : String) × (pick_asset rel name ≡ some bin)
      × (pick_asset rel "checksums.txt" ≡ some sums)
      × (download out sums.url ≡ ok raw)
      × (download out bin.url ≡ ok binary)
      × (lookup name (parse_checksums raw) ≡ some (out.sha256hex binary))

  checked-ok :
      (binary want b : String)
      → checked out binary want ≡ ok b
      → (binary ≡ b) × (out.sha256hex b ≡ want)
  unfolding checked
  checked-ok binary want b e = ground arith

  fetch_verified-IsVerified :
      (rel : Release) (binary : String)
      → fetch_verified out opts rel ≡ ok binary
      → IsVerified rel binary
  unfolding fetch_verified
  fetch_verified-IsVerified rel binary e =
      let (bin, picked, e1) = bind-ok _ _ _ e in
      let (sums, picked_sums, e2) = bind-ok _ _ _ e1 in
      let (raw, got_sums, e3) = bind-ok _ _ _ e2 in
      let (want, noted, e4) = bind-ok _ _ _ e3 in
      let (b, got, e5) = bind-ok _ _ _ e4 in
      let (same, sum) = checked-ok b want binary e5 in
      (
        bin,
        sums,
        raw,
        found-ok _ _ _ picked,
        found-ok _ _ _ picked_sums,
        got_sums,
        got ∙ ap ok same,
        found-ok _ _ _ noted ∙ ap some (sym sum),
      )

  wanted_binary-ok :
      (rel : Release) (binary : String)
      → wanted_binary out opts rel ≡ ok (some binary)
      → (rel.version ≢ opts.current_version) × (fetch_verified out opts rel ≡ ok binary)
  unfolding wanted_binary
  wanted_binary-ok rel binary e = elim (Result-cases (fetch_verified out opts rel)) [
    | inl (b, fetched) ↦ ground arith
    | inr (s, failed) ↦ ground arith
  ]

  -- Either no file is touched, or the release is a new one and a binary with the checksum that its
  -- checksums.txt notes replaces the old one, and nothing else is done to the files.
  pub update-IsVerified :
      (flt : Faults) (tmp : String) (fs : Dict File)
      → ((update out opts flt tmp fs).2 ≡ fs)
        ⊎ ((rel : Release) × (binary : String) × (fetch_latest out opts.api_base opts.owner
                opts.repo
              ≡ ok rel)
            × (rel.version ≢ opts.current_version)
            × IsVerified rel binary
            × ((update out opts flt tmp fs).2 ≡ (swap_binary flt opts.binary_path binary tmp fs).1))
  unfolding update
  update-IsVerified flt tmp fs =
      elim (Result-cases (fetch_latest out opts.api_base opts.owner opts.repo)) [
        | inr (e, failed) ↦ inl (ground arith)
        | inl (rel, fetched) ↦ elim (Result-cases (wanted_binary out opts rel)) [
          | inr (e, failed) ↦ inl (ground arith)
          | inl (none, idle) ↦ inl (ground arith)
          | inl (some binary, new) ↦
              let (differs, fetched_binary) = wanted_binary-ok rel binary new in
              inr (
                rel,
                binary,
                fetched,
                differs,
                fetch_verified-IsVerified rel binary fetched_binary,
                ground arith,
              )
        ]
      ]
