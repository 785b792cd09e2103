-- ===== src/Update/Run.antt =====
-- The update itself, `Update`, with `FetchLatest`, `download` and `PickAsset`. GitHub is a function
-- from a URL to an answer; the JSON decoder and SHA-256 are parameters.
use telemux.Base.{
  ℕ, String, ◌<>◌, Bool, Option, none, some, List, [], ◌∷◌, Result, ok, err, ◌==◌, string_eq,
  nat_eq, if◌then◌else◌,
}
use telemux.Base.Dict.{Dict, lookup}
use telemux.Base.Text.{trim_slashes}
use telemux.Update.Files.{File, Faults, swap_binary}
use telemux.Update.Checksums.{parse_checksums}

pub record Asset : Type 0 where
  pub name : String
  pub url : String

pub record Release : Type 0 where
  pub version : String
  pub assets : List Asset

unfoldable pub asset_name : String → String → String
asset_name goos goarch = "telemux_" <> goos <> "_" <> goarch

find_asset : List Asset → String → Option Asset
find_asset [] name = none
find_asset (a ∷ more) name =
    let rest = find_asset more name in if a.name == name then some a else rest

unfoldable pub pick_asset : Release → String → Option Asset
unfolding find_asset
pick_asset r name = find_asset r.assets name

-- The answer to a GET: an error of the round trip, or a status, what is read of the body, and whether
-- that is all of it.
pub data Answer : Type 0 where
  failed : String → Answer
  answered : ℕ → String → Bool → Answer

pub record Options : Type 0 where
  pub owner : String
  pub repo : String
  pub current_version : String
  pub goos : String
  pub goarch : String
  pub binary_path : String
  pub api_base : String

pub record Outside : Type 0 where
  pub get : String → Answer
  pub decode : String → Option Release
  pub sha256hex : String → String

infixl 1 ◌>>=◌
abbrev pub ◌>>=◌ : {A B : Type 0} → Result String A → (A → Result String B) → Result String B
◌>>=◌ (ok a) f = f a
◌>>=◌ (err e) f = err e

abbrev pub found : {A : Type 0} → String → Option A → Result String A
found missing none = err missing
found missing (some a) = ok a

module _ (out : Outside) where
  decoded : Option Release → Result String Release
  decoded none = err "github releases: разбор"
  decoded (some rel) = ok rel

  release_of : Answer → Result String Release
  unfolding decoded
  release_of (failed e) = err ("github releases: " <> e)
  release_of (answered status body whole) =
      if nat_eq status 200 then decoded (out.decode body) else err "github releases: HTTP"

  unfoldable pub fetch_latest : String → String → String → Result String Release
  unfolding release_of
  fetch_latest api_base owner repo =
      let base = if api_base == "" then "https://api.github.com" else api_base in
      release_of
        (out.get (trim_slashes base <> "/repos/" <> owner <> "/" <> repo <> "/releases/latest"))

  body_of : Answer → Result String String
  body_of (failed e) = err e
  body_of (answered status body whole) =
      if nat_eq status 200 then (if whole then ok body else err "unexpected EOF") else err "HTTP"

  unfoldable pub download : String → Result String String
  unfolding body_of
  download url = body_of (out.get url)

  unfoldable pub checked : String → String → Result String String
  checked binary want = if out.sha256hex binary == want then ok binary else err "checksum не совпал"

  -- From the release to the verified bytes of the new binary.
  unfoldable pub fetch_verified : Options → Release → Result String String
  unfolding checked
  fetch_verified opts rel =
      let name = asset_name opts.goos opts.goarch in
      found "нет артефакта" (pick_asset rel name) >>= λ bin.
      found "нет checksums.txt" (pick_asset rel "checksums.txt") >>= λ sums.
      download sums.url >>= λ raw.
      found "нет SHA256 в checksums.txt" (lookup name (parse_checksums raw)) >>= λ want.
      download bin.url >>= λ binary. checked binary want

  -- The new binary, or `none` where there is nothing to do.
  unfoldable pub wanted_binary : Options → Release → Result String (Option String)
  unfolding fetch_verified
  wanted_binary opts rel =
      if rel.version == opts.current_version
      then ok none
      else (fetch_verified opts rel >>= λ b. ok (some b))

  -- The version that was found, the error if any, and the files.
  unfoldable pub update :
      Options → Faults → String → Dict File → String × Result String (Unit {0}) × Dict File
  unfolding wanted_binary
  update opts flt tmp fs = elim (fetch_latest opts.api_base opts.owner opts.repo) [
    | err e ↦ ("", err e, fs)
    | ok rel ↦ elim (wanted_binary opts rel) [
      | err e ↦ (rel.version, err e, fs)
      | ok none ↦ (rel.version, ok tt, fs)
      | ok (some binary) ↦
          let (res, fs') = swap_binary flt opts.binary_path binary tmp fs in (rel.version, res, fs')
    ]
  ]
