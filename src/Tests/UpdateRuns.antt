-- ===== src/Tests/UpdateRuns.antt =====
-- An update from a release with one binary, and the disk before and after.
use telemux.Base.{
  ap, ◌≡◌, ◌≢◌, ◌⊎◌, refl, true, false, none, some, ok, String, ◌<>◌, arith, ◌==◌, string_eq, [],
  ◌∷◌, if◌then◌else◌,
}
use telemux.Base.Dict.{Dict, lookup, insert, erase}
use telemux.Update.Files.{File, Faults, swap_binary, rollback, rename, fill, place}
use telemux.Update.Swap.{swap_binary_lem, is_ok}
use telemux.Update.Back.{rollback-swap_binary}
use telemux.Update.Checksums.{parse_checksums}
use telemux.Update.Run.{answered, Release, Options, Outside, fetch_latest, update}
use telemux.Update.Verified.{update-IsVerified, IsVerified}

checksums_parsed :
    parse_checksums "AB12  telemux_linux_amd64\r\n\nonly\ncd34 *x y z\n"
    ≡ (("telemux_linux_amd64", "ab12") ∷ ("z", "cd34") ∷ [])
unfolding parse_checksums insert string_eq
checksums_parsed = refl

abbrev quiet : Faults
quiet = record {
  create = false;
  write = false;
  written = "";
  close = false;
  chmod = false;
  backup = false;
  place = false;
  restore = false;
  remove = false;
}

abbrev old : File
old = record { content = "v1"; executable = true }

abbrev disk : Dict File
disk = ("/bin/telemux", old) ∷ []

there : lookup "/bin/telemux" disk ≡ some old
unfolding lookup string_eq
there = refl

fresh : ◌≢◌ {A = String} "/bin/.telemux-new-1" "/bin/telemux"
unfolding string_eq
fresh e = ground (arith, ap (λ s. s == "/bin/telemux") e)

newer : ◌≢◌ {A = String} "v2" "v1"
unfolding string_eq
newer e = ground (arith, ap (λ s. s == "v1") e)

fresh_bak : "/bin/.telemux-new-1" ≢ "/bin/telemux" <> ".bak"
unfolding string_eq
fresh_bak e = ground (arith, ap (λ s. s == "/bin/telemux.bak") e)

swap_binary_lem_example :
    (lookup "/bin/telemux" (swap_binary quiet "/bin/telemux" "v2" "/bin/.telemux-new-1" disk).1
      ≡ some (record { content = "v2"; executable = true }))
    × (lookup "/bin/telemux.bak"
          (swap_binary quiet "/bin/telemux" "v2" "/bin/.telemux-new-1" disk).1
        ≡ some old)
    × (is_ok (swap_binary quiet "/bin/telemux" "v2" "/bin/.telemux-new-1" disk).0 ≡ true)
swap_binary_lem_example =
    swap_binary_lem quiet "/bin/telemux" "v2" "/bin/.telemux-new-1" disk old there fresh fresh_bak

swapped : (swap_binary quiet "/bin/telemux" "v2" "/bin/.telemux-new-1" disk).0 ≡ ok tt
unfolding swap_binary fill place rename lookup insert erase string_eq
swapped = refl

rollback-swap_binary_example :
    ((rollback false "/bin/telemux"
        (swap_binary quiet "/bin/telemux" "v2" "/bin/.telemux-new-1" disk).1).0
      ≡ ok tt)
    × (lookup "/bin/telemux"
          (rollback false "/bin/telemux"
            (swap_binary quiet "/bin/telemux" "v2" "/bin/.telemux-new-1" disk).1).1
        ≡ some old)
    × (lookup "/bin/telemux.bak"
          (rollback false "/bin/telemux"
            (swap_binary quiet "/bin/telemux" "v2" "/bin/.telemux-new-1" disk).1).1
        ≡ none)
rollback-swap_binary_example =
    rollback-swap_binary quiet "/bin/telemux" "v2" "/bin/.telemux-new-1" disk old there fresh
      fresh_bak swapped refl

abbrev github : Outside
github = record {
  get = λ url.
      if url == "sums"
      then answered 200 "AB12  telemux_linux_amd64\n" true
      else if url == "bin"
      then answered 200 "v2" true
      else answered 200 "{}" true;
  decode = λ body. some (record {
    version = "v2";
    assets =
        record { name = "telemux_linux_amd64"; url = "bin" }
        ∷ record { name = "checksums.txt"; url = "sums" }
        ∷ [];
  });
  sha256hex = λ bytes. if bytes == "v2" then "ab12" else "ff00";
}

abbrev settings : Options
settings = record {
  owner = "AndreyOsipuk";
  repo = "telemux";
  current_version = "v1";
  goos = "linux";
  goarch = "amd64";
  binary_path = "/bin/telemux";
  api_base = "";
}

update-IsVerified_example :
    ((update github settings quiet "/bin/.telemux-new-1" disk).2 ≡ disk)
    ⊎ ((rel : Release) × (binary : String) × (fetch_latest github "" "AndreyOsipuk" "telemux"
          ≡ ok rel)
        × (rel.version ≢ "v1")
        × IsVerified github settings rel binary
        × ((update github settings quiet "/bin/.telemux-new-1" disk).2
            ≡ (swap_binary quiet "/bin/telemux" binary "/bin/.telemux-new-1" disk).1))
update-IsVerified_example = update-IsVerified github settings quiet "/bin/.telemux-new-1" disk
