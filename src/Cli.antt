-- ===== src/Cli.antt =====
-- The commands of cmd/telemux/main.go that end by themselves: what they do and their exit codes.
-- The package `flag` is given by what it reads, `none` for an error, and opening the database and
-- finding the binary by their errors. What is printed is left out.
pub mod Exits
use telemux.Base.{
  ℕ, String, Bool, true, false, ◌&&◌, Option, none, some, List, [], ◌∷◌, not, ◌||◌, Result, ok, err,
  ◌==◌, string_eq, if◌then◌else◌, ltb,
}
use telemux.Base.Int.{ℤ, pos}
use telemux.Role.{Role, detect}
use telemux.Diff.{RemoteUser, Options}
use telemux.Diff.Safety.{Float64}
use telemux.Sync.{
  DesiredSource, NodeApi, Mode, shadow, apply, SyncResult, SyncError, fresh_result, attempt,
  attempts, max_retry, sync_node,
}
use telemux.Sync

-- `envOr`, with `os.Getenv`.
unfoldable pub env_or : (String → String) → String → String → String
env_or env key default = let v = env key in if not (v == "") then v else default

-- The commands, each with the arguments that are left.
pub data Command : Type 0 where
  probe role sync update serve : List String → Command
  shows_version shows_usage : Command

-- The `switch` of `main`.
unfoldable pub command_of : String → List String → Command
command_of cmd rest =
    if cmd == "probe"
    then probe rest
    else if cmd == "role"
    then role rest
    else if cmd == "sync"
    then sync rest
    else if cmd == "update"
    then update rest
    else if cmd == "serve"
    then serve rest
    else if cmd == "-version" || cmd == "--version" || cmd == "version"
    then shows_version
    else shows_usage

-- `main`, with `os.Args`: no command at all is one with no name.
unfoldable pub main : List String → Command
unfolding command_of
main (program ∷ cmd ∷ rest) = command_of cmd rest
main _ = command_of "" []

pub record SyncFlags : Type 0 where
  pub apply : Bool
  pub force : Bool

unfoldable pub mode_of : Bool → Mode
mode_of true = apply
mode_of false = shadow

-- What is left of `runSync` after the run.
unfoldable pub sync_exit : Bool → SyncResult → Option SyncError → ℕ
sync_exit applies res (some e) = 1
sync_exit applies res none = if res.aborted then 1 else if applies && ltb 0 res.failed then 1 else 0

module _ (f : Float64) where
  -- Fields that are not given are zero.
  unfoldable pub sync_options : SyncFlags → Sync.Options f
  unfolding mode_of
  sync_options flags = record {
    mode = mode_of flags.apply;
    mass_delete = record {
      options = record { managed_prefix = "" };
      fraction_threshold = f.zero_float;
      min_deletes = pos 0;
    };
    force = flags.force;
    max_conflict_retries = pos 0;
  }

module _ (parse_time : String → Option ℕ) (f : Float64) {W : Type 0} where
  -- `runSync`
  unfoldable pub sync_command :
      NodeApi W → DesiredSource W → Option SyncFlags → Option String → W → ℕ × W
  unfolding sync_options sync_exit
  sync_command node source none unopened w = (2, w)
  sync_command node source (some flags) (some e) w = (1, w)
  sync_command node source (some flags) none w =
      let (res, error, w') = sync_node parse_time f node source (sync_options f flags) w in
      (sync_exit flags.apply res error, w')

-- `runRole`, with the answer of the database.
unfoldable pub role_command : Bool → Option String → Result String Bool → ℕ
role_command false unopened answer = 2
role_command true (some e) answer = 1
role_command true none answer = elim (detect answer) [ err e ↦ 1 | ok r ↦ 0 ]

-- `runProbe`: health first, then the users.
unfoldable pub probe_command :
    {H W : Type 0}
    → Bool
    → (W → Result String H × W)
    → (W → Result String (List RemoteUser × String) × W)
    → W
    → ℕ × W
probe_command false health list_users w = (2, w)
probe_command true health list_users w =
    let (found, w1) = health w in
    elim found [
      | err e ↦ (1, w1)
      | ok h ↦ let (listed, w2) = list_users w1 in elim listed [ err e ↦ (1, w2) | ok us ↦ (0, w2) ]
    ]

-- `runUpdate` after `selfupdate.Update`.
unfoldable pub update_exit : Bool → Option String → Result String (Unit {0}) → ℕ
update_exit false no_path answer = 2
update_exit true (some e) answer = 1
update_exit true none (err e) = 1
update_exit true none (ok _) = 0
