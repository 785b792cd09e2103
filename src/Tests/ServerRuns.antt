-- ===== src/Tests/ServerRuns.antt =====
-- Routes that write, on a master and on a replica with the store.
use telemux.Store.Refines
use telemux.Store.Refines.{Statement, inserts, IsReady, IsAdmissible, view}
use telemux.System.Commands.Statements.{answered}
use telemux.System.Commands.{handle-respond}
use telemux.Server.Writes.{handle-replica, is_success}
use telemux.Store.{is_in_recovery, select, Db}
use telemux.Server.Users.{deletes, Write, creates, handle, UserAdmin}
use telemux.Base.{
  String, ap, if◌then◌else◌, none, some, ok, [], ◌∷◌, ◌==◌, refl, ◌≡◌, false, true, arith,
  string_eq, ◌+◌, length, ◌≢◌, Bool, Result,
}
use telemux.Tests.StoreRuns.{db-IsUnique, db, text_order}
use telemux.Server.Routes.{Server}
use telemux.Server.Runs.{SyncStatus, run_sync}
use telemux.Tests.SyncRuns.{World, node, source, disturbed}
use telemux.Tests.Samples.{parse_sample, fractions, run_options}
use telemux.Sync.{apply, sync_node}
use telemux.Base.Int.{pos}
use telemux.Server.Statuses.{how_many, is_create, is_patch, is_delete, run_sync_lem}
use telemux.Server.Cluster.{Deps, asks_token, serve, refused}
use telemux.Server.Secrets.{serve-refused}
use telemux.System.Panel.{store_cluster, store_admin}

abbrev admin : UserAdmin Db
admin = store_admin text_order

abbrev replica : Db
replica = record db { is_replica = true }

replica_refuses : ◌≢◌ {A = Result String Bool} (ok true) (ok false)
replica_refuses e = ground arith

handle-replica_example :
    ((handle admin (deletes "sub_b") false replica).1 ≡ false)
    × ((handle admin (deletes "sub_b") false replica).2 ≡ replica)
    × (is_success (handle admin (deletes "sub_b") false replica).0 ≡ false)
unfolding is_in_recovery select
handle-replica_example = handle-replica admin (deletes "sub_b") false replica replica_refuses

run_sync_lem_example :
    let (res, error, w') =
      sync_node parse_sample fractions node source (run_options apply (pos 0)) disturbed in
    let st =
      (run_sync parse_sample fractions node source (run_options apply (pos 0)) 7 disturbed).0 in
    (st.creates ≡ how_many is_create res.ops)
    × (st.patches ≡ how_many is_patch res.ops)
    × (st.deletes ≡ how_many is_delete res.ops)
    × (st.creates + st.patches + st.deletes ≡ length res.ops)
    × (st.at ≡ 7)
    × (st.mode ≡ apply)
    × (st.applied ≡ res.applied)
    × (st.failed ≡ res.failed)
    × (st.aborted ≡ res.aborted)
    × (st.error ≡ error)
run_sync_lem_example =
    run_sync_lem parse_sample fractions node source (run_options apply (pos 0)) 7 disturbed

abbrev pub deps : Deps
deps = record {
  version = "v1.2.3";
  cluster_secret = "s3cret";
  public_url = "https://panel";
  self_code = "n1";
  self_address = "10.0.0.1";
  self_telemt_url = "http://127.0.0.1:9091";
  master_url = "";
}

serve-refused_example :
    serve deps (store_cluster text_order) (asks_token "Bearer wrong" (ok "t2")) db
    ≡ (refused 401 "неверный cluster-secret", db)
unfolding string_eq
serve-refused_example =
    serve-refused deps (store_cluster text_order) (asks_token "Bearer wrong" (ok "t2"))
      "Bearer wrong" db refl refl

abbrev pub quiet_status : SyncStatus
quiet_status = record {
  at = 0;
  mode = apply;
  creates = 0;
  patches = 0;
  deletes = 0;
  applied = 0;
  failed = 0;
  aborted = false;
  error = none;
}

abbrev monitored : Server World
monitored = record { last_sync = quiet_status; world = disturbed }

abbrev primary_answers : World → Result String Bool × World
primary_answers w = (ok false, w)

-- A user is created without a secret; the next random one is drawn.
abbrev issuing : Db
issuing = record db { draws = ok "ff" ∷ [] }

abbrev newcomer : Write
newcomer =
    creates (
      some (record { username = "sub_c"; secret = ""; expiration_at = none; max_tcp_conns = none }))

abbrev insertion : Statement
insertion = inserts "sub_c" "ff" none none

issuing-IsReady : IsReady issuing
issuing-IsReady = record { primary = refl; calm = refl; once = db-IsUnique }

insertion-IsAdmissible : IsAdmissible insertion
unfolding string_eq
insertion-IsAdmissible = (
  λ e. let wrong : false ≡ true = ap (λ (t : String). t == "") e in absurd (ground (arith, wrong)),
  λ e. let wrong : false ≡ true = ap (λ (t : String). t == "") e in absurd (ground (arith, wrong)),
  refl,
)

handle-respond_example :
    ((handle (store_admin text_order) newcomer false issuing).0
      ≡ (answered (Refines.respond insertion issuing.now (view issuing)).0).0)
    × ((handle (store_admin text_order) newcomer false issuing).1 ≡ (
        if (answered (Refines.respond insertion issuing.now (view issuing)).0).1
        then true
        else false))
    × ((k : String)
        → view (handle (store_admin text_order) newcomer false issuing).2 k
          ≡ (Refines.respond insertion issuing.now (view issuing)).2 k)
    × IsReady (handle (store_admin text_order) newcomer false issuing).2
unfolding string_eq
handle-respond_example =
    handle-respond text_order newcomer false issuing insertion issuing-IsReady refl
      insertion-IsAdmissible
