-- ===== src/System/Panel.antt =====
-- The store as the interfaces of the server, as cmd/telemux/main.go puts them together in `runServe`.
use telemux.Base.{String, Bool}
use telemux.Store.{Db, is_in_recovery}
use telemux.Store.Users.{create_user, delete_user, set_expiration, set_enabled, list_users_page}
use telemux.Store.Cluster.{list_nodes, upsert_node, create_join_token, consume_join_token}
use telemux.Server.Users.{UserAdmin}
use telemux.Server.Cluster.{ClusterStore}

module _ (collates : String → String → Bool) where
  abbrev pub store_admin : UserAdmin Db
  store_admin = record {
    create_user = create_user;
    delete_user = delete_user;
    set_expiration = set_expiration;
    set_enabled = set_enabled;
    list_users_page = list_users_page collates;
    is_in_recovery = is_in_recovery;
  }

  abbrev pub store_cluster : ClusterStore Db
  store_cluster = record {
    list_nodes = list_nodes collates;
    upsert_node = upsert_node;
    create_join_token = create_join_token;
    consume_join_token = consume_join_token;
    is_in_recovery = is_in_recovery;
  }
