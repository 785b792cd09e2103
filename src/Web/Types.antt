-- ===== src/Web/Types.antt =====
-- The types of the answers, the interfaces of internal/server/web/src/api.ts, as tests of values.
use telemux.Base.{Bool, true, false, ◌&&◌}
use telemux.Web.Value.{
  Value, undefined, null, bool, num, str, obj, arr, Elements, element, no_elements, get_opt,
}

abbrev pub is_object : Value → Bool
is_object (obj _) = true
is_object _ = false

abbrev pub is_string : Value → Bool
is_string (str _) = true
is_string _ = false

abbrev pub is_number : Value → Bool
is_number (num _) = true
is_number _ = false

abbrev is_boolean : Value → Bool
is_boolean (bool _) = true
is_boolean _ = false

abbrev pub is_null : Value → Bool
is_null null = true
is_null _ = false

-- `T | null`
abbrev pub or_null : (Value → Bool) → Value → Bool
or_null p null = true
or_null p v = p v

-- `?: T`
abbrev optional : (Value → Bool) → Value → Bool
optional p undefined = true
optional p v = p v

-- `T[]`
abbrev pub every : (Value → Bool) → Elements → Bool
every p no_elements = true
every p (element v vs) = p v && every p vs

abbrev pub is_array_of : (Value → Bool) → Value → Bool
is_array_of p (arr vs) = every p vs
is_array_of p _ = false

abbrev pub is_role : Value → Bool
is_role v = is_object v && is_string (get_opt v "role") && is_boolean (get_opt v "is_master")

-- What `me` and `version` of `api` declare.
abbrev pub is_me : Value → Bool
is_me v = is_object v && is_boolean (get_opt v "auth_enabled") && is_boolean (get_opt v "authed")

abbrev pub is_version : Value → Bool
is_version v = is_object v && is_string (get_opt v "version")

abbrev pub is_sync_status : Value → Bool
is_sync_status v =
    is_object v
    && is_string (get_opt v "at")
    && is_string (get_opt v "mode")
    && is_number (get_opt v "creates")
    && is_number (get_opt v "patches")
    && is_number (get_opt v "deletes")
    && is_number (get_opt v "applied")
    && is_number (get_opt v "failed")
    && is_boolean (get_opt v "aborted")
    && optional is_string (get_opt v "error")

abbrev pub is_node : Value → Bool
is_node v =
    is_object v
    && is_string (get_opt v "code")
    && is_string (get_opt v "name")
    && is_string (get_opt v "address")
    && is_string (get_opt v "telemt_api_url")
    && is_string (get_opt v "role")
    && is_boolean (get_opt v "enabled")
    && or_null is_string (get_opt v "last_seen_at")

abbrev pub is_user : Value → Bool
is_user v =
    is_object v
    && is_string (get_opt v "username")
    && is_string (get_opt v "secret")
    && or_null is_string (get_opt v "expiration_at")
    && or_null is_number (get_opt v "max_tcp_conns")
    && is_boolean (get_opt v "enabled")
    && is_string (get_opt v "created_at")

abbrev pub is_paging : Value → Bool
is_paging v =
    is_object v
    && is_number (get_opt v "total")
    && is_number (get_opt v "limit")
    && is_number (get_opt v "offset")
