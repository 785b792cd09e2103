-- ===== src/Role.antt =====
-- The role of a node, internal/role/role.go. The check of the local PostgreSQL is its argument.
use telemux.Base.{Bool, true, false, String, Result, ok, err}

pub data Role : Type 0 where
  master replica : Role

-- The texts of the two constants.
abbrev pub role_text : Role → String
role_text master = "master"
role_text replica = "replica"

unfoldable pub is_master : Role → Bool
is_master master = true
is_master replica = false

-- `c.IsInRecovery` is given by its answer.
unfoldable pub detect : Result String Bool → Result String Role
detect (err e) = err e
detect (ok true) = ok replica
detect (ok false) = ok master
