-- ===== src/Tests/AuthRuns.antt =====
-- A day of the panel: a login, a wrong login, requests, a logout.
use telemux.Base.{string_eq, ◌≡◌, arith, List, [], ◌∷◌, some}
use telemux.Auth.{is_public, Request, passed, wrap}
use telemux.Auth.History.{Happening, logs_in, asks, replay, InOrder, wrap-replay}

abbrev ask : Request
ask = record { path = "/api/users"; cookie = some "t1" }

abbrev day : List Happening
day = asks 200 ask ∷ logs_in 150 "t2" "admin" "wrong" ∷ logs_in 100 "t1" "admin" "secret" ∷ []

abbrev in_order : InOrder 300 day
in_order = (omega arith, (omega arith, (omega arith, tt)))

wrap-replay_example : (wrap 300 ask (replay "" "secret" day)).0 ≡ passed
unfolding is_public string_eq
wrap-replay_example = wrap-replay "" "secret" 300 ask day in_order
