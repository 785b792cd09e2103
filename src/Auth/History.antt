-- ===== src/Auth/History.antt =====
-- The session table against the history of what happened to the panel.
use telemux.Base.{
  ℕ, ◌+◌, ◌≤◌, ◌<◌, String, Bool, false, ◌&&◌, ◌||◌, not, Option, none, some, List, [], ◌∷◌, ◌==◌,
  string_eq, leb, if◌then◌else◌, ◌≡◌, ◌⊎◌, inl, inr, arith, Option-cases,
}
use telemux.Base.Dict.{lookup, lookup-insert, lookup-erase, lookup-nil}
use telemux.Auth.{Auth, Request, new_auth, is_public, passed, unauthorized, wrap, login, logout}

-- What can happen, each with its time: a login with the token drawn for it, a logout, and a
-- request that meets the middleware.
pub data Happening : Type 0 where
  logs_in : ℕ → String → String → String → Happening
  logs_out : ℕ → Request → Happening
  asks : ℕ → Request → Happening

abbrev pub time : Happening → ℕ
time (logs_in t _ _ _) = t
time (logs_out t _) = t
time (asks t _) = t

abbrev apply : Happening → Auth → Auth
apply (logs_in t token user pass) a = (login t token user pass a).1
apply (logs_out t r) a = logout r a
apply (asks t r) a = (wrap t r a).1

-- No happening is later than the one after it, and none is later than `now`.
abbrev pub InOrder : ℕ → List Happening → Type 0
InOrder now [] = Unit
InOrder now (e ∷ es) = (time e ≤ now) × InOrder (time e) es

-- The latest happening comes first.
module _ (user pass : String) where
  abbrev pub replay : List Happening → Auth
  replay [] = new_auth user pass
  replay (e ∷ es) = apply e (replay es)

  abbrev wanted_user : String
  wanted_user = if user == "" then "admin" else user

  abbrev ends_session : String → Option String → Bool
  ends_session token none = false
  ends_session token (some c) = token == c

  -- When the session of a token ends, by the latest login or logout with that token.
  abbrev pub session_of : String → List Happening → Option ℕ
  session_of token [] = none
  session_of token (logs_in t token' u p ∷ es) =
      if token == token' && (u == wanted_user && p == pass && not (pass == ""))
      then some (t + 86400)
      else session_of token es
  session_of token (logs_out t r ∷ es) =
      if ends_session token r.cookie then none else session_of token es
  session_of token (asks t r ∷ es) = session_of token es

  abbrev unexpired : ℕ → Option ℕ → Bool
  unexpired now none = false
  unexpired now (some end) = leb now end

  abbrev in_session : ℕ → Option String → List Happening → Bool
  in_session now none es = false
  in_session now (some token) es = unexpired now (session_of token es)

  -- Whether a request may pass, by the history alone.
  abbrev pub may_pass : ℕ → Request → List Happening → Bool
  may_pass now r es = pass == "" || is_public r.path || in_session now r.cookie es

  fixed :
      (es : List Happening)
      → ((replay es).user ≡ wanted_user)
        × ((replay es).pass ≡ pass)
        × ((replay es).enabled ≡ not (pass == ""))
        × ((replay es).ttl ≡ 86400)
  unfolding new_auth login logout wrap
  fixed [] = ground arith
  fixed (logs_in t token u p ∷ es) = ground (arith, fixed es)
  fixed (logs_out t r ∷ es) = ground (arith, fixed es)
  fixed (asks t r ∷ es) = ground (arith, fixed es)

  -- The table holds the session of the history, or has dropped it after its end.
  abbrev Holds : ℕ → Option ℕ → Option ℕ → Type 0
  Holds now held real =
      (held ≡ real) ⊎ ((held ≡ none) × ((end : ℕ) × (real ≡ some end) × (end < now)))

  Holds-later :
      (t now : ℕ) (held real : Option ℕ) → t ≤ now → Holds t held real → Holds now held real
  Holds-later t now held real le (inl e) = inl e
  Holds-later t now held real le (inr (e, (end, same, over))) = inr (e, (end, same, omega arith))

  login-Holds :
      (now t : ℕ) (token token' u p : String) (a : Auth) (real : Option ℕ)
      → a.user ≡ wanted_user
      → a.pass ≡ pass
      → a.enabled ≡ not (pass == "")
      → a.ttl ≡ 86400
      → Holds now (lookup token a.sessions) real
      → Holds now (lookup token (login t token' u p a).1.sessions) (
          if token == token' && (u == wanted_user && p == pass && not (pass == ""))
          then some (t + 86400)
          else real)
  unfolding login
  login-Holds now t token token' u p a real hu hp he ht h =
      ground (arith, lookup-insert token token' (t + a.ttl) a.sessions)

  logout-Holds :
      (now : ℕ) (token : String) (r : Request) (a : Auth) (real : Option ℕ)
      → Holds now (lookup token a.sessions) real
      → Holds now
          (lookup token (logout r a).sessions)
          (if ends_session token r.cookie then none else real)
  unfolding logout
  logout-Holds now token r a real h = elim (Option-cases r.cookie) [
    | inl no_cookie ↦ rw (no_cookie, logout) h
    | inr (c, e) ↦ rw (e, logout) (ground (arith, lookup-erase token c a.sessions))
  ]

  wrap-Holds :
      (now t : ℕ) (token : String) (r : Request) (a : Auth) (real : Option ℕ)
      → t ≤ now
      → Holds now (lookup token a.sessions) real
      → Holds now (lookup token (wrap t r a).1.sessions) real
  unfolding wrap
  wrap-Holds now t token r a real le h = elim (Option-cases r.cookie) [
    | inl no_cookie ↦ ground arith
    | inr (c, e) ↦ ground (arith, lookup-erase token c a.sessions)
  ]

  replay-Holds :
      (now : ℕ) (es : List Happening) (token : String)
      → InOrder now es
      → Holds now (lookup token (replay es).sessions) (session_of token es)
  replay-Holds now [] token h = inl (unfold new_auth in lookup-nil token)
  replay-Holds now (logs_in t token' u p ∷ es) token h =
      let (hu, hp, he, ht) = fixed es in
      login-Holds now t token token' u p (replay es) (session_of token es) hu hp he ht
        (Holds-later t now _ _ h.0 (replay-Holds t es token h.1))
  replay-Holds now (logs_out t r ∷ es) token h =
      logout-Holds now token r (replay es) (session_of token es)
        (Holds-later t now _ _ h.0 (replay-Holds t es token h.1))
  replay-Holds now (asks t r ∷ es) token h =
      wrap-Holds now t token r (replay es) (session_of token es) h.0
        (Holds-later t now _ _ h.0 (replay-Holds t es token h.1))

  -- The middleware lets a request pass exactly when the panel has no password, the path is public,
  -- or the latest login or logout with the cookie's token was a login, with the right name and
  -- password, not more than 24 hours ago; else it answers 401. The clock does not go backwards.
  pub wrap-replay :
      (now : ℕ) (r : Request) (es : List Happening)
      → InOrder now es
      → (wrap now r (replay es)).0 ≡ (if may_pass now r es then passed else unauthorized)
  unfolding wrap
  wrap-replay now r es h = elim (Option-cases r.cookie) [
    | inl no_cookie ↦ ground (arith, fixed es)
    | inr (c, e) ↦ ground (arith, fixed es, replay-Holds now es c h)
  ]
