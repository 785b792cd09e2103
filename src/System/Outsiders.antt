-- ===== src/System/Outsiders.antt =====
-- Requests to the server from those who do not know the password of the panel.
use telemux.Base.{
  Option-cases, inl, inr, ℕ, String, Bool, true, false, ◌&&◌, Option, none, some, List, [], ◌∷◌,
  All, ◌==◌, ◌≡◌, refl, sym, ap, ◌∙◌, subst, arith, string_eq,
}
use telemux.Base.Dict.{lookup, erase}
use telemux.Auth.{Auth, Gate, passed, unauthorized, wrap, valid, me, login, logout}
use telemux.Auth
use telemux.Server.Mux.{Route, at_me, at_login, at_logout, IsSound}
use telemux.System.Http.{
  Incoming, Site, State, handler, dispatch, gated, routed, seen, to_server, served,
}
use telemux.System.Guarded.{is_open, Untouched, handler-guarded}

valid_empty : (now : ℕ) (r : Auth.Request) (a : Auth) → a.sessions ≡ [] → valid now r a ≡ (false, a)
unfolding valid lookup
valid_empty now r a h = elim (Option-cases r.cookie) [
  | inl e ↦ ground arith
  | inr (t, e) ↦ let missing : lookup t a.sessions ≡ none = ap (lookup t) h in ground arith
]

wrap_empty : (now : ℕ) (r : Auth.Request) (a : Auth) → a.sessions ≡ [] → (wrap now r a).1 ≡ a
unfolding wrap
wrap_empty now r a h = ground (arith, valid_empty now r a h)

me_empty : (now : ℕ) (r : Auth.Request) (a : Auth) → a.sessions ≡ [] → (me now r a).1 ≡ a
unfolding me
me_empty now r a h = ground (arith, valid_empty now r a h)

logout_empty : (r : Auth.Request) (a : Auth) → a.sessions ≡ [] → logout r a ≡ a
unfolding logout erase
logout_empty r a h = elim (Option-cases r.cookie) [
  | inl e ↦ ground arith
  | inr (t, e) ↦ let same : erase t a.sessions ≡ [] = ap (erase t) h in ground arith
]

-- The texts are the user and the password.
abbrev pub knows : String × String → Auth → Bool
knows (user, password) a = user == a.user && password == a.pass

login_unknown :
    (now : ℕ) (token user password : String) (a : Auth)
    → knows (user, password) a ≡ false
    → (login now token user password a).1 ≡ a
unfolding login
login_unknown now token user password a h = ground arith

module _ {N : Type 0} (site : Site N) where
  dispatch-auth :
      (r : Route) (q : Incoming) (s : State N)
      → s.auth.sessions ≡ []
      → knows (site.decoder.credentials q.body) s.auth ≡ false
      → (dispatch site r q s).1.auth ≡ s.auth
  unfolding dispatch to_server
  dispatch-auth at_me q s empty h = me_empty q.now (seen site q) s.auth empty
  dispatch-auth at_login q s empty h =
      let (user, password) = site.decoder.credentials q.body in
      login_unknown q.now q.drawn_session user password s.auth h
  dispatch-auth at_logout q s empty h = logout_empty (seen site q) s.auth empty
  dispatch-auth _ q s empty h = refl

  gated-auth :
      (g : Gate) (found : Option Route) (q : Incoming) (s : State N)
      → s.auth.sessions ≡ []
      → knows (site.decoder.credentials q.body) s.auth ≡ false
      → (gated site g found q s).1.auth ≡ s.auth
  unfolding gated routed
  gated-auth unauthorized found q s empty h = refl
  gated-auth passed none q s empty h = refl
  gated-auth passed (some r) q s empty h = dispatch-auth r q s empty h

  handler-auth :
      (q : Incoming) (s : State N)
      → s.auth.sessions ≡ []
      → knows (site.decoder.credentials q.body) s.auth ≡ false
      → (handler site q s).1.auth ≡ s.auth
  unfolding handler
  handler-auth q s empty h =
      let looked = wrap q.now (seen site q) s.auth in
      let same : looked.1 ≡ s.auth = wrap_empty q.now (seen site q) s.auth empty in
      gated-auth looked.0 (site.mux q.method q.url) q (record s { auth = looked.1 })
        (ap (λ (a : Auth). a.sessions) same ∙ empty)
        (subst (λ (a : Auth). knows (site.decoder.credentials q.body) a ≡ false) (sym same) h)
      ∙ same

  Untouched-trans : (s t u : State N) → Untouched s t → Untouched t u → Untouched s u
  Untouched-trans s t u (a, b, c, d) (a', b', c', d') = (a' ∙ a, b' ∙ b, c' ∙ c, d' ∙ d)

  -- While a password is set and nobody is logged in, requests without the user and the password,
  -- however many and in whatever order, change neither the users nor the status of the last run,
  -- wake no synchronisation, send the node nothing, and get no reply with users, roles, nodes or runs.
  pub served-outsiders :
      (qs : List Incoming) (s : State N)
      → IsSound site.mux site.path
      → s.auth.enabled ≡ true
      → s.auth.sessions ≡ []
      → All (λ q. knows (site.decoder.credentials q.body) s.auth ≡ false) qs
      → All (λ answer. is_open answer ≡ true) (served site qs s).0
        × Untouched s (served site qs s).1
  unfolding served seen
  served-outsiders [] s law on empty h = (tt, (refl, refl, refl, refl))
  served-outsiders (q ∷ qs) s law on empty (h, hs) =
      let s1 = (handler site q s).1 in
      let same = handler-auth q s empty h in
      let first =
        handler-guarded site q s law on
          (ap (λ (x : Bool × Auth). x.0) (valid_empty q.now (seen site q) s.auth empty)) in
      let rest =
        served-outsiders qs s1 law (ap (λ (a : Auth). a.enabled) same ∙ on)
          (ap (λ (a : Auth). a.sessions) same ∙ empty)
          (subst (λ (a : Auth). All (λ p. knows (site.decoder.credentials p.body) a ≡ false) qs)
            (sym same) hs) in
      ((first.0, rest.0), Untouched-trans s s1 (served site qs s1).1 first.1 rest.1)
