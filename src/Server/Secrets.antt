-- ===== src/Server/Secrets.antt =====
-- Who may call the machine routes of the cluster.
use telemux.Base.{
  ◌&&◌, not, ◌||◌, String, ◌<>◌, Bool, true, false, Option, none, some, ◌==◌, string_eq, ◌≡◌, ◌⊎◌,
  inl, inr, arith, starts_with, Bool-cases, ap, ◌∙◌, sym,
}
use telemux.Base.Prefixes.{append_cancel}
use Prim.Native.String.{len, slice}
use text.Mathlib.TextEquality.{starts_with_iff}
use text.Mathlib.TextPositions.{slice-append_right, starts_with-append, len-append}
use telemux.Server.Cluster.{
  ClusterStore, Deps, trim_prefix, cluster_authed, Request, lists, beats, asks_token, joins,
  refused, serve,
}

trim_prefix-append : (p s : String) → trim_prefix (p <> s) p ≡ s
unfolding trim_prefix
trim_prefix-append p s =
    let starts = starts_with-append p s in
    let sliced : slice (p <> s) (len p) (len (p <> s)) ≡ s =
      ap (slice (p <> s) (len p)) (len-append p s) ∙ slice-append_right p s in
    ground arith

trim_prefix_lem :
    (s p : String)
    → ((starts_with s p ≡ true) × (s ≡ p <> trim_prefix s p))
      ⊎ ((starts_with s p ≡ false) × (trim_prefix s p ≡ s))
trim_prefix_lem s p = elim (Bool-cases (starts_with s p)) [
  | inl starts ↦
      let (rest, e) = (starts_with_iff s p).0 starts in
      inl (
        starts,
        sym e ∙ ap (λ u. p <> u) (sym (trim_prefix-append p rest) ∙ ap (λ u. trim_prefix u p) e),
      )
  | inr starts ↦ inr (starts, unfold trim_prefix in ground arith)
]

-- The header that a request brings, where the route looks at it.
abbrev pub header_of : Request → Option String
header_of lists = none
header_of (beats h body) = some h
header_of (asks_token h drawn) = some h
header_of (joins t) = none

-- The header is the secret, with or without the word Bearer.
abbrev pub carries : String → String → Bool
carries secret h = h == "Bearer " <> secret || (h == secret && not (starts_with h "Bearer "))

-- The secret that is not empty is asked for, with or without the word Bearer.
cluster_authed-carries :
    (secret h : String) → cluster_authed secret h ≡ (not (secret == "") && carries secret h)
unfolding cluster_authed
cluster_authed-carries secret h =
    let trimmed = trim_prefix-append "Bearer " secret in
    let starts = starts_with-append "Bearer " secret in
    elim (trim_prefix_lem h "Bearer ") [
      | inl (begins, e) ↦ ground (arith, append_cancel "Bearer " (trim_prefix h "Bearer ") secret)
      | inr (e, same) ↦ ground arith
    ]

module _ (deps : Deps) {W : Type 0} (cluster : ClusterStore W) where
  -- A heartbeat or a request for a token is refused with 401 and reaches nothing, unless a secret is
  -- set and the header is that secret, after the word Bearer or without it.
  pub serve-refused :
      (r : Request) (h : String) (w : W)
      → header_of r ≡ some h
      → (not (deps.cluster_secret == "") && carries deps.cluster_secret h) ≡ false
      → serve deps cluster r w ≡ (refused 401 "неверный cluster-secret", w)
  unfolding serve
  serve-refused lists h w e lacks = ground arith
  serve-refused (beats g body) h w e lacks =
      ground (arith, cluster_authed-carries deps.cluster_secret h)
  serve-refused (asks_token g drawn) h w e lacks =
      ground (arith, cluster_authed-carries deps.cluster_secret h)
  serve-refused (joins t) h w e lacks = ground arith
