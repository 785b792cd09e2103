-- ===== src/Web/Settled.antt =====
-- What a promise of `j` in internal/server/web/src/api.ts settles to, when the answer is JSON of a type
-- or carries the text of an error.
use telemux.Base.{
  ℕ, String, Bool, true, false, ◌&&◌, not, none, some, Result, ok, err, ◌≡◌, ◌⊎◌, inl, inr, refl,
  arith, if◌then◌else◌, nat_eq, Option-cases, Bool-cases, string_eq,
}
use telemux.Web.Value.{Value, undefined, null, bool, num, str, obj, arr, get, get_opt}
use telemux.Web.Types.{is_string}
use telemux.Web.Api.{Response, is_ok, response, j, error_message}

-- A success with a value of a type, or another status with the text of an error.
unfoldable pub answers_as : (Value → Bool) → Response → Bool
answers_as p r = elim r.body [
  | none ↦ false
  | some v ↦ if is_ok r then not (nat_eq r.status 204) && p v else is_string (get_opt v "error")
]

-- The promise comes to a value of a type, or is rejected with the error that the answer names.
abbrev pub Settles : (Value → Bool) → Response → Result String Value → Type 0
Settles p r settled =
    ((v : Value) × (settled ≡ ok v) × (p v ≡ true))
    ⊎ ((e : String) × (settled ≡ err e)
        × ((b : Value) × (r.body ≡ some b) × (get_opt b "error" ≡ str e)))

string_there : (v : Value) → is_string v ≡ true → (s : String) × (v ≡ str s)
string_there (str s) h = (s, refl)
string_there undefined h = absurd (ground arith)
string_there null h = absurd (ground arith)
string_there (bool b) h = absurd (ground arith)
string_there (num n) h = absurd (ground arith)
string_there (obj fs) h = absurd (ground arith)
string_there (arr vs) h = absurd (ground arith)

get_there : (b : Value) (k s : String) → get_opt b k ≡ str s → get b k ≡ ok (str s)
unfolding get get_opt
get_there (obj fs) k s h = ground arith
get_there (str _) k s h = absurd (ground arith)
get_there undefined k s h = absurd (ground arith)
get_there null k s h = absurd (ground arith)
get_there (bool _) k s h = absurd (ground arith)
get_there (num _) k s h = absurd (ground arith)
get_there (arr _) k s h = absurd (ground arith)

module _ (show : ℕ → String) (to_text : Value → String) where
  error_message_there :
      (r : Response) (b : Value) (s : String)
      → r.body ≡ some b
      → get_opt b "error" ≡ str s
      → error_message show to_text r ≡ s
  unfolding error_message
  error_message_there r b s there h = rw (there, error_message) (rw (get_there b "error" s h) refl)

  -- A success comes to a value.
  pub j-is_ok :
      (p : Value → Bool) (r : Response)
      → answers_as p r ≡ true
      → is_ok r ≡ true
      → (v : Value) × (j show to_text (response r) ≡ ok v)
  unfolding answers_as j
  j-is_ok p r h good = elim (Option-cases r.body) [
    | inl e ↦ absurd (ground arith)
    | inr (b, e) ↦ (b, ground arith)
  ]

  pub j-answers_as :
      (p : Value → Bool) (r : Response)
      → answers_as p r ≡ true
      → Settles p r (j show to_text (response r))
  unfolding answers_as j
  j-answers_as p r h = elim (Option-cases r.body) [
    | inl e ↦ absurd (ground arith)
    | inr (b, e) ↦ elim (Bool-cases (is_ok r)) [
      | inl good ↦ inl (b, ground arith, ground arith)
      | inr bad ↦
          let (x, named) = string_there (get_opt b "error") (ground arith) in
          inr (x, ground (arith, error_message_there r b x e named), (b, e, named))
    ]
  ]
