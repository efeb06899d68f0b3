-- ===== src/Auth/Logins.antt =====
-- `Login` of rhosus/auth/auth_creds.go: when it grants a token, and what it leaves otherwise.
use rhosus.Base.{
  ℕ, ◌*◌, String, string_key, same, Bool, true, false, none, some, [], ◌≡◌, ◌≢◌, ◌⊎◌, inl, inr,
  refl, arith, Option-cases, Bool-cases, sym, ◌∙◌, ap, Sum-cases,
}
use rhosus.Storage.Types.{Role, Token}
use rhosus.Storage.Tables.{IsTable, IsComplete, tokens_schema}
use rhosus.Storage.Tables.Insert.{IsFresh}
use rhosus.Storage.Store.{Env, Storage}
use rhosus.Storage.Store.Auth.{get_role, get_token, store_token}
use rhosus.Storage.Store.Auth.Tokens.{store_token-get_token}
use rhosus.Auth.{
  Hashing, Value, login_value, LoginRequest, LoginResponse, LoginErr, string_value, login,
  login_with, create_token, answer_token, other_value, default_token_ttl_m, refused,
}

abbrev pub granted : String → LoginResponse
granted token = record { token = token; success = true; message = "" }

-- The token of a login.
abbrev pub login_token : String → ℕ → Token
login_token token now_ms = record {
  id = token;
  accessor = token;
  ttl = default_token_ttl_m * 60000;
  creation_time = now_ms;
  policies = [];
}

abbrev success_of : LoginErr ⊎ LoginResponse → Bool
success_of (inl e) = false
success_of (inr a) = a.success

module _ {env : Env} (laws : IsTable env.tokens tokens_schema (λ t. t.id)) where
  create_token-ok :
      (token : String) (now_ms : ℕ) (s : Storage env)
      → (store_token (login_token token now_ms) s).0 ≡ none
      → create_token token (default_token_ttl_m * 60000) now_ms s
        ≡ (inr (login_token token now_ms), (store_token (login_token token now_ms) s).1)
  unfolding create_token
  create_token-ok token now_ms s stored = rw (stored, create_token) refl

  login_with-grants :
      (hashing : Hashing) (token : String) (now_ms : ℕ) (username password : String) (role : Role)
      (s : Storage env)
      → get_role username s ≡ inr (some role)
      → hashing.matches role.password password ≡ true
      → (store_token (login_token token now_ms) s).0 ≡ none
      → login_with hashing token now_ms username password s
        ≡ (inr (granted token), (store_token (login_token token now_ms) s).1)
  unfolding login_with answer_token
  login_with-grants hashing token now_ms username password role s found matches stored =
      rw (found, login_with, matches, create_token-ok token now_ms s stored, answer_token) refl

  -- Let the role be found, the password match, and the storage take the token, which is fresh. Then the
  -- login grants the token, and the token is found by its accessor.
  pub login-grants :
      (hashing : Hashing) (token : String) (now_ms : ℕ) (username password : String) (role : Role)
      (s : Storage env)
      → username ≢ ""
      → get_role username s ≡ inr (some role)
      → hashing.matches role.password password ≡ true
      → (store_token (login_token token now_ms) s).0 ≡ none
      → laws.IsIndexed s.tokens
      → IsComplete tokens_schema (login_token token now_ms)
      → IsFresh laws (login_token token now_ms) s.tokens
      → let ended =
          login hashing token now_ms
            (record { username = username; password = some (string_value password) })
            s in
        (ended.0 ≡ inr (granted token))
        × (get_token token ended.1 ≡ inr (some (login_token token now_ms)))
  unfolding login login_value
  login-grants hashing token now_ms username password role s named found matches stored indexed
        complete fresh =
      let named' : same username "" ≡ false = ground (arith, string_key.same_iff username "") in
      rw
        (
          named',
          login,
          login_with-grants hashing token now_ms username password role s found matches stored,
        )
        (refl, store_token-get_token laws (login_token token now_ms) s indexed complete fresh)

module _ {env : Env} where
  -- A login that is refused, or that failed before anything was stored.
  abbrev pub IsRefused : Storage env → (LoginErr ⊎ LoginResponse) × Storage env → Type 0
  IsRefused s ended =
      (ended.1 ≡ s) × ((answer : LoginResponse) → ended.0 ≡ inr answer → answer.success ≡ false)

  refused_lem : (message : String) (s : Storage env) → IsRefused s (inr (refused message), s)
  refused_lem message s =
      (refl, λ answer e. ap (λ (a : LoginErr ⊎ LoginResponse). success_of a) (sym e))

  failed_lem : (err : LoginErr) (s : Storage env) → IsRefused s (inl err, s)
  failed_lem err s = (refl, λ answer e. ground arith)

  login_with-refuses :
      (hashing : Hashing) (token : String) (now_ms : ℕ) (username password : String)
      (s : Storage env)
      → ((role : Role)
          → get_role username s ≡ inr (some role)
          → hashing.matches role.password password ≡ false)
      → IsRefused s (login_with hashing token now_ms username password s)
  unfolding login_with
  login_with-refuses hashing token now_ms username password s wrong =
      elim (Sum-cases (get_role username s)) [
        | inl (err, e) ↦ rw (e, login_with) (failed_lem _ s)
        | inr (found, e) ↦ elim (Option-cases found) [
          | inl missing ↦ rw (e, login_with, missing) (refused_lem _ s)
          | inr (role, there) ↦
              rw (e, login_with, there, wrong role (e ∙ ap inr there)) (refused_lem _ s)
        ]
      ]

  login_value-refuses :
      (hashing : Hashing) (token : String) (now_ms : ℕ) (username : String) (v : Value)
      (s : Storage env)
      → ((role : Role) (password : String)
          → get_role username s ≡ inr (some role)
          → v ≡ string_value password
          → hashing.matches role.password password ≡ false)
      → IsRefused s (login_value hashing token now_ms username v s)
  unfolding login_value
  login_value-refuses hashing token now_ms username other_value s wrong = failed_lem _ s
  login_value-refuses hashing token now_ms username (string_value password) s wrong =
      login_with-refuses hashing token now_ms username password s
        (λ role e. wrong role password e refl)

  -- Let no role with the name of the request match its password. Then the login stores nothing, and
  -- what it answers is not a success.
  pub login-refuses :
      (hashing : Hashing) (token : String) (now_ms : ℕ) (req : LoginRequest) (s : Storage env)
      → ((role : Role) (password : String)
          → get_role req.username s ≡ inr (some role)
          → req.password ≡ some (string_value password)
          → hashing.matches role.password password ≡ false)
      → IsRefused s (login hashing token now_ms req s)
  unfolding login
  login-refuses hashing token now_ms req s wrong = elim (Bool-cases (same req.username "")) [
    | inl unnamed ↦ rw (unnamed, login) (refused_lem _ s)
    | inr named ↦ elim (Option-cases req.password) [
      | inl missing ↦ rw (named, login, missing) (refused_lem _ s)
      | inr (v, given) ↦
          rw (named, login, given)
            (login_value-refuses hashing token now_ms req.username v s
              (λ role password found e. wrong role password found (given ∙ ap some e)))
    ]
  ]
