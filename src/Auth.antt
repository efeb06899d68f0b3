-- ===== src/Auth.antt =====
-- rhosus/auth: roles, tokens and the login. The hash of passwords (bcrypt), the identifiers and the
-- clocks are arguments.
pub mod Expiry
pub mod Logins
mod Tests
use rhosus.Base.{
  ℕ, ◌+◌, ◌*◌, String, string_key, same, Bytes, Bool, true, false, Option, none, some, List, [],
  ◌∷◌, ◌⊎◌, inl, inr, ltb, if◌then◌else◌,
}
use rhosus.Storage.Types.{Err, wrapped, Role, Token}
use rhosus.Storage.Store.{Env, Storage}
use rhosus.Storage.Store.Auth.{
  store_role, get_role, store_token, get_token, list_tokens, revoke_token,
}

-- bcrypt.GenerateFromPassword and bcrypt.CompareHashAndPassword
pub record Hashing : Type 0 where
  pub generate : String → Err ⊎ Bytes
  pub matches : Bytes → String → Bool

-- The value of `req.Data["password"]`, an interface.
pub data Value : Type 0 where
  string_value : String → Value
  other_value : Value

pub record LoginRequest : Type 0 where
  pub username : String
  pub password : Option Value

pub record LoginResponse : Type 0 where
  pub token : String
  pub success : Bool
  pub message : String

pub data LoginErr : Type 0 where
  invalid_password_parameter : LoginErr
  role_err token_err : Err → LoginErr

abbrev pub default_token_ttl_m : ℕ
default_token_ttl_m = 30

abbrev pub refused : String → LoginResponse
refused message = record { token = ""; success = false; message = message }

module _ {env : Env} where
  -- `CreateRole`
  pub create_role :
      Hashing → String → String → String → List String → Storage env → (Err ⊎ Role) × Storage env
  create_role hashing id name password perms s = elim (hashing.generate password) [
    | inl e ↦ (inl e, s)
    | inr hash ↦
        let role : Role = record { id = id; name = name; permissions = perms; password = hash } in
        let (err, s') = store_role role s in
        elim err [ some e ↦ (inl e, s') | none ↦ (inr role, s') ]
  ]

  -- `CreateToken`, with the generated token, its time to live and the time, both in milliseconds.
  pub create_token : String → ℕ → ℕ → Storage env → (Err ⊎ Token) × Storage env
  create_token token ttl_ms now_ms s =
      let t : Token = record {
        id = token;
        accessor = token;
        ttl = ttl_ms;
        creation_time = now_ms;
        policies = [];
      } in
      let (err, s') = store_token t s in elim err [ some e ↦ (inl e, s') | none ↦ (inr t, s') ]

  -- The loop of `watchForTokensExpiration` over the tokens; the clock is in seconds.
  pub expire : ℕ → List Token → Storage env → Storage env
  expire now_s [] s = s
  expire now_s (t ∷ ts) s =
      expire now_s ts (if ltb (t.ttl + t.creation_time) now_s then (revoke_token t s).1 else s)

  -- A tick of `watchForTokensExpiration`
  pub watch_for_tokens_expiration : ℕ → Storage env → Storage env
  unfolding expire
  watch_for_tokens_expiration now_s s = elim (list_tokens s) [
    | inl e ↦ s
    | inr ts ↦ expire now_s ts s
  ]

  -- `TokenStore.RevokeToken`; the outer none is the panic on a token that is not there.
  pub revoke_by_accessor : String → Storage env → Option (Option Err × Storage env)
  revoke_by_accessor accessor s = elim (get_token accessor s) [
    | inl e ↦ some (some (wrapped e), s)
    | inr found ↦ elim found [ none ↦ none | some t ↦ some (revoke_token t s) ]
  ]

  -- The answer for a token that was made, or not.
  pub answer_token : (Err ⊎ Token) × Storage env → (LoginErr ⊎ LoginResponse) × Storage env
  answer_token (inl e, s) = (inl (token_err e), s)
  answer_token (inr t, s) = (inr (record { token = t.accessor; success = true; message = "" }), s)

  -- `Login` with a password.
  pub login_with :
      Hashing
      → String
      → ℕ
      → String
      → String
      → Storage env
      → (LoginErr ⊎ LoginResponse) × Storage env
  unfolding create_token answer_token
  login_with hashing token now_ms username password s = elim (get_role username s) [
    | inl e ↦ (inl (role_err e), s)
    | inr found ↦ elim found [
      | none ↦ (inr (refused "role is not found"), s)
      | some role ↦
          let ended = answer_token (create_token token (default_token_ttl_m * 60000) now_ms s) in
          if hashing.matches role.password password
          then ended
          else (inr (refused "invalid password"), s)
    ]
  ]

  -- `Login` with the value of the password.
  pub login_value :
      Hashing → String → ℕ → String → Value → Storage env → (LoginErr ⊎ LoginResponse) × Storage env
  unfolding login_with
  login_value hashing token now_ms username other_value s = (inl invalid_password_parameter, s)
  login_value hashing token now_ms username (string_value password) s =
      login_with hashing token now_ms username password s

  -- `Login`
  pub login :
      Hashing → String → ℕ → LoginRequest → Storage env → (LoginErr ⊎ LoginResponse) × Storage env
  unfolding login_value
  login hashing token now_ms req s =
      if same req.username ""
      then (inr (refused "'name' is a required parameter"), s)
      else elim req.password [
        | none ↦ (inr (refused "'password' is a required parameter"), s)
        | some v ↦ login_value hashing token now_ms req.username v s
      ]
