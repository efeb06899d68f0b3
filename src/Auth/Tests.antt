-- ===== src/Auth/Tests.antt =====
-- The theorems of the authentication at a storage in memory with one role and one token.
use rhosus.Base.{
  String, Option, none, some, [], ◌∷◌, ◌≡◌, inl, inr, refl, sym, ap, ◌∙◌, same, string_key, ltb,
  if◌then◌else◌,
}
use rhosus.Storage.Types.{Role, Token}
use rhosus.Storage.Tables.{IsTable, tokens_schema}
use rhosus.Storage.Tables.Memory.{memory_table-IsTable, find_row-In}
use rhosus.Storage.Store.{Storage, then_put, store_token_in_memory}
use rhosus.Storage.Store.Auth.{get_role, get_token, store_token}
use rhosus.Storage.Tests.{memory_env, with_blocks, differ}
use rhosus.Auth.{Hashing, Value, string_value, login, watch_for_tokens_expiration}
use rhosus.Auth.Expiry.{watch_for_tokens_expiration-row}
use rhosus.Auth.Logins.{IsRefused, login_token, granted, login-grants, login-refuses}

abbrev tokens_laws : IsTable memory_env.tokens tokens_schema (λ t. t.id)
tokens_laws = memory_table-IsTable (λ t. t.id) tokens_schema

abbrev text_of : Option Value → String
text_of (some (string_value s)) = s
text_of _ = ""

-- A hash that accepts one password.
abbrev hashing : Hashing
hashing = record { generate = λ p. inr []; matches = λ hash p. same p "secret" }

abbrev a_role : Role
a_role = record { id = "r"; name = "ann"; permissions = []; password = [] }

-- Made at 5000 milliseconds, to live for 1000.
abbrev a_token : Token
a_token = record { id = "t"; accessor = "t"; ttl = 1000; creation_time = 5000; policies = [] }

abbrev a_storage : Storage memory_env
a_storage = record with_blocks { roles = a_role ∷ []; tokens = a_token ∷ [] }

-- A hundred seconds later the token is still there.
watch_for_tokens_expiration-row_example :
    tokens_laws.row "t" (watch_for_tokens_expiration 105 a_storage).tokens
    ≡ (if ltb 6000 105 then none else some a_token)
watch_for_tokens_expiration-row_example =
    watch_for_tokens_expiration-row tokens_laws 105 a_storage a_token (refl, tt) refl

same_password :
    (password : String)
    → some (string_value "guess") ≡ some (string_value password)
    → "guess" ≡ password
same_password password e = ap (λ v. text_of v) e

login-refuses_example : IsRefused a_storage (
    login hashing "u" 7
      (record { username = "ann"; password = some (string_value "guess") })
      a_storage)
unfolding get_role
login-refuses_example =
    login-refuses hashing "u" 7
      (record { username = "ann"; password = some (string_value "guess") }) a_storage
      (λ role password found e. ap (λ p. same p "secret") (sym (same_password password e)))

login-grants_example :
    ((login hashing "u" 7
        (record { username = "ann"; password = some (string_value "secret") })
        a_storage).0
      ≡ inr (granted "u"))
    × (get_token "u"
          (login hashing "u" 7
            (record { username = "ann"; password = some (string_value "secret") })
            a_storage).1
        ≡ inr (some (login_token "u" 7)))
unfolding get_role store_token then_put store_token_in_memory
login-grants_example =
    login-grants tokens_laws hashing "u" 7 "ann" "secret" a_role a_storage (differ "ann" "" refl)
      refl refl refl (refl, tt) (differ "u" "" refl, (differ "u" "" refl, tt))
      (
        (λ e i q there eq. eq),
        (
          (λ e i q there eq. elim (find_row-In (λ t. t.id) i (a_token ∷ []) q there) [
            | inl qe ↦ elim (differ "t" "u" refl (sym (ap (λ (t : Token). t.accessor) qe) ∙ eq)) [ ]
            | inr n ↦ elim n [ ]
          ]),
          tt,
        ),
      )
