-- ===== src/Auth/Expiry.antt =====
-- `watchForTokensExpiration` of rhosus/auth/token.go: which tokens a tick revokes.
use rhosus.Base.{
  ℕ, ◌+◌, String, string_key, Bool, true, false, none, some, List, [], ◌∷◌, ◌≡◌, inl, inr, ltb,
  if◌then◌else◌, arith, refl, sym, ◌∙◌, ap, In, Bool-cases,
}
use rhosus.Storage.Types.{Token}
use rhosus.Storage.Tables.{IsTable, tokens_schema}
use rhosus.Storage.Store.{Env, Storage}
use rhosus.Storage.Store.Auth.{revoke_token}
use rhosus.Storage.Store.Auth.Tokens.{revoke_token-row, list_tokens_lem}
use rhosus.Auth.{expire, watch_for_tokens_expiration}

-- A token is past its time, by the clock in seconds.
abbrev pub is_expired : ℕ → Token → Bool
is_expired now_s t = ltb (t.ttl + t.creation_time) now_s

module _ {env : Env} (laws : IsTable env.tokens tokens_schema (λ t. t.id)) where
  -- A token that is gone stays away.
  expire-absent :
      (now_s : ℕ) (ts : List Token) (s : Storage env) (i : String)
      → laws.row i s.tokens ≡ none
      → laws.row i (expire now_s ts s).tokens ≡ none
  unfolding expire
  expire-absent now_s [] s i absent = absent
  expire-absent now_s (t ∷ ts) s i absent = elim (Bool-cases (is_expired now_s t)) [
    | inl past ↦
        rw (past, expire)
          (expire-absent now_s ts (revoke_token t s).1 i
            (ground (arith, revoke_token-row laws t s i, absent)))
    | inr left ↦ rw (left, expire) (expire-absent now_s ts s i absent)
  ]

  -- Tokens that are past their time go.
  expire-past :
      (now_s : ℕ) (ts : List Token) (s : Storage env) (t : Token)
      → In t ts
      → is_expired now_s t ≡ true
      → laws.row t.id (expire now_s ts s).tokens ≡ none
  unfolding expire
  expire-past now_s [] s t m past = elim m [ ]
  expire-past now_s (q ∷ ts) s t (inl e) past =
      let past' : is_expired now_s q ≡ true = rw (sym e) past in
      rw (past', expire)
        (expire-absent now_s ts (revoke_token q s).1 t.id (
          ground (
            arith,
            revoke_token-row laws q s t.id,
            string_key.same_iff q.id t.id,
            ap (λ (t : Token). t.id) e,
          )))
  expire-past now_s (q ∷ ts) s t (inr m) past = elim (Bool-cases (is_expired now_s q)) [
    | inl past_q ↦ rw (past_q, expire) (expire-past now_s ts (revoke_token q s).1 t m past)
    | inr left ↦ rw (left, expire) (expire-past now_s ts s t m past)
  ]

  -- A token stays if no token of the list with its identifier is past its time.
  expire-kept :
      (now_s : ℕ) (ts : List Token) (s : Storage env) (i : String)
      → ((q : Token) → In q ts → q.id ≡ i → is_expired now_s q ≡ false)
      → laws.row i (expire now_s ts s).tokens ≡ laws.row i s.tokens
  unfolding expire
  expire-kept now_s [] s i kept = refl
  expire-kept now_s (q ∷ ts) s i kept = elim (Bool-cases (is_expired now_s q)) [
    | inl past ↦
        rw (past, expire)
          (expire-kept now_s ts (revoke_token q s).1 i (λ p m e. kept p (inr m) e)
            ∙ ground
                (arith, revoke_token-row laws q s i, string_key.same_iff q.id i, kept q (inl refl)))
    | inr left ↦ rw (left, expire) (expire-kept now_s ts s i (λ p m e. kept p (inr m) e))
  ]

  -- One tick revokes a token exactly when its time to live and the time of its creation, which are in
  -- milliseconds, add up to less than the clock, which is in seconds. The other tokens stay.
  pub watch_for_tokens_expiration-row :
      (now_s : ℕ) (s : Storage env) (t : Token)
      → laws.IsIndexed s.tokens
      → laws.row t.id s.tokens ≡ some t
      → laws.row t.id (watch_for_tokens_expiration now_s s).tokens
        ≡ (if ltb (t.ttl + t.creation_time) now_s then none else some t)
  unfolding watch_for_tokens_expiration
  watch_for_tokens_expiration-row now_s s t indexed there =
      let (ts, listed, is_token) = list_tokens_lem laws s indexed in
      rw (listed, watch_for_tokens_expiration)
        (elim (Bool-cases (is_expired now_s t)) [
          | inl past ↦ rw past (expire-past now_s ts s t ((is_token t).1 there) past)
          | inr left ↦ rw left (
              expire-kept now_s ts s t.id (λ q m e.
                let same_row : q ≡ t =
                  ground
                    (arith, sym ((is_token q).0 m) ∙ ap (λ i. laws.row i s.tokens) e ∙ there) in
                rw same_row left)
              ∙ there)
        ])
