-- ===== src/Middleware/Auth/Laws.antt =====
-- Who passes `Auth`.
use Prim.Native.String
use nexlog_server.Base.{
  ℕ, String, ◌≡◌, refl, subst, ◌⊎◌, inl, inr, true, Option, some, arith, Bool-cases, Option-cases,
}
use nexlog_server.Http.{Handler, Request, get_header, respond, http_error, perform}
use nexlog_server.Text.{strip_prefix}
use nexlog_server.Text.Laws.{strip_prefix_sound, strip_prefix-append}
use nexlog_server.Middleware.Auth.{Jwt, key_func, auth}

-- Documented of jwt.Parse: a token comes back only if the key function returned a key for it, and
-- the signature of the text was verified with that key.
pub record IsJwt (j : Jwt) : Type 0 where
  pub verified :
      (s : String) (f : j.Token → Option String) (now : ℕ) (t : j.Token)
      → j.parse s f now ≡ some t
      → (key : String) × (f t ≡ some key) × j.SignedWith s key

module _ (j : Jwt) (secret : String) where
  -- The request bears a valid token that was signed with the secret by an HMAC method.
  pub record HasToken (r : Request) : Type 0 where
    pub text : String
    pub token : j.Token
    pub bearer : get_header "Authorization" r.header ≡ String.◌++◌ "Bearer " text
    pub parsed : j.parse text (key_func j secret) (r.clock 2) ≡ some token
    pub hmac : j.is_hmac token ≡ true
    pub signed : j.SignedWith text secret
    pub valid : j.valid token ≡ true

  key_func_hmac :
      (t : j.Token) (key : String)
      → key_func j secret t ≡ some key
      → (j.is_hmac t ≡ true) × (key ≡ secret)
  key_func_hmac t key h = ground arith

  module _ {ℓ} {W : Type ℓ} (ok : IsJwt j) (next : Handler W) (r : Request) (w : W) where
    has_token :
        (text : String) (t : j.Token)
        → get_header "Authorization" r.header ≡ String.◌++◌ "Bearer " text
        → j.parse text (key_func j secret) (r.clock 2) ≡ some t
        → j.valid t ≡ true
        → HasToken r
    has_token text t bearer parsed valid =
        let (key, from_func, signed) = ok.verified text (key_func j secret) (r.clock 2) t parsed in
        let (hmac, same) = key_func_hmac t key from_func in
        record {
          text = text;
          token = t;
          bearer = bearer;
          parsed = parsed;
          hmac = hmac;
          signed = subst (j.SignedWith text) same signed;
          valid = valid;
        }

    refused : (message : String) → (respond (http_error message 401)).status ≡ 401
    unfolding http_error perform
    refused message = refl

    -- Either the request bears a valid token signed with the secret by an HMAC method, and the
    -- wrapped handler serves it, or the answer is 401 and the state is unchanged.
    pub auth_cases :
        (HasToken r × (auth j secret next r w ≡ next r w))
        ⊎ (((respond (auth j secret next r w).0).status ≡ 401) × ((auth j secret next r w).1 ≡ w))
    unfolding auth
    auth_cases =
        let header = get_header "Authorization" r.header in
        elim (Option-cases (strip_prefix "Bearer " header)) [
          | inl no_prefix ↦ inr (rw (no_prefix, auth) (refused _, refl))
          | inr (text, prefix) ↦
              elim (Option-cases (j.parse text (key_func j secret) (r.clock 2))) [
                | inl bad ↦ inr (rw (prefix, bad, auth) (refused _, refl))
                | inr (t, parsed) ↦ elim (Bool-cases (j.valid t)) [
                  | inr invalid ↦ inr (rw (prefix, parsed, invalid, auth) (refused _, refl))
                  | inl valid ↦ inl (
                    has_token text t (strip_prefix_sound "Bearer " header text prefix) parsed valid,
                    rw (prefix, parsed, valid, auth) refl,
                  )
                ]
              ]
        ]

    -- A request that bears a valid token is served.
    pub auth_complete : HasToken r → auth j secret next r w ≡ next r w
    unfolding auth
    auth_complete h =
        let prefix : strip_prefix "Bearer " (get_header "Authorization" r.header) ≡ some h.text =
          rw h.bearer (strip_prefix-append "Bearer " h.text) in
        rw (prefix, h.parsed, h.valid, auth) refl
