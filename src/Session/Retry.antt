-- ===== src/Session/Retry.antt =====
-- When a request asks for a new login, and what it sends afterwards.
use teleyes.Common.{
  ℕ, suc, ◌≡◌, refl, ap, true, false, Option, none, some, List, [], ◌∷◌, arith, inl, inr,
  Option-cases,
}
use teleyes.Text.{Text}
use teleyes.Session.Http.{
  RequestInit, Response, extract_detail, is_write_method, is_session_expired, is_ok,
  with_fresh_csrf_token, fresh_header, Effect, sent, asked_reauth, notified_demo, retried_request,
  api_request, after, on_response, retry_with, reauth_rejected,
}

-- The requests that a log sends, and how often it asks for a login.
abbrev pub requests : List Effect → List RequestInit
requests [] = []
requests (sent init ∷ log) = init ∷ requests log
requests (asked_reauth ∷ log) = requests log
requests (notified_demo ∷ log) = requests log

abbrev pub prompts : List Effect → ℕ
prompts [] = 0
prompts (sent init ∷ log) = prompts log
prompts (asked_reauth ∷ log) = suc (prompts log)
prompts (notified_demo ∷ log) = prompts log

module _ (fetch : ℕ → RequestInit → Option Response) (fallback : ℕ → Text) (reauth : Option ℕ) where
  -- The first answer says that the session of a write has expired.
  pub record IsExpired (init : RequestInit) : Type 0 where
    pub response : Response
    pub answered : fetch 0 init ≡ some response
    pub failed : is_ok response.status ≡ false
    pub writes : is_write_method init.method ≡ true
    pub expired :
        is_session_expired response.status
          (extract_detail (fallback response.status) response.json).message
        ≡ true

  retried_request_once :
      (init : RequestInit)
      → (requests (retried_request fetch fallback reauth init).0 ≡ init ∷ [])
        × (prompts (retried_request fetch fallback reauth init).0 ≡ 0)
  unfolding retried_request
  retried_request_once init = ground arith

  api_request_expired :
      (init : RequestInit)
      → IsExpired init
      → api_request fetch fallback reauth init
        ≡ after fetch fallback reauth
            (sent init ∷ [])
            (retry_with fetch fallback reauth (retried_request fetch fallback reauth) init reauth)
  unfolding api_request
  api_request_expired init x = rw (x.answered, x.failed, x.writes, x.expired)

  retry-prompts :
      (init : RequestInit) (answer : Option ℕ)
      → prompts
          (after fetch fallback reauth (sent init ∷ []) (
            retry_with fetch fallback reauth (retried_request fetch fallback reauth) init answer)).0
        ≡ 1
  retry-prompts init none = refl
  retry-prompts init (some token) =
      ap suc (retried_request_once (with_fresh_csrf_token init token)).1

  retry-requests :
      (init : RequestInit) (token : ℕ)
      → requests
          (after fetch fallback reauth (sent init ∷ []) (
            retry_with fetch fallback reauth
              (retried_request fetch fallback reauth)
              init
              (some token))).0
        ≡ init ∷ with_fresh_csrf_token init token ∷ []
  retry-requests init token =
      ap (λ rs. init ∷ rs) (retried_request_once (with_fresh_csrf_token init token)).0

  -- A write whose first answer says that the session expired asks for a login once. If the admin logs
  -- in, the same request is sent once more, with the new token where it carried one, and the caller
  -- sees only what that second request ends with.
  pub api_request-IsExpired :
      (init : RequestInit) (token : ℕ)
      → reauth ≡ some token
      → IsExpired init
      → let again = record init { csrf_header = fresh_header init.csrf_header token } in
        (prompts (api_request fetch fallback reauth init).0 ≡ 1)
        × (requests (api_request fetch fallback reauth init).0 ≡ init ∷ again ∷ [])
        × ((api_request fetch fallback reauth init).1
            ≡ (retried_request fetch fallback reauth again).1)
  unfolding with_fresh_csrf_token
  api_request-IsExpired init token again x =
      let e = api_request_expired init x in
      (
        rw e (retry-prompts init reauth),
        rw (e, again) (retry-requests init token),
        rw (e, again) refl,
      )

  -- Where the admin cancels the login, a write whose first answer says that the session expired
  -- asks once, is not sent again, and the caller sees the refusal.
  pub api_request_refused :
      (init : RequestInit)
      → reauth ≡ none
      → IsExpired init
      → (prompts (api_request fetch fallback reauth init).0 ≡ 1)
        × (requests (api_request fetch fallback reauth init).0 ≡ init ∷ [])
        × ((api_request fetch fallback reauth init).1 ≡ reauth_rejected)
  api_request_refused init refused x =
      let e = api_request_expired init x in
      (rw e (retry-prompts init reauth), rw (e, refused) refl, rw (e, refused) refl)

  answered_once :
      (init : RequestInit) (response : Response)
      → (is_ok response.status ≡ false
          → is_write_method init.method ≡ true
          → is_session_expired response.status
              (extract_detail (fallback response.status) response.json).message
            ≡ true
          → ⊥)
      → let answer =
          on_response fetch fallback reauth
            (retried_request fetch fallback reauth)
            false
            init
            (some response) in
        (◌≡◌ {A = List RequestInit} (init ∷ requests answer.0) (init ∷ [])) × (prompts answer.0 ≡ 0)
  answered_once init response x = ground arith

  -- A request whose first answer does not say that the session of a write has expired is sent once
  -- and asks for no login.
  pub api_request_once :
      (init : RequestInit)
      → ¬ IsExpired init
      → (requests (api_request fetch fallback reauth init).0 ≡ init ∷ [])
        × (prompts (api_request fetch fallback reauth init).0 ≡ 0)
  unfolding api_request
  api_request_once init x = elim (Option-cases (fetch 0 init)) [
    | inl silent ↦ rw silent (refl, refl)
    | inr (response, answered) ↦ rw answered (
        answered_once init response (λ f w e. x (record {
          response = response;
          answered = answered;
          failed = f;
          writes = w;
          expired = e;
        })))
  ]
