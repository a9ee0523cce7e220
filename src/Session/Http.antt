-- ===== src/Session/Http.antt =====
-- apps/web/src/api/http.ts: every request of the app, with the retry after an expired session, and
-- `isDemoReadOnly` of apps/web/src/api/demo.ts. What `fetch` answers and whether the admin logs in
-- again are parameters; the log holds what the request does to the outside.
use teleyes.Common.{
  ℕ, ◌-◌, Bool, true, false, not, ◌&&◌, ◌||◌, Option, none, some, List, [], ◌∷◌, ◌++◌, map, leb,
  ltb, ◌==◌, if◌then◌else◌,
}
use teleyes.Text.{Text, codes, text_eq}
use teleyes.Json.{Json, string, object, get, as_string, as_number}

-- The parts of `RequestInit` that the code reads: the method, and the header X-CSRF-Token, whose
-- token a number stands for.
pub record RequestInit : Type 0 where
  pub method : Option Text
  pub csrf_header : Option ℕ
  pub body : ℕ

pub record Response : Type 0 where
  pub status : ℕ
  pub json : Option Json

pub record ErrorDetail : Type 0 where
  pub message : Text
  pub code : Option Text
  pub retry_after_seconds : Option ℕ

abbrev pub plain_detail : Text → ErrorDetail
plain_detail message = record { message = message; code = none; retry_after_seconds = none }

abbrev pub structured_detail : Text → Option Json → Json → ErrorDetail
structured_detail fallback (some (string message)) (object fields) = record {
  message = message;
  code = as_string (get (codes "code") fields);
  retry_after_seconds = as_number (get (codes "retry_after_seconds") fields);
}
structured_detail fallback _ _ = plain_detail fallback

abbrev pub detail_of : Text → Option Json → ErrorDetail
detail_of fallback (some (string message)) = plain_detail message
detail_of fallback (some (object fields)) =
    structured_detail fallback (get (codes "message") fields) (object fields)
detail_of fallback _ = plain_detail fallback

-- `extractDetail`; `none` is a body that is no JSON.
unfoldable pub extract_detail : Text → Option Json → ErrorDetail
extract_detail fallback (some (object fields)) = detail_of fallback (get (codes "detail") fields)
extract_detail fallback _ = plain_detail fallback

-- `toUpperCase` of an ASCII method; no other letter becomes one of GET and HEAD.
abbrev pub to_upper : Text → Text
to_upper text = map (λ c. if leb b'a' c && leb c b'z' then c - 32 else c) text

unfoldable pub is_write_method : Option Text → Bool
is_write_method none = false
is_write_method (some method) =
    not (text_eq (to_upper method) (codes "GET")) && not (text_eq (to_upper method) (codes "HEAD"))

unfoldable pub is_session_expired : ℕ → Text → Bool
is_session_expired status detail =
    status == 401 || (status == 403 && text_eq detail (codes "invalid csrf token"))

unfoldable pub is_demo_read_only : ℕ → Text → Bool
is_demo_read_only status detail =
    status == 403 && text_eq detail (codes "Modo demonstração: alterações desativadas.")

abbrev pub fresh_header : Option ℕ → ℕ → Option ℕ
fresh_header none token = none
fresh_header (some old) token = some token

unfoldable pub with_fresh_csrf_token : RequestInit → ℕ → RequestInit
with_fresh_csrf_token init token = record init { csrf_header = fresh_header init.csrf_header token }

pub data Effect : Type 0 where
  sent : RequestInit → Effect
  asked_reauth : Effect
  notified_demo : Effect

pub data Outcome : Type 0 where
  -- `none` is the `undefined` of a 204.
  returned : Option Json → Outcome
  -- An ApiError with its status.
  thrown : ErrorDetail → ℕ → Outcome
  -- `fetch` or `response.json()` rejected, or `requestReauth` did.
  network_error bad_json reauth_rejected : Outcome

abbrev pub is_ok : ℕ → Bool
is_ok status = leb 200 status && ltb status 300

abbrev pub read_json : Option Json → Outcome
read_json none = bad_json
read_json (some value) = returned (some value)

abbrev pub value_of : Response → Outcome
value_of response = if response.status == 204 then returned none else read_json response.json

module _ (fetch : ℕ → RequestInit → Option Response) (fallback : ℕ → Text) (reauth : Option ℕ) where
  -- The error path behind the retry.
  abbrev pub fail : ErrorDetail → ℕ → List Effect × Outcome
  fail detail status =
      if is_demo_read_only status detail.message
      then (notified_demo ∷ [], thrown detail status)
      else ([], thrown detail status)

  abbrev pub after : List Effect → List Effect × Outcome → List Effect × Outcome
  after before (effects, outcome) = (before ++ effects, outcome)

  abbrev pub retry_with :
      (RequestInit → List Effect × Outcome) → RequestInit → Option ℕ → List Effect × Outcome
  retry_with retry init none = (asked_reauth ∷ [], reauth_rejected)
  retry_with retry init (some token) =
      after (asked_reauth ∷ []) (retry (with_fresh_csrf_token init token))

  abbrev pub on_error :
      (RequestInit → List Effect × Outcome) → Bool → RequestInit → Response → List Effect × Outcome
  on_error retry is_retry init response =
      let detail = extract_detail (fallback response.status) response.json in
      let status = response.status in
      if not is_retry && (is_write_method init.method && is_session_expired status detail.message)
      then retry_with retry init reauth
      else fail detail status

  abbrev pub on_response :
      (RequestInit → List Effect × Outcome)
      → Bool
      → RequestInit
      → Option Response
      → List Effect × Outcome
  on_response retry is_retry init none = ([], network_error)
  on_response retry is_retry init (some response) =
      if is_ok response.status
      then ([], value_of response)
      else on_error retry is_retry init response

  -- The body of `apiRequest` with its recursive call as `retry`.
  abbrev pub attempt :
      (RequestInit → List Effect × Outcome) → Bool → ℕ → RequestInit → List Effect × Outcome
  attempt retry is_retry n init =
      after (sent init ∷ []) (on_response retry is_retry init (fetch n init))

  -- `apiRequest(path, init, true)`: never calls itself.
  unfoldable pub retried_request : RequestInit → List Effect × Outcome
  retried_request init = attempt (λ _. ([], network_error)) true 1 init

  unfoldable pub api_request : RequestInit → List Effect × Outcome
  api_request init = attempt retried_request false 0 init
