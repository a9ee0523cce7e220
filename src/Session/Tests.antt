-- ===== src/Session/Tests.antt =====
-- Runs of the session's events and of a request that recovers.
use teleyes.Common.{ℕ, ◌≡◌, refl, false, Option, none, some, List, [], ◌∷◌, ◌==◌, if◌then◌else◌}
use teleyes.Text.{Text, codes, text_eq}
use teleyes.Json.{Json, null, string, object, end, field, get}
use teleyes.Session.Auth.{Session, resolved, Event, step, run, init}
use teleyes.Session.Invariant.{IsSound, IsAnswered, run-IsSound, run-IsAnswered}
use teleyes.Session.Http.{
  RequestInit, Response, extract_detail, is_write_method, is_session_expired, is_demo_read_only,
  with_fresh_csrf_token, sent, asked_reauth, returned, retried_request, api_request,
}
use teleyes.Session.Retry.{IsExpired, prompts, api_request-IsExpired}

http : Unit {0}
unfolding extract_detail is_write_method is_session_expired is_demo_read_only with_fresh_csrf_token
    retried_request api_request get text_eq
http = tt

-- A write fails twice while the modal is open, and the admin logs in.
abbrev expired_session : List Event
expired_session =
    Event.me_answered (some (some (record { admin_id = 1; csrf_token = 10 })))
    ∷ Event.request
    ∷ Event.request
    ∷ []

abbrev waiting : Session
waiting = run expired_session (init false none)

waiting_runs :
    (waiting.waiter ≡ some 0)
    × (waiting.next_promise ≡ 1)
    × ((run (Event.password_accepted 11 ∷ Event.login_ends 11 none ∷ []) waiting).settled
        ≡ (0, resolved 11) ∷ [])
unfolding run step init
waiting_runs = (refl, refl, refl)

run-IsSound_example : IsSound waiting
run-IsSound_example = run-IsSound false none expired_session

run-IsAnswered_example : IsAnswered waiting 0
run-IsAnswered_example = run-IsAnswered false none expired_session 0

abbrev expired_body : Json
expired_body = object (field (codes "detail") (string (codes "invalid csrf token")) end)

-- The first answer refuses the token, the second one accepts the new token.
abbrev fetch : ℕ → RequestInit → Option Response
fetch n r =
    if n == 0
    then some (record { status = 403; json = some expired_body })
    else some (record { status = 200; json = some null })

abbrev save : RequestInit
save = record { method = some (codes "patch"); csrf_header = some 10; body = 7 }

abbrev load : RequestInit
load = record { method = none; csrf_header = none; body = 0 }

fallback : ℕ → Text
fallback status = codes "Erro inesperado"

request_runs : api_request fetch fallback (some 11) save ≡ (
  sent save ∷ asked_reauth ∷ sent (record save { csrf_header = some 11 }) ∷ [],
  returned (some null),
)
unfolding http
request_runs = refl

save-IsExpired : {reauth : Option ℕ} → IsExpired fetch fallback reauth save
unfolding http
save-IsExpired = record {
  response = record { status = 403; json = some expired_body };
  answered = refl;
  failed = refl;
  writes = refl;
  expired = refl;
}

api_request-IsExpired_example : prompts (api_request fetch fallback (some 11) save).0 ≡ 1
api_request-IsExpired_example =
    (api_request-IsExpired fetch fallback (some 11) save 11 refl save-IsExpired).0
