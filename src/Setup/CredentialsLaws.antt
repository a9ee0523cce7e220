-- ===== src/Setup/CredentialsLaws.antt =====
-- The credentials that are sent.
use teleyes.Common.{ℕ, ◌≡◌, ◌≤◌, ◌<◌, refl, true, Option, none, some, List, [], ◌∷◌, All, arith}
use teleyes.Text.{Text, trim}
use teleyes.Price.Digits.{value}
use teleyes.Setup.Validation.{Problem, is_api_hash, max_api_id, validate_api_id, validate_api_hash}
use teleyes.Setup.Credentials.{
  CredentialsStatus, CredentialsStep, opened, or_problem, submit_checked, Event, submitted, step,
  run,
}

-- A call has an api_id that Telegram can have given, and a hash of 32 hexadecimal digits.
abbrev pub IsAcceptable : ℕ × Text → Type 0
IsAcceptable (api_id, api_hash) =
    (0 < api_id) × (api_id ≤ max_api_id) × (is_api_hash api_hash ≡ true)

validate_api_id-value :
    (raw : Text)
    → validate_api_id raw ≡ none
    → (0 < value 0 (trim raw)) × (value 0 (trim raw) ≤ max_api_id)
unfolding validate_api_id
validate_api_id-value raw h = ground arith

validate_api_hash-hash : (raw : Text) → validate_api_hash raw ≡ none → is_api_hash (trim raw) ≡ true
unfolding validate_api_hash
validate_api_hash-hash raw h = ground arith

or_problem-none : (a b : Option Problem) → or_problem a b ≡ none → (a ≡ none) × (b ≡ none)
or_problem-none none b h = (refl, h)
or_problem-none (some problem) b h = ground (arith, h)

submit_checked-IsAcceptable :
    (problem : Option Problem) (csrf : Option ℕ) (s : CredentialsStep)
    → or_problem (validate_api_id s.api_id) (validate_api_hash s.api_hash) ≡ problem
    → All IsAcceptable s.sent
    → All IsAcceptable (submit_checked problem csrf s).sent
unfolding submit_checked
submit_checked-IsAcceptable (some problem) csrf s e h = h
submit_checked-IsAcceptable none none s e h = h
submit_checked-IsAcceptable none (some token) s e h =
    let (id_ok, hash_ok) = or_problem-none _ _ e in
    let (low, high) = validate_api_id-value s.api_id id_ok in
    ((low, high, validate_api_hash-hash s.api_hash hash_ok), h)

step-IsAcceptable :
    (e : Event) (s : CredentialsStep) → All IsAcceptable s.sent → All IsAcceptable (step e s).sent
unfolding step
step-IsAcceptable (submitted csrf) s h = ground (arith, submit_checked-IsAcceptable _ csrf s refl h)
step-IsAcceptable e s h = ground arith

run_from :
    (es : List Event) (s : CredentialsStep)
    → All IsAcceptable s.sent
    → All IsAcceptable (run es s).sent
unfolding run
run_from [] s h = h
run_from (e ∷ es) s h = run_from es (step e s) (step-IsAcceptable e s h)

-- After every sequence of events, each pair of credentials that was sent has an api_id between 1 and
-- 2 ^ 31 - 1 and a hash of 32 hexadecimal digits, whatever was typed.
pub run-IsAcceptable :
    (status : CredentialsStatus) (es : List Event) → All IsAcceptable (run es (opened status)).sent
unfolding opened
run-IsAcceptable status es = run_from es (opened status) tt
