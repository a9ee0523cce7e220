-- ===== src/Health/Tests.antt =====
-- Runs of the verdict, the preview and the pill.
use teleyes.Common.{◌≡◌, refl, true, false, none, some, List, [], ◌∷◌}
use teleyes.Health.Services.{
  HeartbeatBucket, ServiceView, good, danger, normalize_buckets, availability,
}
use teleyes.Health.RecipientPreview.{Answer, Event, init, run, step, preview}
use teleyes.Health.PreviewLaws.{IsCurrent, run-IsCurrent}
use teleyes.Health.Deliveries.{failed, sent, delivered, summarize_delivery_status}
use teleyes.Health.Poll
use teleyes.Health.Poll.{SseState, HealthResponse, IsHonest, mount, run-IsHonest}

abbrev half : HeartbeatBucket
half = record { hour = 1; ok = some 3; total = some 6 }

availability_runs :
    availability (normalize_buckets (half ∷ record half { ok = none } ∷ []) 4) ≡ some (3, 6)
unfolding availability normalize_buckets
availability_runs = refl

pill_runs : summarize_delivery_status (failed ∷ sent ∷ []) ≡ delivered
unfolding summarize_delivery_status
pill_runs = refl

abbrev views : List ServiceView
views = record { key = 0; name = 0; tone = good } ∷ record { key = 1; name = 1; tone = danger } ∷ []

-- The answer to the first key comes after the second key was asked for.
abbrev late_answer : List Event
late_answer =
    Event.timer_fired
    ∷ Event.rendered 2 true
    ∷ Event.timer_fired
    ∷ Event.answered 1 (Answer.accepted 10)
    ∷ Event.answered 0 (Answer.accepted 20)
    ∷ []

late_answer_runs : (run late_answer (init 1 true)).state ≡ preview 2 20
unfolding run step init
late_answer_runs = refl

run-IsCurrent_example : IsCurrent (run late_answer (init 1 true))
run-IsCurrent_example = run-IsCurrent 1 true late_answer

-- The first poll fails, and the answer of an effect that was replaced comes too late.
abbrev health_events : List Poll.Event
health_events =
    Poll.Event.answered 1 none
    ∷ Poll.Event.restarted false
    ∷ Poll.Event.answered 1 (some (record { telegram_state = 1; rest = 0 }))
    ∷ []
