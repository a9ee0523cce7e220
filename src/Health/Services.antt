-- ===== src/Health/Services.antt =====
-- apps/web/src/pages/saudeModel.ts: the bars of a service, its availability and the verdict over all of them.
-- A percentage is the part and the whole it is of.
use teleyes.Common.{
  ℕ, zero, suc, ◌+◌, ◌-◌, ◌≡◌, ◌↔◌, ◌≤◌, refl, Bool, true, false, Option, none, some, List, [], ◌∷◌,
  ◌++◌, map, leb, if◌then◌else◌, keep, any, length, arith, length-keep,
}

pub record HeartbeatBucket : Type 0 where
  pub hour : ℕ
  pub ok : Option ℕ
  pub total : Option ℕ

pub data BarKind : Type 0 where
  ok partial down unmeasured : BarKind

pub data Tone : Type 0 where
  good warn danger neutral : Tone

abbrev pub kind_of : Option ℕ → Option ℕ → BarKind
kind_of (some healthy) (some total) =
    if leb total 0
    then unmeasured
    else if leb total healthy
    then ok
    else if leb healthy 0
    then down
    else partial
kind_of _ _ = unmeasured

unfoldable pub bar_kind : Option HeartbeatBucket → BarKind
bar_kind none = unmeasured
bar_kind (some bucket) = kind_of bucket.ok bucket.total

abbrev pub drop {ℓ} : {A : Type ℓ} → ℕ → List A → List A
drop zero xs = xs
drop (suc n) [] = []
drop (suc n) (x ∷ xs) = drop n xs

abbrev pub fill {ℓ} : {A : Type ℓ} → ℕ → List (Option A)
fill zero = []
fill (suc n) = none ∷ fill n

-- `slice(-size)` of a `size` that is not 0, then the padding in front.
unfoldable pub normalize_buckets {ℓ} : {A : Type ℓ} → List A → ℕ → List (Option A)
normalize_buckets items size =
    let tail = drop (length items - size) items in fill (size - length tail) ++ map some tail

abbrev pub or_zero : Option ℕ → ℕ
or_zero none = 0
or_zero (some n) = n

abbrev pub is_measured : BarKind → Bool
is_measured unmeasured = false
is_measured _ = true

-- The loop of `availability`.
unfoldable pub sum_measured : ℕ → ℕ → List (Option HeartbeatBucket) → ℕ × ℕ
unfolding bar_kind
sum_measured healthy total [] = (healthy, total)
sum_measured healthy total (none ∷ buckets) = sum_measured healthy total buckets
sum_measured healthy total (some bucket ∷ buckets) = elim (is_measured (bar_kind (some bucket))) [
  | true ↦ sum_measured (healthy + or_zero bucket.ok) (total + or_zero bucket.total) buckets
  | false ↦ sum_measured healthy total buckets
]

abbrev pub share_of : ℕ × ℕ → Option (ℕ × ℕ)
share_of (healthy, zero) = none
share_of (healthy, suc total) = some (healthy, suc total)

unfoldable pub availability : List (Option HeartbeatBucket) → Option (ℕ × ℕ)
unfolding sum_measured
availability buckets = share_of (sum_measured 0 0 buckets)

pub record ServiceView : Type 0 where
  pub key : ℕ
  pub name : ℕ
  pub tone : Tone

pub data Title : Type 0 where
  service_down service_unstable : ℕ → Title
  demo_mode incomplete checking all_working : Title

pub record Verdict : Type 0 where
  pub tone : Tone
  pub title : Title
  pub active : ℕ
  pub total : ℕ

abbrev pub same_tone : Tone → Tone → Bool
same_tone good good = true
same_tone warn warn = true
same_tone danger danger = true
same_tone neutral neutral = true
same_tone _ _ = false

-- `views.find(…)`
abbrev pub find_tone : Tone → List ServiceView → Option ServiceView
find_tone tone [] = none
find_tone tone (view ∷ views) =
    let later = find_tone tone views in if same_tone view.tone tone then some view else later

abbrev pub services : ℕ
services = 5

abbrev pub active_views : List ServiceView → ℕ
active_views views = length (keep (λ view. same_tone view.tone good) views)

abbrev pub some_off : List ServiceView → Bool
some_off views = any (λ view. same_tone view.tone neutral) views

abbrev pub verdict : Tone → Title → List ServiceView → Verdict
verdict tone title views = record {
  tone = tone;
  title = title;
  active = active_views views;
  total = services;
}

unfoldable pub build_verdict : List ServiceView → Bool → Verdict
build_verdict views demo = elim (find_tone danger views) [
  | some view ↦ verdict danger (service_down view.name) views
  | none ↦ elim (find_tone warn views) [
    | some view ↦ verdict warn (service_unstable view.name) views
    | none ↦
        if some_off views
        then verdict warn (if demo then demo_mode else incomplete) views
        else if leb services (active_views views)
        then verdict good all_working views
        else verdict neutral checking views
  ]
]

find_tone-none :
    (tone : Tone) (views : List ServiceView)
    → (find_tone tone views ≡ none) ↔ (any (λ v. same_tone v.tone tone) views ≡ false)
find_tone-none tone [] = ground arith
find_tone-none tone (v ∷ views) = ground (arith, find_tone-none tone views)

no_other_tone :
    (views : List ServiceView)
    → any (λ v. same_tone v.tone danger) views ≡ false
    → any (λ v. same_tone v.tone warn) views ≡ false
    → any (λ v. same_tone v.tone neutral) views ≡ false
    → active_views views ≡ length views
no_other_tone [] h k l = refl
no_other_tone (v ∷ views) h k l = ground (arith, no_other_tone views)

all_good :
    (views : List ServiceView)
    → active_views views ≡ length views
    → (any (λ v. same_tone v.tone danger) views ≡ false)
      × (any (λ v. same_tone v.tone warn) views ≡ false)
      × (any (λ v. same_tone v.tone neutral) views ≡ false)
all_good [] h = (refl, refl, refl)
all_good (v ∷ views) h =
    ground (arith, all_good views, length-keep (λ view. same_tone view.tone good) views)

-- The verdict is good exactly when every service that is shown is good and all five are shown; it is
-- one of danger exactly when some service is down.
pub build_verdict-tone :
    (views : List ServiceView) (demo : Bool)
    → (((build_verdict views demo).tone ≡ good)
        ↔ ((active_views views ≡ length views) × (services ≤ length views)))
      × (((build_verdict views demo).tone ≡ danger)
          ↔ (any (λ v. same_tone v.tone danger) views ≡ true))
unfolding build_verdict
build_verdict-tone views demo = ground (
  arith,
  find_tone-none danger views,
  find_tone-none warn views,
  no_other_tone views,
  all_good views,
)
