-- ===== src/Common/Calls.antt =====
-- The calls that are out: a new one stands first, and an answer names the one that it is for by its
-- place.
use Prim.Native.Nat.{ℕ, zero, suc, ◌+◌}
use native.Mathlib.Omega.{arith}
use teleyes.Common.Lists.{All}
use teleyes.Common.Tests.{◌==◌, if◌then◌else◌}
use mathlib.Core.Path.{◌≡◌, refl, subst}
use mathlib.Core.Logic.{◌⊎◌, inl, inr}
use mathlib.Core.Bool.{Bool, true, false}
use mathlib.Core.Option.{Option, none, some}
use mathlib.Core.List.{List, [], ◌∷◌}

abbrev pub call_at {ℓ} : {A : Type ℓ} → ℕ → List A → Option A
call_at n [] = none
call_at zero (x ∷ xs) = some x
call_at (suc n) (x ∷ xs) = call_at n xs

abbrev pub without_at {ℓ} : {A : Type ℓ} → ℕ → List A → List A
without_at n [] = []
without_at zero (x ∷ xs) = xs
without_at (suc n) (x ∷ xs) = x ∷ without_at n xs

-- One call at most is out, and the flag says whether one is.
abbrev pub IsOnly {ℓ} : {A : Type ℓ} → Bool → List A → Type 0
IsOnly busy [] = busy ≡ false
IsOnly busy (x ∷ []) = busy ≡ true
IsOnly busy (x ∷ y ∷ xs) = ⊥

pub call_cases {ℓ} :
    {A : Type ℓ} (n : ℕ) (busy : Bool) (xs : List A)
    → IsOnly busy xs
    → (call_at n xs ≡ none)
      ⊎ ((x : A) × (call_at n xs ≡ some x) × (xs ≡ x ∷ []) × (without_at n xs ≡ []) × (busy ≡ true))
call_cases n busy [] h = inl refl
call_cases zero busy (x ∷ []) h = inr (x, refl, refl, refl, h)
call_cases (suc n) busy (x ∷ []) h = inl refl
call_cases n busy (x ∷ y ∷ xs) h = absurd h

pub none_out {ℓ} :
    {A : Type ℓ} (busy : Bool) (xs : List A) → IsOnly busy xs → busy ≡ false → xs ≡ []
none_out busy [] h b = refl
none_out busy (x ∷ []) h b = cc
none_out busy (x ∷ y ∷ xs) h b = absurd h

-- With the flag off one more call is the only one.
pub add_call {ℓ} :
    {A : Type ℓ} (x : A) (busy : Bool) (xs : List A)
    → IsOnly busy xs
    → busy ≡ false
    → IsOnly true (x ∷ xs)
add_call x busy xs h b = rw (none_out busy xs h b) refl

-- How many of the calls were made by a run of an effect.
abbrev pub calls_of {ℓ} : {A : Type ℓ} → (A → ℕ) → ℕ → List A → ℕ
calls_of run effect [] = 0
calls_of run effect (x ∷ xs) =
    if run x == effect then suc (calls_of run effect xs) else calls_of run effect xs

pub calls_of-without_at {ℓ} :
    {A : Type ℓ} (run : A → ℕ) (effect n : ℕ) (xs : List A) (x : A)
    → call_at n xs ≡ some x
    → calls_of run effect xs
      ≡ calls_of run effect (without_at n xs) + (if run x == effect then 1 else 0)
calls_of-without_at run effect n [] x e = cc
calls_of-without_at run effect zero (y ∷ xs) x e = ground (arith, e)
calls_of-without_at run effect (suc n) (y ∷ xs) x e =
    ground (arith, calls_of-without_at run effect n xs x e)

pub All-without_at {ℓ κ} :
    {A : Type ℓ} (P : A → Type κ) (n : ℕ) (xs : List A) → All P xs → All P (without_at n xs)
All-without_at P n [] h = tt
All-without_at P zero (x ∷ xs) h = h.1
All-without_at P (suc n) (x ∷ xs) h = (h.0, All-without_at P n xs h.1)

pub All-call_at {ℓ κ} :
    {A : Type ℓ} (P : A → Type κ) (n : ℕ) (xs : List A) (x : A)
    → All P xs
    → call_at n xs ≡ some x
    → P x
All-call_at P n [] x h e = cc
All-call_at P zero (y ∷ xs) x h e = let same : y ≡ x = cc in subst P same h.0
All-call_at P (suc n) (y ∷ xs) x h e = All-call_at P n xs x h.1 e

pub option_cases {ℓ} : {A : Type ℓ} (o : Option A) → (o ≡ none) ⊎ ((x : A) × (o ≡ some x))
option_cases none = inl refl
option_cases (some x) = inr (x, refl)
