-- ===== src/Text/Prefix.antt =====
-- A text that another one starts with.
use teleyes.Common.{ℕ, ◌≡◌, refl, sym, ap, ◌∙◌, Bool-cases, inl, inr, [], ◌∷◌, ◌++◌}
use teleyes.Text.{Text, is_space, drop_if_last, trim_end}

pub record IsPrefix (part text : Text) : Type 0 where
  pub rest : Text
  pub joined : text ≡ part ++ rest

pub IsPrefix-refl : (text : Text) → IsPrefix text text
IsPrefix-refl text = record { rest = []; joined = sym (append-nil text) }
  where
    append-nil : (t : Text) → t ++ [] ≡ t
    append-nil [] = refl
    append-nil (c ∷ t) = ap (λ u. c ∷ u) (append-nil t)

pub IsPrefix-cons : (c : ℕ) (part text : Text) → IsPrefix part text → IsPrefix (c ∷ part) (c ∷ text)
IsPrefix-cons c part text p = record { rest = p.rest; joined = ap (λ t. c ∷ t) p.joined }

pub IsPrefix-nil : (text : Text) → IsPrefix [] text
IsPrefix-nil text = record { rest = text; joined = refl }

append_assoc : (a b c : Text) → (a ++ b) ++ c ≡ a ++ (b ++ c)
append_assoc [] b c = refl
append_assoc (x ∷ a) b c = ap (λ t. x ∷ t) (append_assoc a b c)

pub IsPrefix-trans : (a b c : Text) → IsPrefix a b → IsPrefix b c → IsPrefix a c
IsPrefix-trans a b c p q = record {
  rest = p.rest ++ q.rest;
  joined = q.joined ∙ ap (λ t. t ++ q.rest) p.joined ∙ append_assoc a p.rest q.rest;
}

pub trim_end-IsPrefix : (text : Text) → IsPrefix (trim_end text) text
unfolding trim_end
trim_end-IsPrefix [] = IsPrefix-nil []
trim_end-IsPrefix (c ∷ cs) = last (trim_end cs) (trim_end-IsPrefix cs)
  where
    last : (end : Text) → IsPrefix end cs → IsPrefix (drop_if_last c end) (c ∷ cs)
    last [] p = elim (Bool-cases (is_space c)) [
      | inl e ↦ rw e (IsPrefix-nil (c ∷ cs))
      | inr e ↦ rw e (IsPrefix-cons c [] cs p)
    ]
    last (d ∷ end) p = IsPrefix-cons c (d ∷ end) cs p
