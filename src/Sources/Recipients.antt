-- ===== src/Sources/Recipients.antt =====
-- apps/web/src/pages/recipientDelivery.ts: the recipients that do not receive a rule, and the wording of
-- what one receives.
use teleyes.Common.{
  ℕ, Bool, true, false, not, ◌&&◌, Option, none, some, List, [], ◌∷◌, ◌++◌, ◌==◌, if◌then◌else◌,
  keep, any, length,
}
use teleyes.Text.{Text, codes}
use teleyes.Setup.Decimal.{decimal}

pub data RulesMode : Type 0 where
  every_rule selected : RulesMode

pub record Recipient : Type 0 where
  pub id : ℕ
  pub active : Bool
  pub rules_mode : RulesMode
  pub rule_ids : List ℕ
  pub notify_target : Bool
  pub notify_common : Bool

abbrev pub is_selected : RulesMode → Bool
is_selected selected = true
is_selected every_rule = false

unfoldable pub recipients_missing_rule : List Recipient → ℕ → List Recipient
recipients_missing_rule recipients rule_id =
    keep (λ r. r.active && (is_selected r.rules_mode && not (any (λ id. id == rule_id) r.rule_ids)))
      recipients

-- `recipientsLabel`: its text, and whether nobody receives.
unfoldable pub recipients_label : List Text → Text × Bool
unfolding decimal
recipients_label [] = (codes "ninguém recebe", true)
recipients_label (name ∷ []) = (codes "só " ++ name, false)
recipients_label (name ∷ other ∷ names) =
    (decimal (length (name ∷ other ∷ names)) ++ codes " pessoas", false)

unfoldable pub target_line : Bool → Text
target_line notify_target = if notify_target then codes "ping imediato" else codes "desligado"

-- `digest?.enabled` with the time of the digest, cut to HH:MM.
unfoldable pub common_line : Bool → Option Text → Text
common_line false digest = codes "desligado"
common_line true none = codes "imediato"
common_line true (some time) = codes "no digest " ++ time

unfoldable pub types_label : Bool → Bool → Text
types_label true true = codes "alvos e matches comuns"
types_label true false = codes "só alvos atingidos"
types_label false true = codes "só matches comuns"
types_label false false = codes "nenhum tipo de alerta"

unfoldable pub weekly_label : ℕ → Text
unfolding decimal
weekly_label count =
    if count == 0
    then codes "nenhum alerta na última semana"
    else codes "~"
      ++ decimal count
      ++ (if count == 1 then codes " alerta/semana" else codes " alertas/semana")

unfoldable pub rule_count_label : ℕ → Text
unfolding decimal
rule_count_label count = decimal count ++ (if count == 1 then codes " regra" else codes " regras")
