-- ===== src/Health/Deliveries.antt =====
-- apps/web/src/components/deliveryStatus.ts: the one pill of the deliveries of a match.
use teleyes.Common.{◌≡◌, ◌↔◌, arith, Bool, true, false, List, [], ◌∷◌, any, all, if◌then◌else◌}

pub data DeliveryStatus : Type 0 where
  sent historical grouped digest_attempted digest_skipped failed not_allowlisted not_configured
        duplicate other :
      DeliveryStatus

pub data StatusPill : Type 0 where
  no_recipient delivered history same_offer attempted outside_digest send_failed not_authorized
        notifications_off repeated waiting :
      StatusPill

abbrev pub is_status : DeliveryStatus → DeliveryStatus → Bool
is_status sent sent = true
is_status historical historical = true
is_status grouped grouped = true
is_status digest_attempted digest_attempted = true
is_status digest_skipped digest_skipped = true
is_status failed failed = true
is_status not_allowlisted not_allowlisted = true
is_status not_configured not_configured = true
is_status duplicate duplicate = true
is_status other other = true
is_status _ _ = false

unfoldable pub summarize_delivery_status : List DeliveryStatus → StatusPill
summarize_delivery_status [] = no_recipient
summarize_delivery_status (d ∷ ds) =
    if any (is_status sent) (d ∷ ds)
    then delivered
    else if any (is_status historical) (d ∷ ds)
    then history
    else if any (is_status grouped) (d ∷ ds)
    then same_offer
    else if any (is_status digest_attempted) (d ∷ ds)
    then attempted
    else if any (is_status digest_skipped) (d ∷ ds)
    then outside_digest
    else if any (is_status failed) (d ∷ ds)
    then send_failed
    else if any (is_status not_allowlisted) (d ∷ ds)
    then not_authorized
    else if all (is_status not_configured) (d ∷ ds)
    then notifications_off
    else if any (is_status duplicate) (d ∷ ds)
    then repeated
    else waiting

-- The pill says that the match was delivered exactly when some delivery was sent, whatever the others
-- are, and that there is no recipient exactly when there is no delivery.
pub summarize_delivery_status-delivered :
    (ds : List DeliveryStatus)
    → ((summarize_delivery_status ds ≡ delivered) ↔ (any (is_status sent) ds ≡ true))
      × ((summarize_delivery_status ds ≡ no_recipient) ↔ (ds ≡ []))
unfolding summarize_delivery_status
summarize_delivery_status-delivered [] = ground arith
summarize_delivery_status-delivered (d ∷ ds) = ground arith
