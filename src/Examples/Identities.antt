-- ===== src/Examples/Identities.antt =====
-- Events of the identity provider.
use gp_connect_server.Common.{◌≡◌, refl, some, none, false, arith}
use gp_connect_server.Schema.{UserIdentity, UserIdentityStatus}
use gp_connect_server.Prisma.InMemory.{in_memory}
use gp_connect_server.Handler.{ok, is_ok}
use gp_connect_server.Offers.{LoadedOffer, accept, load_pending_offer, assert_carrier_kyc_verified}
use gp_connect_server.Identity.{
  IdentityWebhookEvent, handle_event, set_badge, badge_writes, upsert_status, handle_webhook,
  create_verification_session,
}
use gp_connect_server.Identity.Badge.{
  BadgeFollows, IdentityRun, IdentityStep, IdentityRun-BadgeFollows,
}
use gp_connect_server.Identity.Gate.{handle_event-canceled-accept, handle_event-requires_input}
use gp_connect_server.Examples.Data.{conversation, offer, negotiation}
use gp_connect_server.Examples.Removals.{provider, visited}

-- The shipper starts a session, and an event with a wrong signature arrives.
IdentityRun-BadgeFollows_example :
    BadgeFollows
      (handle_webhook provider 100 none none
        (create_verification_session provider 1 negotiation).1).1
IdentityRun-BadgeFollows_example =
    IdentityRun-BadgeFollows
      (IdentityRun.next (IdentityRun.next IdentityRun.here (IdentityStep.start 1 negotiation))
        (IdentityStep.webhook 100 none none (create_verification_session provider 1 negotiation).1))
      (λ id i u f e g. absurd (ground arith))

abbrev canceled : IdentityWebhookEvent
canceled = IdentityWebhookEvent.canceled "vs_1" (some 2) "fraud"

canceled-runs : (handle_event 100 canceled visited).0 ≡ ok tt
unfolding handle_event set_badge badge_writes upsert_status
canceled-runs = refl

abbrev loaded_offer : LoadedOffer
loaded_offer = record { offer = offer; author_id = 1; conversation = conversation }

canceled-loads : (load_pending_offer 40 (handle_event 100 canceled visited).1).0 ≡ ok loaded_offer
unfolding handle_event set_badge badge_writes upsert_status load_pending_offer
canceled-loads = refl

handle_event-canceled-accept_example :
    let w' = (handle_event 100 canceled visited).1 in
    (is_ok (accept 70 40 2 w').0 ≡ false) × ((accept 70 40 2 w').1 ≡ w')
handle_event-canceled-accept_example =
    handle_event-canceled-accept 100 2 "vs_1" "fraud" visited 70 40 2 loaded_offer canceled-runs
      canceled-loads refl

abbrev late_event : IdentityWebhookEvent
late_event = IdentityWebhookEvent.requires_input "vs_1" (some 2) "blurred"

late-runs : (handle_event 100 late_event visited).0 ≡ ok tt
unfolding handle_event upsert_status
late-runs = refl

gate-open : (assert_carrier_kyc_verified 2 visited).0 ≡ ok tt
unfolding assert_carrier_kyc_verified
gate-open = refl

handle_event-requires_input_example :
    let w' = (handle_event 100 late_event visited).1 in
    ((assert_carrier_kyc_verified 2 w').0 ≡ ok tt)
    × ((i : UserIdentity) × (in_memory.user_identity.find_unique 2 w'.identities ≡ some i)
        × (i.status ≡ UserIdentityStatus.requires_input))
handle_event-requires_input_example =
    handle_event-requires_input 100 2 "vs_1" "blurred" visited late-runs gate-open
