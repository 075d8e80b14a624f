-- ===== src/Identity/Service.antt =====
-- The operations of `IdentityService` (src/identity/identity.service.ts). The port
-- `IdentityVerifierPort`, behind which the provider stands, is a parameter.
use gp_connect_server.Common.{
  ℕ, Bool, false, not, ◌&&◌, ◌||◌, Option, none, some, List, [], ◌∷◌, String, ◌==◌, nat_eq,
  string_eq, is_set,
}
use gp_connect_server.Schema.{UserIdentity, UserIdentityStatus, user_identity_status_eq}
use gp_connect_server.Prisma.{Prisma, Effect}
use gp_connect_server.Handler.{
  Handler, Exception, Reason, ◌>>=◌, ◌>>◌, pure, throw, throw_if, when, emit, transaction,
  find_unique, find_many, create, update, update_unique, users, identities,
}

-- `IdentityWebhookEvent`: a session, and the user in its metadata.
pub data IdentityWebhookEvent : Type 0 where
  verified : String → Option ℕ → IdentityWebhookEvent
  requires_input : String → Option ℕ → String → IdentityWebhookEvent
  canceled : String → Option ℕ → String → IdentityWebhookEvent
  ignored : IdentityWebhookEvent

-- What `parseWebhook` returns or throws.
pub data ParsedWebhook : Type 0 where
  event : IdentityWebhookEvent → ParsedWebhook
  not_configured : ParsedWebhook
  invalid_signature : ParsedWebhook

-- `IdentityVerifierPort`: `redact_session` says whether the provider answers.
pub record IdentityVerifier : Type 0 where
  pub create_session : ℕ → String
  pub parse_webhook : Option String → Option String → ParsedWebhook
  pub redact_session : String → Bool

-- `@@unique([provider, providerId])`
abbrev pub same_session : UserIdentity → UserIdentity → Bool
same_session a b = a.provider_id == b.provider_id

-- `update: { reason }`, where `undefined` leaves the column as it is.
abbrev pub or_kept : Option String → Option String → Option String
or_kept none old = old
or_kept (some r) old = some r

abbrev pub new_identity : ℕ → UserIdentityStatus → String → Option String → UserIdentity
new_identity user_id status provider_id reason = record {
  user_id = user_id;
  provider_id = provider_id;
  status = status;
  reason = reason;
}

abbrev pub with_identity_status :
    UserIdentityStatus → String → Option String → UserIdentity → UserIdentity
with_identity_status status provider_id reason i = record i {
  status = status;
  provider_id = provider_id;
  reason = or_kept reason i.reason;
}

abbrev pub already_verified : Option UserIdentity → Bool
already_verified none = false
already_verified (some i) = i.status == UserIdentityStatus.verified

module _ {P : Prisma} where
  unfoldable pub upsert_status :
      ℕ → UserIdentityStatus → String → Option String → Handler P (Unit {0})
  upsert_status user_id status provider_id reason = find_unique identities user_id >>= λ found.
      elim found [
        | none ↦ (do
          user ← find_unique users user_id
          throw_if (not (is_set user)) Exception.foreign_key_violation
          create identities (λ i. i.user_id == user_id || i.provider_id == provider_id)
              (new_identity user_id status provider_id reason)
          pure tt)
        | some _ ↦ (do
          update_unique identities same_session user_id
              (with_identity_status status provider_id reason)
          pure tt)
      ]

  unfoldable pub create_verification_session : IdentityVerifier → ℕ → Handler P String
  create_verification_session v user_id = do
    existing ← find_unique identities user_id
    throw_if (already_verified existing) (Exception.bad_request Reason.identity_verified)
    upsert_status user_id UserIdentityStatus.pending (v.create_session user_id) none
    pure (v.create_session user_id)

  -- The two writes of `verified` and `canceled`.
  unfoldable pub badge_writes : ℕ → UserIdentityStatus → String → Option ℕ → Handler P (Unit {0})
  badge_writes user_id status session_id badge = do
    upsert_status user_id status session_id none
    update users user_id (λ u. record u { id_card_verified_at = badge })
    pure tt

  unfoldable pub set_badge : ℕ → UserIdentityStatus → String → Option ℕ → Handler P (Unit {0})
  set_badge user_id status session_id badge =
      transaction (badge_writes user_id status session_id badge)

  unfoldable pub handle_event : ℕ → IdentityWebhookEvent → Handler P (Unit {0})
  handle_event now IdentityWebhookEvent.ignored = pure tt
  handle_event now (IdentityWebhookEvent.verified session_id none) = pure tt
  handle_event now (IdentityWebhookEvent.requires_input session_id none reason) = pure tt
  handle_event now (IdentityWebhookEvent.canceled session_id none reason) = pure tt
  handle_event now (IdentityWebhookEvent.verified session_id (some user_id)) =
      set_badge user_id UserIdentityStatus.verified session_id (some now)
  handle_event now (IdentityWebhookEvent.canceled session_id (some user_id) reason) =
      set_badge user_id UserIdentityStatus.canceled session_id none
  handle_event now (IdentityWebhookEvent.requires_input session_id (some user_id) reason) =
      upsert_status user_id UserIdentityStatus.requires_input session_id (some reason)

  -- `{ received: true }`, or a refusal of the request.
  unfoldable pub handle_parsed : ℕ → ParsedWebhook → Handler P (Unit {0})
  handle_parsed now (ParsedWebhook.event e) = handle_event now e
  handle_parsed now ParsedWebhook.not_configured =
      throw (Exception.bad_request Reason.webhook_not_configured)
  handle_parsed now ParsedWebhook.invalid_signature =
      throw (Exception.bad_request Reason.webhook_signature)

  unfoldable pub handle_webhook :
      IdentityVerifier → ℕ → Option String → Option String → Handler P (Unit {0})
  handle_webhook v now raw_body signature = handle_parsed now (v.parse_webhook raw_body signature)

  -- The sessions one after the other; a failure of the provider is logged.
  unfoldable pub redact_sessions : IdentityVerifier → List UserIdentity → Handler P (Unit {0})
  redact_sessions v [] = pure tt
  redact_sessions v (i ∷ rest) = do
    when (not (i.provider_id == "") && v.redact_session i.provider_id)
        (emit (Effect.session_redacted i.provider_id))
    redact_sessions v rest

  unfoldable pub redact_user_data : IdentityVerifier → ℕ → Handler P (Unit {0})
  redact_user_data v user_id = do
    sessions ← find_many identities (λ i. i.user_id == user_id)
    redact_sessions v sessions
