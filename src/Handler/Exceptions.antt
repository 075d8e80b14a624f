-- ===== src/Handler/Exceptions.antt =====
-- The exceptions that reach the HTTP layer: the classes of @nestjs/common that the services throw,
-- each with the message that the code gives, and the errors of Prisma that nothing catches.

-- The messages of the services; `unspecified` is an exception thrown with none.
pub data Reason : Type 0 where
  unspecified : Reason
  -- missions
  advertisement_not_found advertisement_not_open advertisement_expired own_advertisement : Reason
  packages_not_owned cannot_transition changed_concurrently : Reason
  packages_frozen must_be_accepted no_carrier not_active not_in_transit manual_status : Reason
  under_dispute carrier_is_manual shipper_only mission_inactive not_deletable image_required :
      Reason
  -- proofs
  transit_required no_proof no_code code_used code_expired too_many_attempts invalid_code : Reason
  -- offers
  offer_not_found offer_not_pending own_offer no_mission kyc_missing mission_not_found : Reason
  already_accepted : Reason
  -- disputes
  not_disputable dispute_open dispute_not_found dispute_resolved : Reason
  -- appointments, ratings, transactions, reports, blocks
  appointment_not_found appointment_not_pending own_appointment : Reason
  not_completed already_rated no_transaction payment_shipper_only transaction_not_pending : Reason
  self_report report_not_found report_resolved self_block user_not_found : Reason
  -- conversations, messages, packages
  packages_of_others interaction_unavailable advertisement_unavailable offer_too_heavy : Reason
  appointment_in_past package_not_found package_linked : Reason
  -- tokens, users, authentication, identity
  invalid_token token_expired token_invalid email_unavailable no_phone : Reason
  contact_in_use email_in_use invalid_credentials email_of_other_account : Reason
  google_token_invalid apple_not_configured apple_malformed apple_algorithm apple_issuer : Reason
  apple_expired apple_audience apple_key_not_found apple_signature : Reason
  facebook_not_configured facebook_token_invalid facebook_wrong_app facebook_failed : Reason
  identity_verified webhook_not_configured webhook_signature : Reason
  -- requests
  cross_site origin_missing : Reason

pub data Exception : Type 0 where
  bad_request forbidden not_found conflict unauthorized : Reason → Exception
  -- P2025: no row for `update` or `delete`; a 500 unless caught.
  record_not_found : Exception
  -- P2002 and P2003: a `@unique` or a foreign key is violated.
  unique_violation foreign_key_violation : Exception
  -- A property of `undefined` is read, or Prisma misses an argument or meets an unknown one; a
  -- 500.
  type_error missing_argument : Exception
