-- ===== src/Prisma/Client.antt =====
-- The delegates of `DatabaseService` (src/database/database.service.ts) over the rows of
-- prisma/schema.prisma, and the state that a request handler runs on.
use gp_connect_server.Common.{ℕ, Option, List, String}
use gp_connect_server.Schema.{
  User, Mission, MissionPackage, MissionProof, MissionDispute, Advertisement, Transaction,
  Conversation, Message, MessageOffer, MessageAppointment, Package, MissionRating, Report,
  UserBlock, VerificationToken, UserIdentity, UserProvider, MissionStatus, ProofType,
}
use gp_connect_server.Prisma.Interface.{Delegate}

abbrev pub mission_package_key : MissionPackage → ℕ × ℕ
mission_package_key r = (r.mission_id, r.package_id)

abbrev pub user_block_key : UserBlock → ℕ × ℕ
user_block_key r = (r.blocker_id, r.blocked_id)

pub record Prisma : Type 1 where
  pub user : Delegate User ℕ (λ r. r.id)
  pub mission : Delegate Mission ℕ (λ r. r.id)
  pub mission_package : Delegate MissionPackage (ℕ × ℕ) mission_package_key
  pub mission_proof : Delegate MissionProof ℕ (λ r. r.id)
  pub mission_dispute : Delegate MissionDispute ℕ (λ r. r.id)
  pub advertisement : Delegate Advertisement ℕ (λ r. r.id)
  pub transaction : Delegate Transaction ℕ (λ r. r.id)
  pub conversation : Delegate Conversation ℕ (λ r. r.id)
  pub message : Delegate Message ℕ (λ r. r.id)
  pub message_offer : Delegate MessageOffer ℕ (λ r. r.id)
  pub message_appointment : Delegate MessageAppointment ℕ (λ r. r.id)
  pub package_ : Delegate Package ℕ (λ r. r.id)
  pub mission_rating : Delegate MissionRating ℕ (λ r. r.id)
  pub report : Delegate Report ℕ (λ r. r.id)
  pub user_block : Delegate UserBlock (ℕ × ℕ) user_block_key
  pub verification_token : Delegate VerificationToken ℕ (λ r. r.id)
  pub user_identity : Delegate UserIdentity ℕ (λ r. r.user_id)
  pub user_provider : Delegate UserProvider ℕ (λ r. r.id)

-- What a handler hands to the event emitter, to the mailer or to the ticket tracker.
pub data Effect : Type 0 where
  mission_status_changed : ℕ → MissionStatus → List ℕ → Effect
  offer_updated : Option MessageOffer → ℕ → Effect
  message_created : Message → ℕ → Effect
  appointment_updated : Option MessageAppointment → ℕ → Effect
  proof_verified : ℕ → ProofType → List ℕ → Effect
  stats_updated : List ℕ → Effect
  offer_accepted_mail : String → ℕ → ℕ → Effect
  dispute_opened_mail : String → ℕ → String → Effect
  dispute_resolved_mail : String → ℕ → String → MissionStatus → Effect
  delivery_code_sms : String → String → ℕ → Effect
  ticket_opened : ℕ → ℕ → Effect
  ticket_closed : ℕ → Effect
  email_verification_mail : String → String → Effect
  email_otp_mail : String → String → Effect
  phone_verification_sms : String → String → Effect
  -- The documents of an identity session are erased at the provider.
  session_redacted : String → Effect

pub record World (P : Prisma) : Type 0 where
  pub users : P.user.Table
  pub missions : P.mission.Table
  pub mission_packages : P.mission_package.Table
  pub proofs : P.mission_proof.Table
  pub disputes : P.mission_dispute.Table
  pub advertisements : P.advertisement.Table
  pub transactions : P.transaction.Table
  pub conversations : P.conversation.Table
  pub messages : P.message.Table
  pub offers : P.message_offer.Table
  pub appointments : P.message_appointment.Table
  pub packages : P.package_.Table
  pub ratings : P.mission_rating.Table
  pub reports : P.report.Table
  pub blocks : P.user_block.Table
  pub tokens : P.verification_token.Table
  pub identities : P.user_identity.Table
  pub providers : P.user_provider.Table
  -- Newest first.
  pub effects : List Effect
