-- ===== src/Schema/Rows.antt =====
-- The rows of prisma/schema.prisma that the modelled services read or write. Identifiers (UUIDs)
-- are only compared, so they are numbers; dates are milliseconds; decimals are whole numbers of
-- their smallest unit. Columns that no modelled code reads (`createdAt`, `updatedAt`) are left out.
use gp_connect_server.Common.{ℕ, String, Bool, Option}
use gp_connect_server.Schema.Enums.{
  MissionStatus, AdvertisementType, AdvertisementStatus, ConversationStatus, OfferStatus,
  AppointmentStatus, TransactionMethod, TransactionStatus, PackageStatus, ProofType, DisputeStatus,
  ReportStatus, ReportTarget, ReportReason, MessageType, AppointmentType, Role,
  VerificationTokenType, UserIdentityStatus, AuthProvider,
}

pub record User : Type 0 where
  pub id : ℕ
  pub email : String
  pub pending_email : Option String
  pub phone : Option String
  pub first_name : String
  pub last_name : String
  pub password : Option String
  pub role : Role
  pub email_verified_at : Option ℕ
  pub phone_verified_at : Option ℕ
  pub id_card_verified_at : Option ℕ
  -- `preferences?.notifyEmail`: none where the user has no row of preferences.
  pub notify_email : Option Bool

pub record Mission : Type 0 where
  pub id : ℕ
  pub advertisement_id : ℕ
  pub shipper_id : ℕ
  pub carrier_id : Option ℕ
  pub negotiated_price : ℕ
  pub status : MissionStatus
  pub recipient_name : Option String
  pub recipient_phone : Option String

pub record MissionPackage : Type 0 where
  pub mission_id : ℕ
  pub package_id : ℕ

pub record MissionProof : Type 0 where
  pub id : ℕ
  pub mission_id : ℕ
  pub type : ProofType
  pub otp_hash : Option String
  pub otp_expires_at : Option ℕ
  pub otp_used_at : Option ℕ
  pub otp_attempts : ℕ
  pub created_by_id : Option ℕ
  pub verified_by_id : Option ℕ

pub record MissionDispute : Type 0 where
  pub id : ℕ
  pub mission_id : ℕ
  pub opened_by_id : ℕ
  pub reason : String
  pub description : Option String
  pub status : DisputeStatus
  pub resolution : Option String
  pub resolved_by_id : Option ℕ
  pub resolved_at : Option ℕ
  pub github_issue_number : Option ℕ

pub record Advertisement : Type 0 where
  pub id : ℕ
  pub type : AdvertisementType
  pub status : AdvertisementStatus
  pub price : ℕ
  pub max_weight : ℕ
  pub destination_id : ℕ
  pub departure_id : ℕ
  pub author_id : ℕ
  pub departure_date : Option ℕ
  pub arrival_date : ℕ
  pub created_at : ℕ

pub record Transaction : Type 0 where
  pub id : ℕ
  pub amount : ℕ
  pub method : TransactionMethod
  pub status : TransactionStatus
  pub mission_id : ℕ

pub record Conversation : Type 0 where
  pub id : ℕ
  pub advertisement_id : ℕ
  pub shipper_id : ℕ
  pub carrier_id : ℕ
  pub mission_id : Option ℕ
  pub status : ConversationStatus
  pub last_message_at : Option ℕ
  pub shipper_deleted_at : Option ℕ
  pub carrier_deleted_at : Option ℕ

pub record Message : Type 0 where
  pub id : ℕ
  pub content : Option String
  pub conversation_id : ℕ
  pub type : MessageType
  pub author_id : ℕ
  pub created_at : ℕ

-- An offer and an appointment share the id of the message that carries them.
pub record MessageOffer : Type 0 where
  pub id : ℕ
  pub price : ℕ
  pub weight : ℕ
  pub mission_id : Option ℕ
  pub status : OfferStatus

pub record MessageAppointment : Type 0 where
  pub id : ℕ
  pub type : AppointmentType
  pub scheduled_at : ℕ
  pub status : AppointmentStatus

pub record Package : Type 0 where
  pub id : ℕ
  pub name : String
  pub weight : ℕ
  pub owner_id : ℕ
  pub status : PackageStatus

pub record MissionRating : Type 0 where
  pub id : ℕ
  pub mission_id : ℕ
  pub rater_id : ℕ
  pub rated_id : ℕ
  pub score : ℕ
  pub comment : Option String

pub record Report : Type 0 where
  pub id : ℕ
  pub reporter_id : ℕ
  pub target_type : ReportTarget
  pub target_id : ℕ
  pub reason : ReportReason
  pub description : Option String
  pub status : ReportStatus
  pub resolution : Option String
  pub reviewed_by_id : Option ℕ
  pub reviewed_at : Option ℕ

pub record UserBlock : Type 0 where
  pub blocker_id : ℕ
  pub blocked_id : ℕ

pub record VerificationToken : Type 0 where
  pub id : ℕ
  pub user_id : ℕ
  pub type : VerificationTokenType
  pub token_hash : String
  pub identifier : Option String
  pub expires_at : ℕ
  pub used_at : Option ℕ

-- `UserIdentityProvider` has the one value STRIPE_IDENTITY, so `@@unique([userId, provider])` makes
-- the user the key and `@@unique([provider, providerId])` makes the session unique.
pub record UserIdentity : Type 0 where
  pub user_id : ℕ
  pub provider_id : String
  pub status : UserIdentityStatus
  pub reason : Option String

pub record UserProvider : Type 0 where
  pub id : ℕ
  pub user_id : ℕ
  pub provider : AuthProvider
  pub provider_user_id : String
  pub email : Option String
