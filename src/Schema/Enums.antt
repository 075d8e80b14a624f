-- ===== src/Schema/Enums.antt =====
-- The enumerations of prisma/schema.prisma. Each is compared by its constructor's number.
-- `open_` stands for OPEN, since `open` is a reserved word.
use gp_connect_server.Common.{ℕ, true, ◌≡◌, ◌↔◌, arith, Eq, enum_beq}

pub data MissionStatus : Type 0 where
  pending accepted in_transit completed cancelled disputed : MissionStatus

abbrev pub mission_status_code : MissionStatus → ℕ
mission_status_code MissionStatus.pending = 0
mission_status_code MissionStatus.accepted = 1
mission_status_code MissionStatus.in_transit = 2
mission_status_code MissionStatus.completed = 3
mission_status_code MissionStatus.cancelled = 4
mission_status_code MissionStatus.disputed = 5

pub mission_status_beq_iff :
    (a b : MissionStatus) → (enum_beq mission_status_code a b ≡ true) ↔ (a ≡ b)
mission_status_beq_iff a b = (λ h. ground arith, λ h. ground arith)

instance abbrev pub mission_status_eq : Eq MissionStatus
mission_status_eq = record { beq = enum_beq mission_status_code; beq_iff = mission_status_beq_iff }

pub data AdvertisementType : Type 0 where
  shipping delivery : AdvertisementType

abbrev pub advertisement_type_code : AdvertisementType → ℕ
advertisement_type_code AdvertisementType.shipping = 0
advertisement_type_code AdvertisementType.delivery = 1

pub advertisement_type_beq_iff :
    (a b : AdvertisementType) → (enum_beq advertisement_type_code a b ≡ true) ↔ (a ≡ b)
advertisement_type_beq_iff a b = (λ h. ground arith, λ h. ground arith)

instance abbrev pub advertisement_type_eq : Eq AdvertisementType
advertisement_type_eq = record {
  beq = enum_beq advertisement_type_code;
  beq_iff = advertisement_type_beq_iff;
}

pub data AdvertisementStatus : Type 0 where
  open_ in_progress completed closed : AdvertisementStatus

abbrev pub advertisement_status_code : AdvertisementStatus → ℕ
advertisement_status_code AdvertisementStatus.open_ = 0
advertisement_status_code AdvertisementStatus.in_progress = 1
advertisement_status_code AdvertisementStatus.completed = 2
advertisement_status_code AdvertisementStatus.closed = 3

pub advertisement_status_beq_iff :
    (a b : AdvertisementStatus) → (enum_beq advertisement_status_code a b ≡ true) ↔ (a ≡ b)
advertisement_status_beq_iff a b = (λ h. ground arith, λ h. ground arith)

instance abbrev pub advertisement_status_eq : Eq AdvertisementStatus
advertisement_status_eq = record {
  beq = enum_beq advertisement_status_code;
  beq_iff = advertisement_status_beq_iff;
}

pub data ConversationStatus : Type 0 where
  draft archived active deleted : ConversationStatus

abbrev pub conversation_status_code : ConversationStatus → ℕ
conversation_status_code ConversationStatus.draft = 0
conversation_status_code ConversationStatus.archived = 1
conversation_status_code ConversationStatus.active = 2
conversation_status_code ConversationStatus.deleted = 3

pub conversation_status_beq_iff :
    (a b : ConversationStatus) → (enum_beq conversation_status_code a b ≡ true) ↔ (a ≡ b)
conversation_status_beq_iff a b = (λ h. ground arith, λ h. ground arith)

instance abbrev pub conversation_status_eq : Eq ConversationStatus
conversation_status_eq = record {
  beq = enum_beq conversation_status_code;
  beq_iff = conversation_status_beq_iff;
}

pub data OfferStatus : Type 0 where
  pending rejected accepted : OfferStatus

abbrev pub offer_status_code : OfferStatus → ℕ
offer_status_code OfferStatus.pending = 0
offer_status_code OfferStatus.rejected = 1
offer_status_code OfferStatus.accepted = 2

pub offer_status_beq_iff : (a b : OfferStatus) → (enum_beq offer_status_code a b ≡ true) ↔ (a ≡ b)
offer_status_beq_iff a b = (λ h. ground arith, λ h. ground arith)

instance abbrev pub offer_status_eq : Eq OfferStatus
offer_status_eq = record { beq = enum_beq offer_status_code; beq_iff = offer_status_beq_iff }

pub data AppointmentStatus : Type 0 where
  pending accepted rejected : AppointmentStatus

abbrev pub appointment_status_code : AppointmentStatus → ℕ
appointment_status_code AppointmentStatus.pending = 0
appointment_status_code AppointmentStatus.accepted = 1
appointment_status_code AppointmentStatus.rejected = 2

pub appointment_status_beq_iff :
    (a b : AppointmentStatus) → (enum_beq appointment_status_code a b ≡ true) ↔ (a ≡ b)
appointment_status_beq_iff a b = (λ h. ground arith, λ h. ground arith)

instance abbrev pub appointment_status_eq : Eq AppointmentStatus
appointment_status_eq = record {
  beq = enum_beq appointment_status_code;
  beq_iff = appointment_status_beq_iff;
}

pub data TransactionMethod : Type 0 where
  cash credit_card paypal : TransactionMethod

abbrev pub transaction_method_code : TransactionMethod → ℕ
transaction_method_code TransactionMethod.cash = 0
transaction_method_code TransactionMethod.credit_card = 1
transaction_method_code TransactionMethod.paypal = 2

pub transaction_method_beq_iff :
    (a b : TransactionMethod) → (enum_beq transaction_method_code a b ≡ true) ↔ (a ≡ b)
transaction_method_beq_iff a b = (λ h. ground arith, λ h. ground arith)

instance abbrev pub transaction_method_eq : Eq TransactionMethod
transaction_method_eq = record {
  beq = enum_beq transaction_method_code;
  beq_iff = transaction_method_beq_iff;
}

pub data TransactionStatus : Type 0 where
  pending completed cancelled : TransactionStatus

abbrev pub transaction_status_code : TransactionStatus → ℕ
transaction_status_code TransactionStatus.pending = 0
transaction_status_code TransactionStatus.completed = 1
transaction_status_code TransactionStatus.cancelled = 2

pub transaction_status_beq_iff :
    (a b : TransactionStatus) → (enum_beq transaction_status_code a b ≡ true) ↔ (a ≡ b)
transaction_status_beq_iff a b = (λ h. ground arith, λ h. ground arith)

instance abbrev pub transaction_status_eq : Eq TransactionStatus
transaction_status_eq = record {
  beq = enum_beq transaction_status_code;
  beq_iff = transaction_status_beq_iff;
}

pub data PackageStatus : Type 0 where
  pending picked_up in_transit disputed delivered : PackageStatus

abbrev pub package_status_code : PackageStatus → ℕ
package_status_code PackageStatus.pending = 0
package_status_code PackageStatus.picked_up = 1
package_status_code PackageStatus.in_transit = 2
package_status_code PackageStatus.disputed = 3
package_status_code PackageStatus.delivered = 4

pub package_status_beq_iff :
    (a b : PackageStatus) → (enum_beq package_status_code a b ≡ true) ↔ (a ≡ b)
package_status_beq_iff a b = (λ h. ground arith, λ h. ground arith)

instance abbrev pub package_status_eq : Eq PackageStatus
package_status_eq = record { beq = enum_beq package_status_code; beq_iff = package_status_beq_iff }

pub data ProofType : Type 0 where
  pickup delivery other : ProofType

abbrev pub proof_type_code : ProofType → ℕ
proof_type_code ProofType.pickup = 0
proof_type_code ProofType.delivery = 1
proof_type_code ProofType.other = 2

pub proof_type_beq_iff : (a b : ProofType) → (enum_beq proof_type_code a b ≡ true) ↔ (a ≡ b)
proof_type_beq_iff a b = (λ h. ground arith, λ h. ground arith)

instance abbrev pub proof_type_eq : Eq ProofType
proof_type_eq = record { beq = enum_beq proof_type_code; beq_iff = proof_type_beq_iff }

pub data DisputeStatus : Type 0 where
  open_ resolved : DisputeStatus

abbrev pub dispute_status_code : DisputeStatus → ℕ
dispute_status_code DisputeStatus.open_ = 0
dispute_status_code DisputeStatus.resolved = 1

pub dispute_status_beq_iff :
    (a b : DisputeStatus) → (enum_beq dispute_status_code a b ≡ true) ↔ (a ≡ b)
dispute_status_beq_iff a b = (λ h. ground arith, λ h. ground arith)

instance abbrev pub dispute_status_eq : Eq DisputeStatus
dispute_status_eq = record { beq = enum_beq dispute_status_code; beq_iff = dispute_status_beq_iff }

pub data ReportStatus : Type 0 where
  open_ reviewed action_taken dismissed : ReportStatus

abbrev pub report_status_code : ReportStatus → ℕ
report_status_code ReportStatus.open_ = 0
report_status_code ReportStatus.reviewed = 1
report_status_code ReportStatus.action_taken = 2
report_status_code ReportStatus.dismissed = 3

pub report_status_beq_iff :
    (a b : ReportStatus) → (enum_beq report_status_code a b ≡ true) ↔ (a ≡ b)
report_status_beq_iff a b = (λ h. ground arith, λ h. ground arith)

instance abbrev pub report_status_eq : Eq ReportStatus
report_status_eq = record { beq = enum_beq report_status_code; beq_iff = report_status_beq_iff }

pub data ReportTarget : Type 0 where
  user advertisement message conversation : ReportTarget

abbrev pub report_target_code : ReportTarget → ℕ
report_target_code ReportTarget.user = 0
report_target_code ReportTarget.advertisement = 1
report_target_code ReportTarget.message = 2
report_target_code ReportTarget.conversation = 3

pub report_target_beq_iff :
    (a b : ReportTarget) → (enum_beq report_target_code a b ≡ true) ↔ (a ≡ b)
report_target_beq_iff a b = (λ h. ground arith, λ h. ground arith)

instance abbrev pub report_target_eq : Eq ReportTarget
report_target_eq = record { beq = enum_beq report_target_code; beq_iff = report_target_beq_iff }

pub data MessageType : Type 0 where
  appointment media offer text : MessageType

pub data AppointmentType : Type 0 where
  pickup delivery : AppointmentType

pub data ReportReason : Type 0 where
  scam harassment inappropriate spam other : ReportReason

pub data Role : Type 0 where
  shipper admin carrier : Role

abbrev pub role_code : Role → ℕ
role_code Role.shipper = 0
role_code Role.admin = 1
role_code Role.carrier = 2

pub role_beq_iff : (a b : Role) → (enum_beq role_code a b ≡ true) ↔ (a ≡ b)
role_beq_iff a b = (λ h. ground arith, λ h. ground arith)

instance abbrev pub role_eq : Eq Role
role_eq = record { beq = enum_beq role_code; beq_iff = role_beq_iff }

pub data VerificationTokenType : Type 0 where
  email phone : VerificationTokenType

abbrev pub verification_token_type_code : VerificationTokenType → ℕ
verification_token_type_code VerificationTokenType.email = 0
verification_token_type_code VerificationTokenType.phone = 1

pub verification_token_type_beq_iff :
    (a b : VerificationTokenType) → (enum_beq verification_token_type_code a b ≡ true) ↔ (a ≡ b)
verification_token_type_beq_iff a b = (λ h. ground arith, λ h. ground arith)

instance abbrev pub verification_token_type_eq : Eq VerificationTokenType
verification_token_type_eq = record {
  beq = enum_beq verification_token_type_code;
  beq_iff = verification_token_type_beq_iff;
}

pub data UserIdentityStatus : Type 0 where
  pending verified rejected requires_input canceled : UserIdentityStatus

abbrev pub user_identity_status_code : UserIdentityStatus → ℕ
user_identity_status_code UserIdentityStatus.pending = 0
user_identity_status_code UserIdentityStatus.verified = 1
user_identity_status_code UserIdentityStatus.rejected = 2
user_identity_status_code UserIdentityStatus.requires_input = 3
user_identity_status_code UserIdentityStatus.canceled = 4

pub user_identity_status_beq_iff :
    (a b : UserIdentityStatus) → (enum_beq user_identity_status_code a b ≡ true) ↔ (a ≡ b)
user_identity_status_beq_iff a b = (λ h. ground arith, λ h. ground arith)

instance abbrev pub user_identity_status_eq : Eq UserIdentityStatus
user_identity_status_eq = record {
  beq = enum_beq user_identity_status_code;
  beq_iff = user_identity_status_beq_iff;
}

pub data AuthProvider : Type 0 where
  google apple facebook : AuthProvider

abbrev pub auth_provider_code : AuthProvider → ℕ
auth_provider_code AuthProvider.google = 0
auth_provider_code AuthProvider.apple = 1
auth_provider_code AuthProvider.facebook = 2

pub auth_provider_beq_iff :
    (a b : AuthProvider) → (enum_beq auth_provider_code a b ≡ true) ↔ (a ≡ b)
auth_provider_beq_iff a b = (λ h. ground arith, λ h. ground arith)

instance abbrev pub auth_provider_eq : Eq AuthProvider
auth_provider_eq = record { beq = enum_beq auth_provider_code; beq_iff = auth_provider_beq_iff }
