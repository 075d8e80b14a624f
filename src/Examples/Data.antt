-- ===== src/Examples/Data.antt =====
-- A small database in memory. The carrier 2 offers a trip (advertisement 10); the shippers 1 and 3
-- negotiate for it, each in a conversation with a mission and a pending offer of their own.
use gp_connect_server.Common.{none, some, [], ◌∷◌, true, false, ◌≡◌, String}
use gp_connect_server.Schema.{
  User, Mission, MissionProof, Advertisement, Conversation, Message, MessageOffer, Package,
  Transaction, MissionDispute, Role, MissionStatus, AdvertisementStatus, AdvertisementType,
  ConversationStatus, OfferStatus, ProofType, PackageStatus, TransactionMethod, TransactionStatus,
  DisputeStatus, MessageType,
}
use gp_connect_server.Prisma.{World}
use gp_connect_server.Prisma.InMemory.{in_memory}
use gp_connect_server.Proofs.{Bcrypt}
use text.Mathlib.Text.{◌==◌ as str_eq}
use text.Mathlib.TextPositions.{eq_refl}

abbrev pub shipper : User
shipper = record {
  id = 1;
  email = "s@x";
  pending_email = none;
  phone = some "+331";
  first_name = "Sam";
  last_name = "S";
  password = none;
  role = Role.shipper;
  email_verified_at = none;
  phone_verified_at = some 4;
  id_card_verified_at = none;
  notify_email = none;
}

abbrev pub carrier : User
carrier = record {
  id = 2;
  email = "c@x";
  pending_email = none;
  phone = none;
  first_name = "Cal";
  last_name = "C";
  password = none;
  role = Role.carrier;
  email_verified_at = some 3;
  phone_verified_at = none;
  id_card_verified_at = some 5;
  notify_email = some false;
}

abbrev pub trip : Advertisement
trip = record {
  id = 10;
  type = AdvertisementType.delivery;
  status = AdvertisementStatus.open_;
  price = 100;
  max_weight = 20;
  destination_id = 71;
  departure_id = 72;
  author_id = 2;
  departure_date = none;
  arrival_date = 1000;
  created_at = 5;
}

abbrev pub mission : Mission
mission = record {
  id = 20;
  advertisement_id = 10;
  shipper_id = 1;
  carrier_id = none;
  negotiated_price = 0;
  status = MissionStatus.pending;
  recipient_name = none;
  recipient_phone = none;
}

abbrev pub rival_mission : Mission
rival_mission = record mission { id = 21; shipper_id = 3 }

abbrev pub conversation : Conversation
conversation = record {
  id = 30;
  advertisement_id = 10;
  shipper_id = 1;
  carrier_id = 2;
  mission_id = some 20;
  status = ConversationStatus.active;
  last_message_at = none;
  shipper_deleted_at = none;
  carrier_deleted_at = none;
}

abbrev pub rival_conversation : Conversation
rival_conversation = record conversation { id = 31; shipper_id = 3; mission_id = some 21 }

abbrev pub message : Message
message = record {
  id = 40;
  content = none;
  conversation_id = 30;
  type = MessageType.offer;
  author_id = 1;
  created_at = 1;
}

abbrev pub offer : MessageOffer
offer = record { id = 40; price = 500; weight = 3; mission_id = none; status = OfferStatus.pending }

abbrev pub parcel : Package
parcel = record { id = 50; name = "box"; weight = 3; owner_id = 1; status = PackageStatus.pending }

abbrev pub negotiation : World in_memory
negotiation = record {
  users = shipper ∷ carrier ∷ [];
  missions = mission ∷ rival_mission ∷ [];
  mission_packages = (record { mission_id = 20; package_id = 50 }) ∷ [];
  proofs = [];
  disputes = [];
  advertisements = trip ∷ [];
  transactions = [];
  conversations = conversation ∷ rival_conversation ∷ [];
  messages = message ∷ [];
  offers = offer ∷ [];
  appointments = [];
  packages = parcel ∷ [];
  ratings = [];
  reports = [];
  blocks = [];
  tokens = [];
  identities = [];
  providers = [];
  effects = [];
}

-- The mission once the offer is accepted, with a pickup code "1234" that is not yet used.
abbrev pub accepted_mission : Mission
accepted_mission = record mission {
  carrier_id = some 2;
  negotiated_price = 500;
  status = MissionStatus.accepted;
}

abbrev pub proof : MissionProof
proof = record {
  id = 60;
  mission_id = 20;
  type = ProofType.pickup;
  otp_hash = some "1234";
  otp_expires_at = some 900;
  otp_used_at = none;
  otp_attempts = 0;
  created_by_id = some 1;
  verified_by_id = some 2;
}

abbrev pub payment : Transaction
payment = record {
  id = 70;
  amount = 500;
  method = TransactionMethod.cash;
  status = TransactionStatus.pending;
  mission_id = 20;
}

abbrev pub engaged : World in_memory
engaged = record negotiation {
  missions = accepted_mission ∷ record rival_mission { status = MissionStatus.cancelled } ∷ [];
  proofs = proof ∷ [];
  transactions = payment ∷ [];
}

abbrev pub moving_mission : Mission
moving_mission = record accepted_mission { status = MissionStatus.in_transit }

abbrev pub moving : World in_memory
moving = record engaged {
  missions = moving_mission ∷ [];
  proofs = record proof { type = ProofType.delivery } ∷ [];
}

abbrev pub complaint : MissionDispute
complaint = record {
  id = 80;
  mission_id = 20;
  opened_by_id = 1;
  reason = "late";
  description = none;
  status = DisputeStatus.open_;
  resolution = none;
  resolved_by_id = none;
  resolved_at = none;
  github_issue_number = some 7;
}

abbrev pub disputed_mission : Mission
disputed_mission = record accepted_mission { status = MissionStatus.disputed }

abbrev pub disputed : World in_memory
disputed = record engaged { missions = disputed_mission ∷ []; disputes = complaint ∷ [] }

-- A hash that hides nothing stands for `bcrypt`.
pub plain_compare : (salt plain : String) → str_eq plain plain ≡ true
plain_compare salt plain = eq_refl plain

abbrev pub plain_bcrypt : Bcrypt
plain_bcrypt = record {
  hash = λ salt plain. plain;
  compare = λ plain hashed. str_eq plain hashed;
  compare-hash = plain_compare;
}
