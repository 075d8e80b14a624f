-- ===== src/Proofs/Service.antt =====
-- The operations of `ProofService` (src/proof/proof.service.ts). The SMS gateway behind
-- `PhoneService` is a parameter: whether a message to a number goes through.
use gp_connect_server.Common.{
  ℕ, ◌+◌, Bool, false, not, ◌&&◌, ◌||◌, Option, none, some, List, [], ◌∷◌, map, ◌==◌, nat_eq, ltb,
  leb, String, is_set, is_some_of, includes, if◌then◌else◌,
}
use gp_connect_server.Schema.{
  MissionProof, ProofType, proof_type_eq, Mission, MissionStatus, mission_status_eq, PackageStatus,
  AdvertisementStatus, TransactionStatus, transaction_status_eq,
}
use gp_connect_server.Prisma.{Prisma, Effect}
use gp_connect_server.Handler.{
  Handler, Exception, Reason, ◌>>=◌, ◌>>◌, pure, throw, or_throw, throw_if, when, emit, transaction,
  find_unique, find_first, find_many, upsert, update, update_many, missions, mission_packages,
  proofs, packages, advertisements, transactions, conversations,
}
use gp_connect_server.Proofs.Codes.{Bcrypt, Otp, verify_otp}

abbrev pub max_otp_attempts : ℕ
max_otp_attempts = 5

-- The key `missionId_type`.
abbrev pub proves : ℕ → ProofType → MissionProof → Bool
proves mission_id type p = p.mission_id == mission_id && p.type == type

-- `ProofDto`, with the id that a new row draws.
pub record ProofDto : Type 0 where
  pub new_id : ℕ
  pub mission_id : ℕ
  pub type : ProofType
  pub created_by_id : ℕ
  pub verified_by_id : ℕ

abbrev pub new_proof : ProofDto → Otp → MissionProof
new_proof d otp = record {
  id = d.new_id;
  mission_id = d.mission_id;
  type = d.type;
  otp_hash = some otp.hash;
  otp_expires_at = some otp.expires_at;
  otp_used_at = none;
  otp_attempts = 0;
  created_by_id = some d.created_by_id;
  verified_by_id = some d.verified_by_id;
}

-- A new code on a row that is there: unused, and with no failed attempt.
abbrev pub renewed : Otp → MissionProof → MissionProof
renewed otp p = record p {
  otp_hash = some otp.hash;
  otp_expires_at = some otp.expires_at;
  otp_used_at = none;
  otp_attempts = 0;
}

-- What the shipper gets back: the code only if no SMS went to the recipient.
pub record DeliveryCode : Type 0 where
  pub code : Option String
  pub expires_at : ℕ
  pub sent_to_recipient : Bool

-- `otpExpiresAt < new Date()`; JavaScript compares a missing date as 0.
abbrev pub expired : ℕ → Option ℕ → Bool
expired now none = ltb 0 now
expired now (some t) = ltb t now

-- `proof.verifiedById && proof.verifiedById !== verifiedById`
abbrev pub reserved_for_other : Option ℕ → ℕ → Bool
reserved_for_other none user_id = false
reserved_for_other (some v) user_id = not (v == user_id)

-- The two parties of a mission, `filter(Boolean)`.
abbrev pub parties : Mission → List ℕ
parties m = elim m.carrier_id [ none ↦ m.shipper_id ∷ [] | some c ↦ m.shipper_id ∷ c ∷ [] ]

abbrev pub attempted : MissionProof → MissionProof
attempted p = record p { otp_attempts = p.otp_attempts + 1 }

abbrev pub used : ℕ → ℕ → MissionProof → MissionProof
used now user_id p = record p { otp_used_at = some now; verified_by_id = some user_id }

module _ {P : Prisma} where
  unfoldable pub create_proof : ProofDto → Otp → Handler P Otp
  create_proof d otp = do
    upsert proofs (proves d.mission_id d.type)
        (λ p. p.id == d.new_id || proves d.mission_id d.type p) (new_proof d otp) (renewed otp)
    pure otp

  -- The guards of `generateDeliveryCode`; returns the mission and its carrier.
  unfoldable pub delivery_code_guards : ℕ → ℕ → Handler P (Mission × ℕ)
  delivery_code_guards mission_id requester_id = do
    found ← find_unique missions mission_id
    m ← or_throw (Exception.not_found Reason.unspecified) found
    throw_if (not (m.status == MissionStatus.in_transit))
        (Exception.bad_request Reason.transit_required)
    throw_if (not (m.shipper_id == requester_id)) (Exception.forbidden Reason.unspecified)
    carrier_id ← or_throw (Exception.bad_request Reason.no_carrier) m.carrier_id
    pure (m, carrier_id)

  -- The SMS to the recipient; `reaches` says whether the gateway takes it, and a failure is caught.
  unfoldable pub send_to_recipient : (String → Bool) → Option String → Otp → Handler P Bool
  send_to_recipient reaches none otp = pure false
  send_to_recipient reaches (some phone) otp = do
    when (reaches phone) (emit (Effect.delivery_code_sms phone otp.plain otp.expires_at))
    pure (reaches phone)

  unfoldable pub generate_delivery_code : (String → Bool) → Otp → ℕ → ℕ → ℕ → Handler P DeliveryCode
  generate_delivery_code reaches otp new_id mission_id requester_id = do
    (m, carrier_id) ← delivery_code_guards mission_id requester_id
    create_proof
        (record {
          new_id = new_id;
          mission_id = mission_id;
          type = ProofType.delivery;
          created_by_id = m.shipper_id;
          verified_by_id = carrier_id;
        })
        otp
    sent ← send_to_recipient reaches m.recipient_phone otp
    pure (record {
      code = if sent then none else some otp.plain;
      expires_at = otp.expires_at;
      sent_to_recipient = sent;
    })

  -- The proof and its hash, if every guard on the code passes.
  unfoldable pub load_verifiable_proof :
      (now : ℕ) → ℕ → ProofType → ℕ → Handler P (MissionProof × String)
  load_verifiable_proof now mission_id type verified_by_id = do
    found ← find_first proofs (proves mission_id type)
    p ← or_throw (Exception.not_found Reason.no_proof) found
    hash ← or_throw (Exception.bad_request Reason.no_code) p.otp_hash
    throw_if (is_set p.otp_used_at) (Exception.bad_request Reason.code_used)
    throw_if (expired now p.otp_expires_at) (Exception.bad_request Reason.code_expired)
    throw_if (reserved_for_other p.verified_by_id verified_by_id)
        (Exception.forbidden Reason.unspecified)
    throw_if (leb max_otp_attempts p.otp_attempts) (Exception.bad_request Reason.too_many_attempts)
    pure (p, hash)

  -- A wrong code is counted, and the count stays although the request fails.
  unfoldable pub check_otp_or_count_attempt : Bcrypt → ℕ → String → String → Handler P (Unit {0})
  unfolding verify_otp
  check_otp_or_count_attempt b proof_id hash code =
      if verify_otp b code hash
      then pure tt
      else (do update proofs proof_id attempted; throw (Exception.bad_request Reason.invalid_code))

  unfoldable pub apply_pickup_transition : ℕ → List ℕ → Handler P (Unit {0})
  apply_pickup_transition mission_id package_ids = do
    update_many packages (λ p. includes package_ids p.id)
        (λ p. record p { status = PackageStatus.picked_up })
    update missions mission_id (λ m. record m { status = MissionStatus.in_transit })
    pure tt

  unfoldable pub apply_delivery_transition : ℕ → List ℕ → Handler P (Unit {0})
  apply_delivery_transition mission_id package_ids = do
    found ← find_unique missions mission_id
    m ← or_throw Exception.record_not_found found
    update_many packages (λ p. includes package_ids p.id)
        (λ p. record p { status = PackageStatus.delivered })
    update missions mission_id (λ x. record x { status = MissionStatus.completed })
    update advertisements m.advertisement_id
        (λ a. record a { status = AdvertisementStatus.completed })
    update_many transactions
        (λ t. t.mission_id == mission_id && t.status == TransactionStatus.pending)
        (λ t. record t { status = TransactionStatus.completed })
    pure tt

  abbrev pub apply_transition : ProofType → ℕ → List ℕ → Handler P (Unit {0})
  apply_transition ProofType.pickup mission_id ids = apply_pickup_transition mission_id ids
  apply_transition ProofType.delivery mission_id ids = apply_delivery_transition mission_id ids
  apply_transition ProofType.other mission_id ids = pure tt

  -- The events to emit after the commit.
  unfoldable pub collect_post_commit_events : ℕ → ProofType → Handler P (List Effect)
  collect_post_commit_events mission_id type = do
    linked ← find_many conversations (λ c. is_some_of c.mission_id mission_id)
    found ← find_unique missions mission_id
    pure (
        Effect.proof_verified mission_id type (map (λ c. c.id) linked)
        ∷ (if type == ProofType.delivery
            then elim found [ none ↦ [] | some m ↦ Effect.stats_updated (parties m) ∷ [] ]
            else []))

  -- The transaction of `verify`, with its optimistic lock.
  unfoldable pub consume_proof :
      (now : ℕ) → ℕ → ℕ → ProofType → ℕ → Handler P (Option MissionProof × List Effect)
  consume_proof now proof_id mission_id type verified_by_id = do
    n ←
        update_many proofs (λ p. p.id == proof_id && not (is_set p.otp_used_at))
          (used now verified_by_id)
    throw_if (n == 0) (Exception.bad_request Reason.code_used)
    linked ← find_many mission_packages (λ r. r.mission_id == mission_id)
    apply_transition type mission_id (map (λ r. r.package_id) linked)
    updated ← find_unique proofs proof_id
    events ← collect_post_commit_events mission_id type
    pure (updated, events)

  unfoldable pub emit_all : List Effect → Handler P (Unit {0})
  emit_all [] = pure tt
  emit_all (e ∷ es) = emit e >>= λ _. emit_all es

  unfoldable pub commit_proof : (now : ℕ) → ℕ → ℕ → ProofType → ℕ → Handler P (Option MissionProof)
  commit_proof now proof_id mission_id type verified_by_id = do
    (updated, events) ← transaction (consume_proof now proof_id mission_id type verified_by_id)
    emit_all events
    pure updated

  unfoldable pub verify :
      Bcrypt → (now : ℕ) → ℕ → ProofType → String → ℕ → Handler P (Option MissionProof)
  verify b now mission_id type code verified_by_id = do
    (p, hash) ← load_verifiable_proof now mission_id type verified_by_id
    check_otp_or_count_attempt b p.id hash code
    commit_proof now p.id mission_id type verified_by_id
