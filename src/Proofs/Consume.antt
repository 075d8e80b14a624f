-- ===== src/Proofs/Consume.antt =====
-- What the transaction of `verify` writes (src/proof/proof.service.ts), and that it runs once.
use gp_connect_server.Common.{
  ℕ, ◌≡◌, refl, ◌≢◌, inl, inr, true, not, ◌&&◌, none, some, List, [], ◌∷◌, map, arith, ◌==◌, nat_eq,
  is_set, includes,
}
use gp_connect_server.Schema.{
  MissionProof, ProofType, proof_type_eq, Mission, MissionStatus, PackageStatus, Advertisement,
  AdvertisementStatus, TransactionStatus, transaction_status_eq,
}
use gp_connect_server.Prisma.{Prisma, World, Effect, lock-cases, lock_matches}
use gp_connect_server.Handler.{Exception, Reason, ok, err, is_ok}
use gp_connect_server.Proofs.Service.{
  used, apply_pickup_transition, apply_delivery_transition, collect_post_commit_events,
  consume_proof, commit_proof, emit_all,
}

module _ {P : Prisma} where
  -- Emitting changes no table and does not fail.
  pub emit_all-ok :
      (es : List Effect) (w : World P)
      → ((emit_all es w).0 ≡ ok tt)
        × ((emit_all es w).1 ≡ record w { effects = (emit_all es w).1.effects })
  unfolding emit_all
  emit_all-ok [] w = (refl, refl)
  emit_all-ok (e ∷ es) w = emit_all-ok es (record w { effects = e ∷ w.effects })

  abbrev pub linked_packages : ℕ → World P → List ℕ
  linked_packages mission_id w =
      map (λ r. r.package_id)
        (P.mission_package.find_many (λ r. r.mission_id == mission_id) w.mission_packages)

  abbrev pub lock_proof : ℕ → ℕ → ℕ → World P → P.mission_proof.Table
  lock_proof now proof_id user_id w =
      P.mission_proof.update_many (λ p. p.id == proof_id && not (is_set p.otp_used_at))
        (used now user_id) w.proofs

  module _ (now proof_id mission_id user_id : ℕ) where
    -- The tables after a verified pickup.
    abbrev pub picked_up_world : World P → World P
    picked_up_world w = record w {
      proofs = lock_proof now proof_id user_id w;
      packages =
          P.package_.update_many (λ p. includes (linked_packages mission_id w) p.id)
            (λ p. record p { status = PackageStatus.picked_up }) w.packages;
      missions =
          P.mission.update_many (λ m. m.id == mission_id)
            (λ m. record m { status = MissionStatus.in_transit }) w.missions;
    }

    -- The tables after a verified delivery of a mission for the advertisement `ad_id`.
    abbrev pub delivered_world : ℕ → World P → World P
    delivered_world ad_id w = record w {
      proofs = lock_proof now proof_id user_id w;
      packages =
          P.package_.update_many (λ p. includes (linked_packages mission_id w) p.id)
            (λ p. record p { status = PackageStatus.delivered }) w.packages;
      missions =
          P.mission.update_many (λ m. m.id == mission_id)
            (λ m. record m { status = MissionStatus.completed }) w.missions;
      advertisements =
          P.advertisement.update_many (λ a. a.id == ad_id)
            (λ a. record a { status = AdvertisementStatus.completed }) w.advertisements;
      transactions =
          P.transaction.update_many
            (λ t. t.mission_id == mission_id && t.status == TransactionStatus.pending)
            (λ t. record t { status = TransactionStatus.completed }) w.transactions;
    }

    -- Whatever the type, the proofs change by the lock alone.
    pub consume_proof-proofs :
        (type : ProofType) (w : World P)
        → is_ok (consume_proof now proof_id mission_id type user_id w).0 ≡ true
        → ((consume_proof now proof_id mission_id type user_id w).1.proofs
            ≡ lock_proof now proof_id user_id w)
          × (P.mission_proof.count (λ q. q.id == proof_id && not (is_set q.otp_used_at)) w.proofs
              ≢ 0)
    unfolding consume_proof apply_pickup_transition apply_delivery_transition
        collect_post_commit_events
    consume_proof-proofs ProofType.pickup w h = ground arith
    consume_proof-proofs ProofType.delivery w h = ground arith
    consume_proof-proofs ProofType.other w h = ground arith

    module _ (w : World P) (p : MissionProof)
        (found : P.mission_proof.find_unique proof_id w.proofs ≡ some p) where
      lock_free :
          p.otp_used_at ≡ none
          → P.mission_proof.count (λ q. q.id == proof_id && not (is_set q.otp_used_at)) w.proofs ≢ 0
      lock_free unused =
          lock_matches P.mission_proof proof_id (λ q. not (is_set q.otp_used_at)) w.proofs p found
            (ground arith)

      pub consume_pickup :
          (m : Mission)
          → p.otp_used_at ≡ none
          → P.mission.find_unique mission_id w.missions ≡ some m
          → let run = consume_proof now proof_id mission_id ProofType.pickup user_id w in
            (is_ok run.0 ≡ true) × (run.1 ≡ picked_up_world w)
      unfolding consume_proof apply_pickup_transition collect_post_commit_events
      consume_pickup m unused fm = let free = lock_free unused in ground arith

      pub consume_delivery :
          (m : Mission) (a : Advertisement)
          → p.otp_used_at ≡ none
          → P.mission.find_unique mission_id w.missions ≡ some m
          → P.advertisement.find_unique m.advertisement_id w.advertisements ≡ some a
          → let run = consume_proof now proof_id mission_id ProofType.delivery user_id w in
            (is_ok run.0 ≡ true) × (run.1 ≡ delivered_world m.advertisement_id w)
      unfolding consume_proof apply_delivery_transition collect_post_commit_events
      consume_delivery m a unused fm fa = let free = lock_free unused in ground arith

      -- A used code is refused whatever was checked before, and nothing is written.
      pub commit_proof-used :
          (type : ProofType)
          → is_set p.otp_used_at ≡ true
          → commit_proof now proof_id mission_id type user_id w
            ≡ (err (Exception.bad_request Reason.code_used), w)
      unfolding commit_proof consume_proof
      commit_proof-used type taken =
          elim (lock-cases P.mission_proof proof_id (λ q. not (is_set q.otp_used_at)) w.proofs) [
            | inl z ↦ ground arith
            | inr (_, (q, fq, _, free)) ↦ absurd (ground arith)
          ]
