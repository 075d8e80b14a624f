-- ===== src/Proofs/Commit.antt =====
-- What a verified code does (src/proof/proof.service.ts): the mission, its packages and, on
-- delivery, the advertisement and the payment move on, once.
use gp_connect_server.Common.{
  ℕ, ◌≡◌, refl, sym, ◌∙◌, ap, subst, true, not, ◌&&◌, none, some, arith, ◌==◌, nat_eq, is_set,
  includes, if◌then◌else◌, inl, inr,
}
use gp_connect_server.Schema.{
  MissionProof, ProofType, Mission, MissionStatus, Package, PackageStatus, Advertisement,
  AdvertisementStatus, Transaction, TransactionStatus, transaction_status_eq,
}
use gp_connect_server.Prisma.{
  Prisma, World, lock-cases, find_unique-locked, find_unique-updated, row-written,
}
use gp_connect_server.Handler.{Exception, Reason, err, is_ok}
use gp_connect_server.Proofs.Service.{used, consume_proof, commit_proof}
use gp_connect_server.Proofs.Consume.{
  linked_packages, emit_all-ok, consume_pickup, consume_delivery, consume_proof-proofs,
  commit_proof-used,
}

module _ {P : Prisma} (now proof_id mission_id user_id : ℕ) where
  module _ (type : ProofType) (w : World P) where
    -- The commit is the transaction, then the events.
    commit_proof-ok :
        is_ok (consume_proof now proof_id mission_id type user_id w).0 ≡ true
        → let run = commit_proof now proof_id mission_id type user_id w in
          let t = (consume_proof now proof_id mission_id type user_id w).1 in
          (is_ok run.0 ≡ true) × (run.1 ≡ record t { effects = run.1.effects })
    unfolding commit_proof
    commit_proof-ok h = grind (arith, emit_all-ok)

    -- A verification that throws in its transaction leaves the database as it was.
    pub commit_proof-err :
        {e : Exception}
        → (commit_proof now proof_id mission_id type user_id w).0 ≡ err e
        → (commit_proof now proof_id mission_id type user_id w).1 ≡ w
    unfolding commit_proof
    commit_proof-err h = grind (arith, emit_all-ok)

  module _ (w : World P) (p : MissionProof)
      (found : P.mission_proof.find_unique proof_id w.proofs ≡ some p)
      (unused : p.otp_used_at ≡ none) where
    -- What a verified pickup leaves of each row that it concerns.
    pub record IsPickedUp (m : Mission) (w' : World P) : Type 0 where
      pub mission :
          P.mission.find_unique mission_id w'.missions
          ≡ some (record m { status = MissionStatus.in_transit })
      pub packages :
          (k : ℕ) (x : Package)
          → P.package_.find_unique k w.packages ≡ some x
          → P.package_.find_unique k w'.packages
            ≡ some (
                if includes (linked_packages mission_id w) k
                then record x { status = PackageStatus.picked_up }
                else x)
      pub proof : P.mission_proof.find_unique proof_id w'.proofs ≡ some (used now user_id p)

    pub record IsDelivered (m : Mission) (a : Advertisement) (w' : World P) : Type 0 where
      pub mission :
          P.mission.find_unique mission_id w'.missions
          ≡ some (record m { status = MissionStatus.completed })
      pub advertisement :
          P.advertisement.find_unique m.advertisement_id w'.advertisements
          ≡ some (record a { status = AdvertisementStatus.completed })
      pub packages :
          (k : ℕ) (x : Package)
          → P.package_.find_unique k w.packages ≡ some x
          → P.package_.find_unique k w'.packages
            ≡ some (
                if includes (linked_packages mission_id w) k
                then record x { status = PackageStatus.delivered }
                else x)
      pub payments :
          (k : ℕ) (t : Transaction)
          → P.transaction.find_unique k w.transactions ≡ some t
          → P.transaction.find_unique k w'.transactions
            ≡ some (
                if t.mission_id == mission_id && t.status == TransactionStatus.pending
                then record t { status = TransactionStatus.completed }
                else t)
      pub proof : P.mission_proof.find_unique proof_id w'.proofs ≡ some (used now user_id p)

    proof_used :
        P.mission_proof.find_unique proof_id (
          P.mission_proof.update_many
            (λ q. q.id == proof_id && not (is_set q.otp_used_at))
            (used now user_id)
            w.proofs)
        ≡ some (used now user_id p)
    proof_used =
        find_unique-locked P.mission_proof proof_id (λ q. not (is_set q.otp_used_at))
          (used now user_id) w.proofs p (λ b. refl) found (ground arith)

    -- With an unused proof of a mission that is there, the commit of a pickup succeeds: the mission
    -- is in transit, exactly its packages are picked up, and the code is used.
    pub commit_proof-IsPickedUp :
        (m : Mission)
        → P.mission.find_unique mission_id w.missions ≡ some m
        → let run = commit_proof now proof_id mission_id ProofType.pickup user_id w in
          (is_ok run.0 ≡ true) × IsPickedUp m run.1
    commit_proof-IsPickedUp m fm =
        let (good, eq) = consume_pickup now proof_id mission_id user_id w p found m unused fm in
        let (good', same) = commit_proof-ok ProofType.pickup w good in
        (
          good',
          subst (IsPickedUp m) (sym same) (
              subst
                (λ t. IsPickedUp m (record t {
                  effects =
                      (commit_proof now proof_id mission_id ProofType.pickup user_id w).1.effects;
                }))
                (sym eq)
                (record {
                  mission = find_unique-updated P.mission mission_id _ w.missions m (λ b. refl) fm;
                  packages = λ k x fx.
                      row-written P.package_ k _ _ _ x _ (λ b. refl) fx
                        (ap
                          (λ i.
                            if includes (linked_packages mission_id w) i
                            then record x { status = PackageStatus.picked_up }
                            else x)
                          (P.package_.key-find_unique k w.packages x fx));
                  proof = proof_used;
                })),
        )

    -- With an unused proof, the commit of a delivery succeeds: mission and advertisement are
    -- completed, exactly the mission's packages are delivered, its pending payment is completed and
    -- the code is used.
    pub commit_proof-IsDelivered :
        (m : Mission) (a : Advertisement)
        → P.mission.find_unique mission_id w.missions ≡ some m
        → P.advertisement.find_unique m.advertisement_id w.advertisements ≡ some a
        → let run = commit_proof now proof_id mission_id ProofType.delivery user_id w in
          (is_ok run.0 ≡ true) × IsDelivered m a run.1
    commit_proof-IsDelivered m a fm fa =
        let (good, eq) =
          consume_delivery now proof_id mission_id user_id w p found m a unused fm fa in
        let (good', same) = commit_proof-ok ProofType.delivery w good in
        (
          good',
          subst (IsDelivered m a) (sym same) (
              subst
                (λ t. IsDelivered m a (record t {
                  effects =
                      (commit_proof now proof_id mission_id ProofType.delivery user_id w).1.effects;
                }))
                (sym eq)
                (record {
                  mission = find_unique-updated P.mission mission_id _ w.missions m (λ b. refl) fm;
                  advertisement =
                      find_unique-updated P.advertisement m.advertisement_id _ w.advertisements a
                        (λ b. refl) fa;
                  packages = λ k x fx.
                      row-written P.package_ k _ _ _ x _ (λ b. refl) fx
                        (ap
                          (λ i.
                            if includes (linked_packages mission_id w) i
                            then record x { status = PackageStatus.delivered }
                            else x)
                          (P.package_.key-find_unique k w.packages x fx));
                  payments = λ k t ft. row-written P.transaction k _ _ _ t _ (λ b. refl) ft refl;
                  proof = proof_used;
                })),
        )

  consume_of_commit :
      (type : ProofType) (w : World P)
      → is_ok (commit_proof now proof_id mission_id type user_id w).0 ≡ true
      → is_ok (consume_proof now proof_id mission_id type user_id w).0 ≡ true
  unfolding commit_proof
  consume_of_commit type w h = ground arith

  -- Two requests that both loaded the proof and matched its code: once the first has committed, the
  -- second is refused and writes nothing, so a mission never moves twice on one code.
  pub commit_proof-once :
      (type type' : ProofType) (w : World P) (now' user_id' : ℕ)
      → is_ok (commit_proof now proof_id mission_id type user_id w).0 ≡ true
      → let w' = (commit_proof now proof_id mission_id type user_id w).1 in
        commit_proof now' proof_id mission_id type' user_id' w'
        ≡ (err (Exception.bad_request Reason.code_used), w')
  commit_proof-once type type' w now' user_id' h =
      let good = consume_of_commit type w h in
      let (wrote, hit) = consume_proof-proofs now proof_id mission_id user_id type w good in
      let (_, same) = commit_proof-ok type w good in
      elim (lock-cases P.mission_proof proof_id (λ q. not (is_set q.otp_used_at)) w.proofs) [
        | inl z ↦ absurd (hit z)
        | inr (_, (p, found, _, free)) ↦
            let after =
              find_unique-locked P.mission_proof proof_id (λ q. not (is_set q.otp_used_at))
                (used now user_id) w.proofs p (λ b. refl) found free in
            commit_proof-used now' proof_id mission_id user_id' _ (used now user_id p)
              (ap (λ t. P.mission_proof.find_unique proof_id t) (ap (λ x. x.proofs) same ∙ wrote)
                ∙ after)
              type' refl
      ]
