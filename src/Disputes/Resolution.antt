-- ===== src/Disputes/Resolution.antt =====
-- Opening and settling a dispute (src/disputes/disputes.service.ts).
use gp_connect_server.Common.{
  ℕ, ◌≡◌, refl, ◌≢◌, inl, inr, true, Option, none, some, String, arith, ◌==◌, nat_eq, ◌||◌,
  includes,
}
use gp_connect_server.Schema.{
  Mission, MissionStatus, mission_status_eq, MissionDispute, DisputeStatus, dispute_status_eq,
  dispute_status_beq_iff,
}
use gp_connect_server.Prisma.{Prisma, World, Effect, lock-cases, find_unique-locked}
use gp_connect_server.Handler.{Exception, Reason, ok, err}
use gp_connect_server.Disputes.Service.{
  CreateDisputeDto, ResolveDisputeDto, outcome_status, new_dispute, settled_by, disputable,
  takes_part, email_user, load_disputable_mission, open_dispute_transaction, settle_dispute,
}

module _ {P : Prisma} where
  pub load_disputable_mission-world :
      (mission_id user_id : ℕ) (w : World P) → (load_disputable_mission mission_id user_id w).1 ≡ w
  unfolding load_disputable_mission
  load_disputable_mission-world mission_id user_id w = ground arith

  pub load_disputable_mission-ok :
      (mission_id user_id : ℕ) (w : World P) {m : Mission}
      → (load_disputable_mission mission_id user_id w).0 ≡ ok m
      → (P.mission.find_unique mission_id w.missions ≡ some m)
        × (takes_part user_id m ≡ true)
        × (includes disputable m.status ≡ true)
  unfolding load_disputable_mission
  load_disputable_mission-ok mission_id user_id w h = ground arith

  -- Opening a dispute succeeds, on a mission that is there, exactly if no row clashes.
  pub open_dispute_transaction-ok :
      (mission_id user_id : ℕ) (d : CreateDisputeDto) (w : World P) {x : MissionDispute}
      → (open_dispute_transaction mission_id user_id d w).0 ≡ ok x
      → (x ≡ new_dispute mission_id user_id d)
        × (P.mission_dispute.count (λ y. y.id == d.new_id || y.mission_id == mission_id) w.disputes
            ≡ 0)
        × ((open_dispute_transaction mission_id user_id d w).1 ≡ record w {
          disputes = P.mission_dispute.insert (new_dispute mission_id user_id d) w.disputes;
          missions =
              P.mission.update_many
                (λ m. m.id == mission_id)
                (λ m. record m { status = MissionStatus.disputed })
                w.missions;
        })
  unfolding open_dispute_transaction
  open_dispute_transaction-ok mission_id user_id d w h = ground arith

  pub email_user-tables :
      (user : Option ℕ) (mail : String → Effect) (w : World P)
      → ((email_user user mail w).0 ≡ ok tt)
        × ((email_user user mail w).1 ≡ record w { effects = (email_user user mail w).1.effects })
  unfolding email_user
  email_user-tables none mail w = ground arith
  email_user-tables (some user_id) mail w = ground arith

  -- The optimistic lock of `resolve`: the transaction commits only while the dispute is open.
  pub settle_dispute-ok :
      (now id admin_id mission_id : ℕ) (d : ResolveDisputeDto) (w : World P)
      {r : Option MissionDispute}
      → (settle_dispute now id admin_id mission_id d w).0 ≡ ok r
      → (x : MissionDispute) × (P.mission_dispute.find_unique id w.disputes ≡ some x)
        × (x.status ≡ DisputeStatus.open_)
        × (P.mission_dispute.find_unique id
              (settle_dispute now id admin_id mission_id d w).1.disputes
            ≡ some (settled_by now admin_id d x))
        × ((settle_dispute now id admin_id mission_id d w).1.missions
            ≡ P.mission.update_many
                (λ m. m.id == mission_id)
                (λ m. record m { status = outcome_status d.outcome })
                w.missions)
  unfolding settle_dispute
  settle_dispute-ok now id admin_id mission_id d w h =
      elim (lock-cases P.mission_dispute id (λ x. x.status == DisputeStatus.open_) w.disputes) [
        | inl z ↦ absurd (ground arith)
        | inr (n, (x, f, k, q)) ↦
            let f' =
              find_unique-locked P.mission_dispute id (λ y. y.status == DisputeStatus.open_)
                (settled_by now admin_id d) w.disputes x (λ b. refl) f q in
            (
              x,
              f,
              (dispute_status_beq_iff x.status DisputeStatus.open_).0 q,
              ground (arith, f'),
              ground arith,
            )
      ]

  -- A dispute that is no longer open is settled by nobody: refused, and nothing is written.
  pub settle_dispute-closed :
      (now id admin_id mission_id : ℕ) (d : ResolveDisputeDto) (w : World P) (x : MissionDispute)
      → P.mission_dispute.find_unique id w.disputes ≡ some x
      → x.status ≢ DisputeStatus.open_
      → settle_dispute now id admin_id mission_id d w
        ≡ (err (Exception.bad_request Reason.dispute_resolved), w)
  unfolding settle_dispute
  settle_dispute-closed now id admin_id mission_id d w x f ne =
      elim (lock-cases P.mission_dispute id (λ y. y.status == DisputeStatus.open_) w.disputes) [
        | inl z ↦ ground arith
        | inr (n, (y, f', k, q)) ↦
            absurd (ground (arith, dispute_status_beq_iff y.status DisputeStatus.open_))
      ]
