-- ===== src/Disputes/Laws.antt =====
-- `create` and `resolve` of src/disputes/disputes.service.ts as wholes.
use gp_connect_server.Common.{
  Option, ℕ, ◌≡◌, refl, ◌≢◌, ◌⊎◌, inl, inr, true, Option, none, some, String, arith, ◌==◌, nat_eq,
  includes, ◌||◌,
}
use gp_connect_server.Schema.{
  Mission, MissionStatus, mission_status_eq, MissionDispute, DisputeStatus,
}
use gp_connect_server.Prisma.{Prisma, World, Effect, find_unique-updated}
use gp_connect_server.Handler.{Exception, Reason, ok, err, ◌>>=◌, ◌>>◌, pure, emit, Handler}
use gp_connect_server.Handler.Inversion.{>>=-ok, read-ok}
use gp_connect_server.Missions.{apply_status_side_effects}
use gp_connect_server.Missions.Transitions.{apply_status_side_effects-frame}
use gp_connect_server.Disputes.Service.{
  CreateDisputeDto, ResolveDisputeDto, outcome_status, new_dispute, settled_by, disputable,
  takes_part, other_party, email_user, load_disputable_mission, open_dispute_transaction,
  create_dispute, settle_dispute, notify_resolved, commit_resolution,
}
use gp_connect_server.Disputes.Resolution.{
  load_disputable_mission-world, load_disputable_mission-ok, open_dispute_transaction-ok,
  email_user-tables, settle_dispute-ok, settle_dispute-closed,
}

disputable-cases :
    (s : MissionStatus)
    → includes disputable s ≡ true
    → (s ≡ MissionStatus.accepted) ⊎ (s ≡ MissionStatus.in_transit)
disputable-cases MissionStatus.accepted h = inl refl
disputable-cases MissionStatus.in_transit h = inr refl
disputable-cases MissionStatus.pending h = absurd (ground arith)
disputable-cases MissionStatus.completed h = absurd (ground arith)
disputable-cases MissionStatus.cancelled h = absurd (ground arith)
disputable-cases MissionStatus.disputed h = absurd (ground arith)

module _ {P : Prisma} where
  -- What happens after the transaction of `create`.
  abbrev after_opening :
      ℕ → ℕ → CreateDisputeDto → Mission → MissionDispute → Handler P MissionDispute
  after_opening mission_id user_id d m dispute = do
    apply_status_side_effects mission_id m.advertisement_id MissionStatus.disputed
    email_user (other_party user_id m)
        (λ address. Effect.dispute_opened_mail address mission_id d.reason)
    emit (Effect.ticket_opened dispute.id mission_id)
    pure dispute

  after_opening-tables :
      (mission_id user_id : ℕ) (d : CreateDisputeDto) (m : Mission) (x : MissionDispute)
      (w : World P)
      → ((after_opening mission_id user_id d m x w).1.disputes ≡ w.disputes)
        × ((after_opening mission_id user_id d m x w).1.missions ≡ w.missions)
  after_opening-tables mission_id user_id d m x w =
      let w1 =
        (apply_status_side_effects mission_id m.advertisement_id MissionStatus.disputed w).1 in
      ground (
        arith,
        apply_status_side_effects-frame mission_id m.advertisement_id MissionStatus.disputed w,
        email_user-tables (other_party user_id m)
            (λ address. Effect.dispute_opened_mail address mission_id d.reason) w1,
      )

  -- What opening a dispute did.
  pub record IsOpened (mission_id user_id : ℕ) (d : CreateDisputeDto) (w w' : World P)
      : Type 0 where
    pub mission : Mission
    pub found : P.mission.find_unique mission_id w.missions ≡ some mission
    pub party : takes_part user_id mission ≡ true
    pub in_progress :
        (mission.status ≡ MissionStatus.accepted) ⊎ (mission.status ≡ MissionStatus.in_transit)
    pub first :
        P.mission_dispute.count (λ y. y.id == d.new_id || y.mission_id == mission_id) w.disputes ≡ 0
    pub stored :
        P.mission_dispute.find_unique d.new_id w'.disputes
        ≡ some (record {
          id = d.new_id;
          mission_id = mission_id;
          opened_by_id = user_id;
          reason = d.reason;
          description = d.description;
          status = DisputeStatus.open_;
          resolution = none;
          resolved_by_id = none;
          resolved_at = none;
          github_issue_number = none;
        })
    pub disputed :
        P.mission.find_unique mission_id w'.missions
        ≡ some (record mission { status = MissionStatus.disputed })

  -- A dispute that is opened under a fresh id: by a party, on a mission accepted or in transit, with
  -- no dispute before. The row is stored open and the mission is disputed.
  pub create_dispute-ok :
      (mission_id user_id : ℕ) (d : CreateDisputeDto) (w : World P) {x : MissionDispute}
      → P.mission_dispute.find_unique d.new_id w.disputes ≡ none
      → (create_dispute mission_id user_id d w).0 ≡ ok x
      → IsOpened mission_id user_id d w (create_dispute mission_id user_id d w).1
  unfolding create_dispute
  create_dispute-ok mission_id user_id d w fresh h =
      let rest = λ (m : Mission).
        open_dispute_transaction mission_id user_id d >>= after_opening mission_id user_id d m in
      let (m, loaded, q, h') =
        read-ok (load_disputable_mission mission_id user_id) rest w
          (load_disputable_mission-world mission_id user_id w) h in
      let (x', opened, q', h'') =
        >>=-ok (open_dispute_transaction mission_id user_id d)
          (after_opening mission_id user_id d m) w h' in
      let (found, member, status) = load_disputable_mission-ok mission_id user_id w loaded in
      let (same, free, wrote) = open_dispute_transaction-ok mission_id user_id d w opened in
      let (ds, ms) =
        after_opening-tables mission_id user_id d m x'
          (open_dispute_transaction mission_id user_id d w).1 in
      record {
        mission = m;
        found = found;
        party = member;
        in_progress = disputable-cases m.status status;
        first = free;
        stored =
            rw (q, q', ds, wrote)
              (P.mission_dispute.find_unique-insert_self (new_dispute mission_id user_id d)
                w.disputes fresh);
        disputed =
            rw (q, q', ms, wrote)
              (find_unique-updated P.mission mission_id _ w.missions m (λ b. refl) found);
      }

  -- What happens after the transaction of `resolve`.
  abbrev after_settling :
      MissionDispute
      → Mission
      → ResolveDisputeDto
      → Option MissionDispute
      → Handler P (Option MissionDispute)
  after_settling x m d updated = do
    apply_status_side_effects x.mission_id m.advertisement_id (outcome_status d.outcome)
    notify_resolved x m d
    pure updated

  notify_resolved-tables :
      (x : MissionDispute) (m : Mission) (d : ResolveDisputeDto) (w : World P)
      → (notify_resolved x m d w).1 ≡ record w { effects = (notify_resolved x m d w).1.effects }
  unfolding notify_resolved
  notify_resolved-tables x m d w =
      let mail = λ (address : String).
        Effect.dispute_resolved_mail address x.mission_id d.resolution (outcome_status d.outcome) in
      let w1 = (email_user (some m.shipper_id) mail w).1 in
      ground (
        arith,
        email_user-tables (some m.shipper_id) mail w,
        email_user-tables m.carrier_id mail w1,
      )

  after_settling-tables :
      (x : MissionDispute) (m : Mission) (d : ResolveDisputeDto) (r : Option MissionDispute)
      (w : World P)
      → ((after_settling x m d r w).1.disputes ≡ w.disputes)
        × ((after_settling x m d r w).1.missions ≡ w.missions)
  after_settling-tables x m d r w =
      let w1 =
        (apply_status_side_effects x.mission_id m.advertisement_id (outcome_status d.outcome)
          w).1 in
      ground (
        arith,
        apply_status_side_effects-frame x.mission_id m.advertisement_id (outcome_status d.outcome)
            w,
        notify_resolved-tables x m d w1,
      )

  -- What settling a dispute did.
  pub record IsSettled (now admin_id : ℕ) (x : MissionDispute) (d : ResolveDisputeDto)
      (w w' : World P) : Type 0 where
    pub dispute : MissionDispute
    pub found : P.mission_dispute.find_unique x.id w.disputes ≡ some dispute
    pub was_open : dispute.status ≡ DisputeStatus.open_
    pub settled :
        P.mission_dispute.find_unique x.id w'.disputes ≡ some (settled_by now admin_id d dispute)
    pub outcome :
        (n : Mission)
        → P.mission.find_unique x.mission_id w.missions ≡ some n
        → P.mission.find_unique x.mission_id w'.missions
          ≡ some (record n { status = outcome_status d.outcome })

  -- A resolution that succeeds found the dispute open, records the admin and the text with it, and
  -- gives its mission the outcome.
  pub commit_resolution-ok :
      (now admin_id : ℕ) (x : MissionDispute) (m : Mission) (d : ResolveDisputeDto) (w : World P)
      {r : Option MissionDispute}
      → (commit_resolution now admin_id x m d w).0 ≡ ok r
      → IsSettled now admin_id x d w (commit_resolution now admin_id x m d w).1
  unfolding commit_resolution
  commit_resolution-ok now admin_id x m d w h =
      let (r, settled, q, h') =
        >>=-ok (settle_dispute now x.id admin_id x.mission_id d) (after_settling x m d) w h in
      let (y, f, o, f', wrote) = settle_dispute-ok now x.id admin_id x.mission_id d w settled in
      let (ds, ms) =
        after_settling-tables x m d r (settle_dispute now x.id admin_id x.mission_id d w).1 in
      record {
        dispute = y;
        found = f;
        was_open = o;
        settled = rw (q, ds) f';
        outcome = λ n fn.
            rw (q, ms, wrote)
              (find_unique-updated P.mission x.mission_id _ w.missions n (λ b. refl) fn);
      }

  commit_resolution-closed :
      (now admin_id : ℕ) (x : MissionDispute) (m : Mission) (d : ResolveDisputeDto) (w : World P)
      (y : MissionDispute)
      → P.mission_dispute.find_unique x.id w.disputes ≡ some y
      → y.status ≢ DisputeStatus.open_
      → commit_resolution now admin_id x m d w
        ≡ (err (Exception.bad_request Reason.dispute_resolved), w)
  unfolding commit_resolution
  commit_resolution-closed now admin_id x m d w y f ne =
      ground (arith, settle_dispute-closed now x.id admin_id x.mission_id d w y f ne)

  -- Two admins who both loaded the open dispute: once the first resolution has committed, the second
  -- is refused and writes nothing, so the first outcome stands.
  pub commit_resolution-once :
      (now now' admin_id admin_id' : ℕ) (x : MissionDispute) (m m' : Mission)
      (d d' : ResolveDisputeDto) (w : World P) {r : Option MissionDispute}
      → (commit_resolution now admin_id x m d w).0 ≡ ok r
      → let w' = (commit_resolution now admin_id x m d w).1 in
        commit_resolution now' admin_id' x m' d' w'
        ≡ (err (Exception.bad_request Reason.dispute_resolved), w')
  commit_resolution-once now now' admin_id admin_id' x m m' d d' w h =
      let r = commit_resolution-ok now admin_id x m d w h in
      let w' = (commit_resolution now admin_id x m d w).1 in
      commit_resolution-closed now' admin_id' x m' d' w' (settled_by now admin_id d r.dispute)
        r.settled (λ e. cc)
