-- ===== src/Disputes/Service.antt =====
-- The operations of `DisputesService` (src/disputes/disputes.service.ts). The ticket tracker is
-- reached through effects; `ticket_created` is what runs when it answers.
use gp_connect_server.Common.{
  ℕ, Bool, not, ◌&&◌, ◌||◌, Option, none, some, List, [], ◌∷◌, ◌==◌, nat_eq, String, is_some_of,
  includes, if◌then◌else◌,
}
use gp_connect_server.Schema.{
  Mission, MissionStatus, mission_status_eq, MissionDispute, DisputeStatus, dispute_status_eq,
}
use gp_connect_server.Prisma.{Prisma, Effect}
use gp_connect_server.Handler.{
  Handler, Exception, Reason, ok, err, ◌>>=◌, ◌>>◌, pure, or_throw, throw_if, when, emit,
  transaction, find_unique, find_first, create, update, update_many, users, missions, disputes,
}
use gp_connect_server.Missions.{apply_status_side_effects}
use gp_connect_server.Offers.{takes_mail}

-- `CreateDisputeDto`, with the id that the new row draws.
pub record CreateDisputeDto : Type 0 where
  pub new_id : ℕ
  pub reason : String
  pub description : Option String

-- `missionOutcome` of `ResolveDisputeDto`.
pub data Outcome : Type 0 where
  completed cancelled : Outcome

abbrev pub outcome_status : Outcome → MissionStatus
outcome_status Outcome.completed = MissionStatus.completed
outcome_status Outcome.cancelled = MissionStatus.cancelled

pub record ResolveDisputeDto : Type 0 where
  pub resolution : String
  pub outcome : Outcome

abbrev pub new_dispute : ℕ → ℕ → CreateDisputeDto → MissionDispute
new_dispute mission_id user_id d = record {
  id = d.new_id;
  mission_id = mission_id;
  opened_by_id = user_id;
  reason = d.reason;
  description = d.description;
  status = DisputeStatus.open_;
  resolution = none;
  resolved_by_id = none;
  resolved_at = none;
  github_issue_number = none;
}

abbrev pub settled_by : (now admin_id : ℕ) → ResolveDisputeDto → MissionDispute → MissionDispute
settled_by now admin_id d x = record x {
  status = DisputeStatus.resolved;
  resolution = some d.resolution;
  resolved_by_id = some admin_id;
  resolved_at = some now;
}

abbrev pub disputable : List MissionStatus
disputable = MissionStatus.accepted ∷ MissionStatus.in_transit ∷ []

abbrev pub takes_part : ℕ → Mission → Bool
takes_part user_id m = user_id == m.shipper_id || is_some_of m.carrier_id user_id

-- The party that did not open the dispute.
abbrev pub other_party : ℕ → Mission → Option ℕ
other_party user_id m = if user_id == m.shipper_id then m.carrier_id else some m.shipper_id

module _ {P : Prisma} where
  -- `emailUser`: no user, no address or mails switched off, no mail.
  unfoldable pub email_user : Option ℕ → (String → Effect) → Handler P (Unit {0})
  email_user none mail = pure tt
  email_user (some user_id) mail = do
    found ← find_unique users user_id
    elim found [ none ↦ pure tt | some u ↦ when (takes_mail u) (emit (mail u.email)) ]

  unfoldable pub load_disputable_mission : ℕ → ℕ → Handler P Mission
  load_disputable_mission mission_id user_id = do
    found ← find_unique missions mission_id
    m ← or_throw (Exception.not_found Reason.mission_not_found) found
    throw_if (not (takes_part user_id m)) (Exception.forbidden Reason.unspecified)
    throw_if (not (includes disputable m.status)) (Exception.bad_request Reason.not_disputable)
    pure m

  -- A violated `@unique` of `missionId` becomes a 409.
  abbrev pub conflict_if_unique : {A : Type 0} → Handler P A → Handler P A
  conflict_if_unique m w =
      let (r, w') = m w in
      elim r [
        | ok a ↦ (ok a, w')
        | err e ↦ elim e [
          | Exception.unique_violation ↦ (err (Exception.conflict Reason.dispute_open), w')
          | other ↦ (err other, w')
        ]
      ]

  unfoldable pub open_dispute_transaction : ℕ → ℕ → CreateDisputeDto → Handler P MissionDispute
  open_dispute_transaction mission_id user_id d = conflict_if_unique (
      transaction (do
        dispute ←
            create disputes (λ x. x.id == d.new_id || x.mission_id == mission_id)
              (new_dispute mission_id user_id d)
        update missions mission_id (λ m. record m { status = MissionStatus.disputed })
        pure dispute))

  unfoldable pub create_dispute : ℕ → ℕ → CreateDisputeDto → Handler P MissionDispute
  create_dispute mission_id user_id d = do
    m ← load_disputable_mission mission_id user_id
    dispute ← open_dispute_transaction mission_id user_id d
    apply_status_side_effects mission_id m.advertisement_id MissionStatus.disputed
    email_user (other_party user_id m)
        (λ address. Effect.dispute_opened_mail address mission_id d.reason)
    emit (Effect.ticket_opened dispute.id mission_id)
    pure dispute

  -- The answer of the tracker: the number of the ticket is kept with the dispute.
  unfoldable pub ticket_created : ℕ → Option ℕ → Handler P (Unit {0})
  ticket_created dispute_id none = pure tt
  ticket_created dispute_id (some number) = do
    update disputes dispute_id (λ x. record x { github_issue_number = some number })
    pure tt

  unfoldable pub load_resolvable_dispute : ℕ → Handler P (MissionDispute × Mission)
  load_resolvable_dispute id = do
    found ← find_unique disputes id
    x ← or_throw (Exception.not_found Reason.dispute_not_found) found
    about ← find_unique missions x.mission_id
    m ← or_throw Exception.record_not_found about
    throw_if (x.status == DisputeStatus.resolved) (Exception.bad_request Reason.dispute_resolved)
    pure (x, m)

  -- The transaction of `resolve`, with its optimistic lock.
  unfoldable pub settle_dispute :
      (now : ℕ) → ℕ → ℕ → ℕ → ResolveDisputeDto → Handler P (Option MissionDispute)
  settle_dispute now id admin_id mission_id d = transaction (do
    n ←
        update_many disputes (λ x. x.id == id && x.status == DisputeStatus.open_)
          (settled_by now admin_id d)
    throw_if (n == 0) (Exception.bad_request Reason.dispute_resolved)
    update missions mission_id (λ m. record m { status = outcome_status d.outcome })
    find_unique disputes id)

  -- The ticket is closed if its number is known.
  abbrev pub close_ticket : Option ℕ → Handler P (Unit {0})
  close_ticket none = pure tt
  close_ticket (some number) = emit (Effect.ticket_closed number)

  unfoldable pub notify_resolved :
      MissionDispute → Mission → ResolveDisputeDto → Handler P (Unit {0})
  notify_resolved x m d = do
    email_user (some m.shipper_id) (λ address.
        Effect.dispute_resolved_mail address x.mission_id d.resolution (outcome_status d.outcome))
    email_user m.carrier_id (λ address.
        Effect.dispute_resolved_mail address x.mission_id d.resolution (outcome_status d.outcome))
    close_ticket x.github_issue_number

  -- `resolve` after the dispute is loaded.
  unfoldable pub commit_resolution :
      (now : ℕ)
      → ℕ
      → MissionDispute
      → Mission
      → ResolveDisputeDto
      → Handler P (Option MissionDispute)
  commit_resolution now admin_id x m d = do
    updated ← settle_dispute now x.id admin_id x.mission_id d
    apply_status_side_effects x.mission_id m.advertisement_id (outcome_status d.outcome)
    notify_resolved x m d
    pure updated

  unfoldable pub resolve : (now : ℕ) → ℕ → ℕ → ResolveDisputeDto → Handler P (Option MissionDispute)
  resolve now id admin_id d = do
    (x, m) ← load_resolvable_dispute id
    commit_resolution now admin_id x m d

  unfoldable pub find_dispute_by_mission : ℕ → ℕ → Handler P (Option MissionDispute)
  find_dispute_by_mission mission_id user_id = do
    m ← find_first missions (λ m. m.id == mission_id && takes_part user_id m)
    or_throw (Exception.forbidden Reason.unspecified) m
    find_first disputes (λ x. x.mission_id == mission_id)
