-- ===== src/Missions/Effects.antt =====
-- The state machine of a mission's status, and what a change of status does to the rest:
-- `validateStatusTransition` and `applyStatusSideEffects` of src/missions/missions.service.ts.
use gp_connect_server.Common.{
  ℕ, not, ◌&&◌, ◌||◌, Option, none, some, List, [], ◌∷◌, map, ◌==◌, nat_eq, is_some_of, includes,
}
use gp_connect_server.Schema.{
  MissionStatus, mission_status_eq, AdvertisementStatus, TransactionStatus, transaction_status_eq,
  ConversationStatus,
}
use gp_connect_server.Prisma.{Prisma, Effect}
use gp_connect_server.Handler.{
  Handler, Exception, Reason, ◌>>=◌, ◌>>◌, pure, throw_if, when, emit, transaction, find_unique,
  find_many, update, update_many, missions, advertisements, transactions, conversations,
}

-- The matrix `allowed`.
abbrev pub allowed : MissionStatus → List MissionStatus
allowed MissionStatus.pending = MissionStatus.accepted ∷ MissionStatus.cancelled ∷ []
allowed MissionStatus.accepted =
    MissionStatus.in_transit ∷ MissionStatus.cancelled ∷ MissionStatus.disputed ∷ []
allowed MissionStatus.in_transit = MissionStatus.completed ∷ MissionStatus.disputed ∷ []
allowed MissionStatus.completed = []
allowed MissionStatus.cancelled = []
allowed MissionStatus.disputed = []

-- The status that an advertisement takes when one of its missions changes status.
abbrev pub ad_status : MissionStatus → Option AdvertisementStatus
ad_status MissionStatus.accepted = some AdvertisementStatus.in_progress
ad_status MissionStatus.in_transit = some AdvertisementStatus.in_progress
ad_status MissionStatus.completed = some AdvertisementStatus.completed
ad_status MissionStatus.cancelled = some AdvertisementStatus.open_
ad_status _ = none

module _ {P : Prisma} where
  -- The starting status is returned, for the optimistic lock of `update`.
  unfoldable pub validate_status_transition : ℕ → MissionStatus → Handler P (Option MissionStatus)
  validate_status_transition id next = do
    mission ← find_unique missions id
    elim mission [
      | none ↦ pure none
      | some m ↦ do
        throw_if (not (includes (allowed m.status) next))
            (Exception.bad_request Reason.cannot_transition)
        pure (some m.status)
    ]

  -- `if (adStatus) advertisement.update(...)`
  abbrev pub write_ad_status : Option AdvertisementStatus → ℕ → Handler P (Unit {0})
  write_ad_status none ad_id = pure tt
  write_ad_status (some s) ad_id = do
    update advertisements ad_id (λ a. record a { status = s })
    pure tt

  -- The writes of `applyStatusSideEffects`, in one `$transaction`.
  unfoldable pub status_writes : ℕ → ℕ → MissionStatus → Handler P (Unit {0})
  status_writes mission_id ad_id status = transaction (do
    write_ad_status (ad_status status) ad_id
    when (status == MissionStatus.cancelled) (do
      update_many transactions
          (λ t. t.mission_id == mission_id && t.status == TransactionStatus.pending)
          (λ t. record t { status = TransactionStatus.cancelled })
      pure tt)
    when (status == MissionStatus.completed || status == MissionStatus.cancelled) (do
      update_many conversations (λ c. is_some_of c.mission_id mission_id)
          (λ c. record c { status = ConversationStatus.archived })
      pure tt))

  unfoldable pub apply_status_side_effects : ℕ → ℕ → MissionStatus → Handler P (Unit {0})
  apply_status_side_effects mission_id ad_id status = do
    status_writes mission_id ad_id status
    linked ← find_many conversations (λ c. is_some_of c.mission_id mission_id)
    emit (Effect.mission_status_changed mission_id status (map (λ c. c.id) linked))
