-- ===== src/Conversations/Service.antt =====
-- The operations of `ConversationsService` (src/conversations/conversations.service.ts) that change
-- state or guard those that do, and the route that opens a conversation.
use gp_connect_server.Common.{
  ℕ, Bool, false, Option, none, some, is_set, List, [], ◌∷◌, map, ◌==◌, nat_eq, ltb, not, ◌&&◌,
  ◌||◌, includes, length, if◌then◌else◌,
}
use gp_connect_server.Schema.{
  Conversation, ConversationStatus, Mission, MissionStatus, mission_status_eq, AdvertisementStatus,
  advertisement_status_eq, AdvertisementType, MessageAppointment,
}
use gp_connect_server.Prisma.{Prisma}
use gp_connect_server.Handler.{
  Handler, Exception, Reason, ◌>>=◌, ◌>>◌, pure, gets, or_throw, throw_if, transaction,
  catch_unique, find_unique, find_first, count, create, create_many, update, delete, delete_many,
  conversations, missions, mission_packages, packages, users, advertisements, messages, offers,
  appointments,
}
use gp_connect_server.Missions.{same_package}
use gp_connect_server.Offers.{in_conversation}
use gp_connect_server.Blocks.{is_blocked_between}

abbrev pub active_mission_statuses : List MissionStatus
active_mission_statuses =
    MissionStatus.accepted ∷ MissionStatus.in_transit ∷ MissionStatus.disputed ∷ []

-- `OR: [{ shipperId: userId }, { carrierId: userId }]`
abbrev pub participates : ℕ → Conversation → Bool
participates user_id c = c.shipper_id == user_id || c.carrier_id == user_id

abbrev pub correspondent : ℕ → Conversation → ℕ
correspondent user_id c = if c.shipper_id == user_id then c.carrier_id else c.shipper_id

abbrev pub other_deleted_at : ℕ → Conversation → Option ℕ
other_deleted_at user_id c =
    if c.shipper_id == user_id then c.carrier_deleted_at else c.shipper_deleted_at

-- `sideDeletedAt`
abbrev pub with_side_deleted : (is_shipper : Bool) → ℕ → Conversation → Conversation
with_side_deleted is_shipper now c =
    if is_shipper
    then record c { shipper_deleted_at = some now }
    else record c { carrier_deleted_at = some now }

abbrev pub engages : Option Mission → Bool
engages none = false
engages (some m) = includes active_mission_statuses m.status

abbrev pub appointment_in : (P : Prisma) → P.message.Table → ℕ → MessageAppointment → Bool
appointment_in P t conversation_id a = elim (P.message.find_unique a.id t) [
  | none ↦ false
  | some m ↦ m.conversation_id == conversation_id
]

-- `CreateConversationDto` with the parties that the route derives, and the ids that the rows draw.
pub record CreateConversationDto : Type 0 where
  pub new_id : ℕ
  pub new_mission_id : ℕ
  pub advertisement_id : ℕ
  pub shipper_id : ℕ
  pub carrier_id : ℕ
  pub mission_id : Option ℕ
  pub package_ids : List ℕ

-- The `@@unique([advertisementId, shipperId, carrierId])`.
abbrev pub of_trio : CreateConversationDto → Conversation → Bool
of_trio d c =
    c.advertisement_id == d.advertisement_id
    && (c.shipper_id == d.shipper_id && c.carrier_id == d.carrier_id)

abbrev pub new_conversation : CreateConversationDto → ℕ → Conversation
new_conversation d mission_id = record {
  id = d.new_id;
  advertisement_id = d.advertisement_id;
  shipper_id = d.shipper_id;
  carrier_id = d.carrier_id;
  mission_id = some mission_id;
  status = ConversationStatus.active;
  last_message_at = none;
  shipper_deleted_at = none;
  carrier_deleted_at = none;
}

abbrev pub new_dossier : CreateConversationDto → Mission
new_dossier d = record {
  id = d.new_mission_id;
  advertisement_id = d.advertisement_id;
  shipper_id = d.shipper_id;
  carrier_id = none;
  negotiated_price = 0;
  status = MissionStatus.pending;
  recipient_name = none;
  recipient_phone = none;
}

abbrev pub is_dossier : ℕ → ℕ → Mission → Bool
is_dossier advertisement_id shipper_id m =
    m.advertisement_id == advertisement_id
    && (m.shipper_id == shipper_id
        && (not (is_set m.carrier_id) && m.status == MissionStatus.pending))

module _ {P : Prisma} where
  unfoldable pub is_participant : ℕ → ℕ → Handler P Bool
  is_participant conversation_id user_id = do
    n ← count conversations (λ c. c.id == conversation_id && participates user_id c)
    pure (ltb 0 n)

  unfoldable pub assert_not_blocked : ℕ → ℕ → Handler P (Unit {0})
  assert_not_blocked conversation_id user_id = do
    found ← find_unique conversations conversation_id
    elim found [
      | none ↦ pure tt
      | some c ↦ do
        blocked ← is_blocked_between user_id (correspondent user_id c)
        throw_if blocked (Exception.forbidden Reason.interaction_unavailable)
    ]

  -- `getAdvertisementForConversation`, and the guards on an offer for it.
  unfoldable pub assert_offer_allowed : (now : ℕ) → ℕ → ℕ → Option ℕ → Handler P (Unit {0})
  assert_offer_allowed now conversation_id user_id weight = do
    found ← find_first conversations (λ c. c.id == conversation_id && participates user_id c)
    c ← or_throw (Exception.forbidden Reason.unspecified) found
    about ← find_unique advertisements c.advertisement_id
    ad ← or_throw Exception.record_not_found about
    throw_if (ltb ad.arrival_date now) (Exception.bad_request Reason.advertisement_expired)
    throw_if
        (not (ad.status == AdvertisementStatus.open_)
          && not (ad.status == AdvertisementStatus.in_progress))
        (Exception.bad_request Reason.advertisement_unavailable)
    elim weight [
      | none ↦ pure tt
      | some x ↦ throw_if (ltb ad.max_weight x) (Exception.bad_request Reason.offer_too_heavy)
    ]

  -- `conversation.delete`; the messages go with it (onDelete: Cascade), and with these their offers
  -- and appointments.
  unfoldable pub delete_conversation : ℕ → Handler P (Unit {0})
  delete_conversation id = do
    delete conversations id
    t ← gets (λ w. w.messages)
    delete_many offers (in_conversation P t id)
    delete_many appointments (appointment_in P t id)
    delete_many messages (λ m. m.conversation_id == id)

  -- The mission that `removeForUser` reads with the conversation.
  abbrev pub linked_mission : Conversation → Handler P (Option Mission)
  linked_mission c = elim c.mission_id [
    | none ↦ pure none
    | some mission_id ↦ find_unique missions mission_id
  ]

  abbrev pub remove_side : (now : ℕ) → ℕ → ℕ → Conversation → Option Mission → Handler P (Unit {0})
  remove_side now id user_id c m = elim (other_deleted_at user_id c) [
    | none ↦ do update conversations id (with_side_deleted (c.shipper_id == user_id) now); pure tt
    | some _ ↦
        if engages m
        then (do
          update conversations id (λ x.
              with_side_deleted (c.shipper_id == user_id) now
                (record x { status = ConversationStatus.deleted }))
          pure tt)
        else delete_conversation id
  ]

  unfoldable pub remove_for_user : (now : ℕ) → ℕ → ℕ → Handler P (Unit {0})
  remove_for_user now id user_id = do
    found ← find_first conversations (λ c. c.id == id && participates user_id c)
    c ← or_throw (Exception.forbidden Reason.unspecified) found
    m ← linked_mission c
    remove_side now id user_id c m

  unfoldable pub find_dossier_mission : ℕ → ℕ → Handler P (Option Mission)
  find_dossier_mission advertisement_id shipper_id =
      find_first missions (is_dossier advertisement_id shipper_id)

  unfoldable pub assert_packages_owned_by : List ℕ → ℕ → Handler P (Unit {0})
  assert_packages_owned_by [] shipper_id = pure tt
  assert_packages_owned_by (p ∷ ps) shipper_id = do
    owned ← count packages (λ x. includes (p ∷ ps) x.id && x.owner_id == shipper_id)
    throw_if (not (owned == length (p ∷ ps))) (Exception.forbidden Reason.packages_of_others)

  -- A mission that is given is connected; otherwise one is created, with the packages.
  unfoldable pub build_mission_relation : CreateConversationDto → Option ℕ → Handler P ℕ
  build_mission_relation d (some mission_id) = do
    found ← find_unique missions mission_id
    or_throw Exception.record_not_found found
    pure mission_id
  build_mission_relation d none = do
    create missions (λ m. m.id == d.new_mission_id) (new_dossier d)
    create_many mission_packages same_package
        (map (λ p. record { mission_id = d.new_mission_id; package_id = p }) d.package_ids)
    pure d.new_mission_id

  -- The rows that the new conversation connects to.
  unfoldable pub connect_rows : CreateConversationDto → Handler P (Unit {0})
  connect_rows d = do
    ad ← find_unique advertisements d.advertisement_id
    shipper ← find_unique users d.shipper_id
    carrier ← find_unique users d.carrier_id
    throw_if (not (is_set ad && (is_set shipper && is_set carrier))) Exception.record_not_found

  abbrev pub insert_conversation : CreateConversationDto → ℕ → Handler P Conversation
  insert_conversation d mission_id =
      create conversations (λ c. c.id == d.new_id || of_trio d c) (new_conversation d mission_id)

  -- The nested write of `create`, which Prisma makes in one transaction.
  unfoldable pub store_conversation : CreateConversationDto → Handler P Conversation
  store_conversation d =
      transaction
        (connect_rows d >>= λ _. build_mission_relation d d.mission_id >>= insert_conversation d)

  -- On a conflict the conversation of the trio is returned, if there is one.
  abbrev pub existing : CreateConversationDto → Handler P Conversation
  existing d = do
    found ← find_first conversations (of_trio d)
    or_throw Exception.unique_violation found

  abbrev pub store_or_existing : CreateConversationDto → Handler P Conversation
  store_or_existing d = catch_unique (store_conversation d) (existing d)

  unfoldable pub create_conversation : CreateConversationDto → Handler P Conversation
  create_conversation d = do
    blocked ← is_blocked_between d.shipper_id d.carrier_id
    throw_if blocked (Exception.forbidden Reason.interaction_unavailable)
    assert_packages_owned_by d.package_ids d.shipper_id
    store_or_existing d

  -- `POST /conversations`: `missionId` is never taken from the body.
  abbrev pub shared_mission : AdvertisementType → ℕ → ℕ → Handler P (Option ℕ)
  shared_mission AdvertisementType.delivery advertisement_id author_id = pure none
  shared_mission AdvertisementType.shipping advertisement_id author_id = do
    dossier ← find_dossier_mission advertisement_id author_id
    pure (elim dossier [ none ↦ none | some m ↦ some m.id ])

  unfoldable pub create_conversation_route :
      (new_id new_mission_id : ℕ) → ℕ → ℕ → List ℕ → Handler P Conversation
  create_conversation_route new_id new_mission_id user_id advertisement_id package_ids = do
    found ← find_unique advertisements advertisement_id
    ad ← or_throw (Exception.not_found Reason.unspecified) found
    throw_if (ad.author_id == user_id) (Exception.forbidden Reason.own_advertisement)
    mission_id ← shared_mission ad.type advertisement_id ad.author_id
    create_conversation (record {
      new_id = new_id;
      new_mission_id = new_mission_id;
      advertisement_id = advertisement_id;
      shipper_id = elim ad.type [
        | AdvertisementType.delivery ↦ user_id
        | AdvertisementType.shipping ↦ ad.author_id
      ];
      carrier_id = elim ad.type [
        | AdvertisementType.delivery ↦ ad.author_id
        | AdvertisementType.shipping ↦ user_id
      ];
      mission_id = mission_id;
      package_ids = package_ids;
    })
