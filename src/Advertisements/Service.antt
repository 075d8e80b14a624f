-- ===== src/Advertisements/Service.antt =====
-- The writes of `AdvertisementsService` (src/advertisements/advertisements.service.ts).
use gp_connect_server.Common.{
  ℕ, Bool, not, ◌&&◌, Option, none, some, List, [], ◌∷◌, map, ◌==◌, nat_eq, includes, length,
}
use gp_connect_server.Schema.{
  Advertisement, AdvertisementType, advertisement_type_eq, AdvertisementStatus, Mission,
  MissionStatus,
}
use gp_connect_server.Prisma.{Prisma}
use gp_connect_server.Handler.{
  Handler, Exception, Reason, ◌>>=◌, ◌>>◌, pure, or_throw, throw_if, when, transaction, find_unique,
  find_first, find_many, count, create, create_many, update, update_many, delete_many, users,
  missions, mission_packages, packages, advertisements, conversations, transactions, proofs,
  disputes, ratings, offers,
}
use gp_connect_server.Missions.{same_package, given}

-- What the routes hand to `create`: the body, the author and the type that the route imposes, the
-- addresses that `createIfNotExist` returned, and the ids and the time that the database draws.
pub record CreateAdvertisementDto : Type 0 where
  pub type : AdvertisementType
  pub price : ℕ
  pub max_weight : Option ℕ
  pub destination_id : ℕ
  pub departure_id : ℕ
  pub author_id : ℕ
  pub departure_date : Option ℕ
  pub arrival_date : ℕ
  pub package_ids : List ℕ
  pub new_id : ℕ
  pub new_mission_id : ℕ
  pub now : ℕ

abbrev pub new_advertisement : CreateAdvertisementDto → Advertisement
new_advertisement d = record {
  id = d.new_id;
  type = d.type;
  status = AdvertisementStatus.open_;
  price = d.price;
  max_weight = given d.max_weight 0;
  destination_id = d.destination_id;
  departure_id = d.departure_id;
  author_id = d.author_id;
  departure_date = d.departure_date;
  arrival_date = d.arrival_date;
  created_at = d.now;
}

-- The mission of a SHIPPING advertisement: no carrier yet, and its shipper is the author.
abbrev pub mission_dossier : CreateAdvertisementDto → Mission
mission_dossier d = record {
  id = d.new_mission_id;
  advertisement_id = d.new_id;
  shipper_id = d.author_id;
  carrier_id = none;
  negotiated_price = 0;
  status = MissionStatus.pending;
  recipient_name = none;
  recipient_phone = none;
}

-- `UpdateAdvertisementDto`: author, type and addresses cannot be sent.
pub record UpdateAdvertisementDto : Type 0 where
  pub price : Option ℕ
  pub max_weight : Option ℕ
  pub departure_date : Option ℕ
  pub arrival_date : Option ℕ

abbrev pub given_date : Option ℕ → Option ℕ → Option ℕ
given_date none old = old
given_date (some d) old = some d

abbrev pub with_terms : UpdateAdvertisementDto → Advertisement → Advertisement
with_terms d a = record a {
  price = given d.price a.price;
  max_weight = given d.max_weight a.max_weight;
  departure_date = given_date d.departure_date a.departure_date;
  arrival_date = given d.arrival_date a.arrival_date;
}

-- `where: { id, authorId }`
abbrev pub is_own : ℕ → ℕ → Advertisement → Bool
is_own id author_id a = a.id == id && a.author_id == author_id

-- A nullable reference to one of the missions.
abbrev pub refers_to : List ℕ → Option ℕ → Bool
refers_to ids none = Bool.false
refers_to ids (some id) = includes ids id

module _ {P : Prisma} where
  unfoldable pub assert_packages_of_author : List ℕ → ℕ → Handler P (Unit {0})
  assert_packages_of_author [] author_id = pure tt
  assert_packages_of_author (p ∷ ps) author_id = do
    owned ← count packages (λ x. includes (p ∷ ps) x.id && x.owner_id == author_id)
    throw_if (not (owned == length (p ∷ ps))) (Exception.bad_request Reason.packages_not_owned)

  unfoldable pub create_dossier : CreateAdvertisementDto → Handler P (Unit {0})
  create_dossier d = do
    create missions (λ m. m.id == d.new_mission_id) (mission_dossier d)
    create_many mission_packages same_package
        (map (λ p. record { mission_id = d.new_mission_id; package_id = p }) d.package_ids)

  -- What follows the row of the advertisement in the nested write.
  unfoldable pub attach_dossier : CreateAdvertisementDto → Advertisement → Handler P Advertisement
  attach_dossier d ad = do when (d.type == AdvertisementType.shipping) (create_dossier d); pure ad

  -- The nested write of `create`. The addresses are there, so only the author may be missing.
  unfoldable pub store_advertisement : CreateAdvertisementDto → Handler P Advertisement
  store_advertisement d = do
    author ← find_unique users d.author_id
    or_throw Exception.record_not_found author
    ad ← create advertisements (λ a. a.id == d.new_id) (new_advertisement d)
    attach_dossier d ad

  unfoldable pub create_advertisement : CreateAdvertisementDto → Handler P Advertisement
  create_advertisement d =
      assert_packages_of_author d.package_ids d.author_id >> transaction (store_advertisement d)

  unfoldable pub update_advertisement : ℕ → ℕ → UpdateAdvertisementDto → Handler P Advertisement
  update_advertisement id author_id d = do
    found ← find_first advertisements (is_own id author_id)
    or_throw (Exception.not_found Reason.advertisement_not_found) found
    update advertisements id (with_terms d)

  unfoldable pub set_status : ℕ → AdvertisementStatus → Handler P Advertisement
  set_status id status = update advertisements id (λ a. record a { status = status })

  -- The foreign keys of prisma/schema.prisma that refer to an advertisement: a conversation
  -- restricts its deletion, its missions go with it, with what belongs to them, unless one of them
  -- has a transaction.
  unfoldable pub withdraw : ℕ → List ℕ → Handler P (Unit {0})
  withdraw id gone = do
    talks ← count conversations (λ c. c.advertisement_id == id)
    paid ← count transactions (λ t. includes gone t.mission_id)
    throw_if (not (talks == 0 && paid == 0)) Exception.foreign_key_violation
    delete_many mission_packages (λ r. includes gone r.mission_id)
    delete_many proofs (λ r. includes gone r.mission_id)
    delete_many disputes (λ r. includes gone r.mission_id)
    delete_many ratings (λ r. includes gone r.mission_id)
    update_many offers (λ o. refers_to gone o.mission_id) (λ o. record o { mission_id = none })
    update_many conversations (λ c. refers_to gone c.mission_id)
        (λ c. record c { mission_id = none })
    delete_many missions (λ m. m.advertisement_id == id)
    delete_many advertisements (λ a. a.id == id)

  unfoldable pub delete_advertisement : ℕ → ℕ → Handler P (Unit {0})
  delete_advertisement id author_id = do
    found ← find_first advertisements (is_own id author_id)
    or_throw (Exception.not_found Reason.advertisement_not_found) found
    gone ← find_many missions (λ m. m.advertisement_id == id)
    withdraw id (map (λ m. m.id) gone)
