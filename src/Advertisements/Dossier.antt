-- ===== src/Advertisements/Dossier.antt =====
-- The mission that comes with a SHIPPING advertisement.
use gp_connect_server.Common.{
  ℕ, ◌≡◌, refl, sym, ◌∙◌, ap, subst, ◌⊎◌, inl, inr, some, none, List, map, arith, ◌==◌, nat_eq,
}
use gp_connect_server.Schema.{
  MissionStatus, Advertisement, AdvertisementType, advertisement_type_eq, MissionPackage,
}
use gp_connect_server.Prisma.{Prisma, World, Within, zero-cases, unused_id}
use gp_connect_server.Handler.{ok, create_many, mission_packages, Result-cases}
use gp_connect_server.Missions.{same_package}
use gp_connect_server.Missions.Linking.{link, create_many-linked, Within-linked, Within-map}
use gp_connect_server.Advertisements.Service.{
  CreateAdvertisementDto, new_advertisement, mission_dossier, create_dossier, attach_dossier,
}

type-cases :
    (t : AdvertisementType) → (t ≡ AdvertisementType.shipping) ⊎ (t ≡ AdvertisementType.delivery)
type-cases AdvertisementType.shipping = inl refl
type-cases AdvertisementType.delivery = inr refl

module _ {P : Prisma} (d : CreateAdvertisementDto) (w : World P) where
  pub record HasDossier (w' : World P) : Type 0 where
    pub fresh : P.mission.find_unique d.new_mission_id w.missions ≡ none
    pub mission :
        P.mission.find_unique d.new_mission_id w'.missions
        ≡ some (record {
          id = d.new_mission_id;
          advertisement_id = d.new_id;
          shipper_id = d.author_id;
          carrier_id = none;
          negotiated_price = 0;
          status = MissionStatus.pending;
          recipient_name = none;
          recipient_phone = none;
        })
    pub packages :
        (p : ℕ)
        → Within p d.package_ids
        → P.mission_package.find_unique (d.new_mission_id, p) w'.mission_packages
          ≡ some (link d.new_mission_id p)

  -- A SHIPPING advertisement has its mission with the packages; a DELIVERY one has none.
  abbrev pub DossierOf : AdvertisementType → World P → Type 0
  DossierOf AdvertisementType.shipping w' = HasDossier w'
  DossierOf AdvertisementType.delivery w' =
      (w'.missions ≡ w.missions) × (w'.mission_packages ≡ w.mission_packages)

  -- The database with the advertisement.
  abbrev pub with_ad : World P
  with_ad = record w {
    advertisements = P.advertisement.insert (new_advertisement d) w.advertisements;
  }

  abbrev rows : List MissionPackage
  rows = map (link d.new_mission_id) d.package_ids

  abbrev with_dossier : World P
  with_dossier = record w {
    advertisements = P.advertisement.insert (new_advertisement d) w.advertisements;
    missions = P.mission.insert (mission_dossier d) w.missions;
  }

  create_dossier-ok :
      {u : Unit {0}}
      → (create_dossier d with_ad).0 ≡ ok u
      → (P.mission.count (λ m. m.id == d.new_mission_id) w.missions ≡ 0)
        × (create_dossier d with_ad ≡ create_many mission_packages same_package rows with_dossier)
  unfolding create_dossier
  create_dossier-ok h =
      elim (zero-cases (P.mission.count (λ m. m.id == d.new_mission_id) w.missions)) [
        | inl z ↦ (z, ground arith)
        | inr p ↦ absurd (ground arith)
      ]

  dossier-HasDossier :
      {u : Unit {0}}
      → (create_dossier d with_ad).0 ≡ ok u
      → ((create_dossier d with_ad).1.advertisements ≡ with_ad.advertisements)
        × HasDossier (create_dossier d with_ad).1
  dossier-HasDossier h =
      let (z, run) = create_dossier-ok h in
      let done = rw run at h in
      let wrote = create_many-linked rows with_dossier done in
      let free = unused_id P.mission d.new_mission_id w.missions z in
      rw (run, wrote)
        (
          refl,
          record {
            fresh = free;
            mission = P.mission.find_unique-insert_self (mission_dossier d) w.missions free;
            packages = λ p m.
                Within-linked rows with_dossier (link d.new_mission_id p) done
                  (Within-map d.new_mission_id p d.package_ids m);
          },
        )

  attach_dossier-shipping :
      (ad : Advertisement) {a : Advertisement}
      → d.type ≡ AdvertisementType.shipping
      → (attach_dossier d ad with_ad).0 ≡ ok a
      → (u : Unit {0}) × ((create_dossier d with_ad).0 ≡ ok u)
        × (a ≡ ad)
        × (attach_dossier d ad with_ad ≡ (ok ad, (create_dossier d with_ad).1))
  unfolding attach_dossier
  attach_dossier-shipping ad e h = elim (Result-cases (create_dossier d with_ad).0) [
    | inr (x, q) ↦ absurd (ground arith)
    | inl (u, q) ↦ (u, q, ground arith, ground arith)
  ]

  attach_dossier-delivery :
      (ad : Advertisement)
      → d.type ≡ AdvertisementType.delivery
      → attach_dossier d ad with_ad ≡ (ok ad, with_ad)
  unfolding attach_dossier
  attach_dossier-delivery ad e = ground arith

  pub attach_dossier-ok :
      (ad : Advertisement) {a : Advertisement}
      → (attach_dossier d ad with_ad).0 ≡ ok a
      → (a ≡ ad)
        × ((attach_dossier d ad with_ad).1.advertisements ≡ with_ad.advertisements)
        × DossierOf d.type (attach_dossier d ad with_ad).1
  attach_dossier-ok ad h = elim (type-cases d.type) [
    | inr e ↦
        let run = attach_dossier-delivery ad e in
        let same = rw run at h in
        (
          ground arith,
          ap (λ q. q.1.advertisements) run,
          subst (λ q. DossierOf d.type q.1) (sym run)
              (subst (λ t. DossierOf t with_ad) (sym e) (refl, refl)),
        )
    | inl e ↦
        let (u, q, same, run) = attach_dossier-shipping ad e h in
        let (ads, has) = dossier-HasDossier q in
        (
          same,
          ap (λ q. q.1.advertisements) run ∙ ads,
          subst (λ t. DossierOf t (attach_dossier d ad with_ad).1) (sym e) (rw run has),
        )
  ]
