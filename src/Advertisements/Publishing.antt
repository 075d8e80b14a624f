-- ===== src/Advertisements/Publishing.antt =====
-- What the creation of an advertisement comes to.
use gp_connect_server.Common.{
  ℕ, ◌≡◌, refl, ◌≢◌, ◌⊎◌, inl, inr, ◌&&◌, some, none, List, [], ◌∷◌, arith, length, includes, ◌==◌,
  nat_eq, Bool-cases, Option-cases, nat_beq_iff,
}
use gp_connect_server.Schema.{AdvertisementStatus, Advertisement, advertisement_type_eq}
use gp_connect_server.Prisma.{Prisma, World, zero-cases, unused_id}
use gp_connect_server.Handler.{Result, ok, err, Exception, Reason, transaction, Result-cases}
use gp_connect_server.Handler.Inversion.{transaction-ok, transaction-err, bind_ok}
use gp_connect_server.Missions.{given}
use gp_connect_server.Advertisements.Dossier.{DossierOf, with_ad, attach_dossier-ok}
use gp_connect_server.Advertisements.Service.{
  CreateAdvertisementDto, new_advertisement, assert_packages_of_author, attach_dossier,
  store_advertisement, create_advertisement,
}

module _ {P : Prisma} (d : CreateAdvertisementDto) (w : World P) where
  -- The packages that the body lists are packages of the author.
  abbrev pub Owned : List ℕ → Type 0
  Owned [] = Unit {0}
  Owned (p ∷ ps) =
      P.package_.count (λ x. includes (p ∷ ps) x.id && x.owner_id == d.author_id) w.packages
      ≡ length (p ∷ ps)

  pub record IsPublished (w' : World P) : Type 0 where
    pub owned : Owned d.package_ids
    pub fresh : P.advertisement.find_unique d.new_id w.advertisements ≡ none
    pub stored :
        P.advertisement.find_unique d.new_id w'.advertisements
        ≡ some (record {
          id = d.new_id;
          type = d.type;
          status = AdvertisementStatus.open_;
          price = d.price;
          max_weight = given d.max_weight 0;
          destination_id = d.destination_id;
          departure_id = d.departure_id;
          author_id = d.author_id;
          departure_date = d.departure_date;
          arrival_date = d.arrival_date;
          created_at = d.now;
        })
    pub others :
        (k : ℕ)
        → k ≢ d.new_id
        → P.advertisement.find_unique k w'.advertisements
          ≡ P.advertisement.find_unique k w.advertisements
    pub dossier : DossierOf d w d.type w'

  store_advertisement-ok :
      {a : Advertisement}
      → (store_advertisement d w).0 ≡ ok a
      → (P.advertisement.count (λ b. b.id == d.new_id) w.advertisements ≡ 0)
        × (store_advertisement d w ≡ attach_dossier d (new_advertisement d) (with_ad d w))
  unfolding store_advertisement
  store_advertisement-ok h = elim (Option-cases (P.user.find_unique d.author_id w.users)) [
    | inl z ↦ absurd (ground arith)
    | inr (u, f) ↦
        elim (zero-cases (P.advertisement.count (λ b. b.id == d.new_id) w.advertisements)) [
          | inl z ↦ (z, ground arith)
          | inr p ↦ absurd (ground arith)
        ]
  ]

  store_advertisement-IsPublished :
      {a : Advertisement}
      → Owned d.package_ids
      → (store_advertisement d w).0 ≡ ok a
      → (a ≡ new_advertisement d) × IsPublished (store_advertisement d w).1
  store_advertisement-IsPublished owned h =
      let (z, run) = store_advertisement-ok h in
      let (same, ads, has) = attach_dossier-ok d w (new_advertisement d) (rw run at h) in
      let free = unused_id P.advertisement d.new_id w.advertisements z in
      (
        same,
        record {
          owned = owned;
          fresh = free;
          stored =
              rw (run, ads)
                (P.advertisement.find_unique-insert_self (new_advertisement d) w.advertisements
                  free);
          others = λ k ne.
              rw (run, ads)
                (P.advertisement.find_unique-insert_ne k (new_advertisement d) w.advertisements ne);
          dossier = rw run has;
        },
      )

  assert_packages-Owned :
      (ps : List ℕ)
      → ((assert_packages_of_author ps d.author_id w ≡ (ok tt, w)) × Owned ps)
        ⊎ (assert_packages_of_author ps d.author_id w
            ≡ (err (Exception.bad_request Reason.packages_not_owned), w))
  unfolding assert_packages_of_author
  assert_packages-Owned [] = inl (refl, tt)
  assert_packages-Owned (p ∷ ps) =
      let owned =
        P.package_.count (λ x. includes (p ∷ ps) x.id && x.owner_id == d.author_id) w.packages in
      elim (Bool-cases (owned == length (p ∷ ps))) [
        | inl t ↦ inl (ground arith, (nat_beq_iff _ _).0 t)
        | inr f ↦ inr (ground arith)
      ]

  create_advertisement-refused :
      {e : Exception}
      → assert_packages_of_author d.package_ids d.author_id w ≡ (err e, w)
      → create_advertisement d w ≡ (err e, w)
  unfolding create_advertisement
  create_advertisement-refused h = ground arith

  create_advertisement-owned :
      assert_packages_of_author d.package_ids d.author_id w ≡ (ok tt, w)
      → create_advertisement d w ≡ transaction (store_advertisement d) w
  unfolding create_advertisement
  create_advertisement-owned h =
      bind_ok (assert_packages_of_author d.package_ids d.author_id)
        (λ _. transaction (store_advertisement d)) w h

  abbrev pub Creation : Result Advertisement × World P → Type 0
  Creation (ok a, w') = (a ≡ new_advertisement d) × IsPublished w'
  Creation (err e, w') = w' ≡ w

  -- A creation that fails writes nothing. One that succeeds stores the open advertisement of the
  -- author under a fresh id and changes no other; the author owns as many of the listed packages as
  -- are listed; and with a SHIPPING advertisement comes a pending mission of the author, without a
  -- carrier, that carries each of the packages, with a DELIVERY one no mission and no package.
  pub create_advertisement-Creation : Creation (create_advertisement d w)
  create_advertisement-Creation = elim (assert_packages-Owned d.package_ids) [
    | inr bad ↦ rw (create_advertisement-refused bad) refl
    | inl (good, owned) ↦
        let run = create_advertisement-owned good in
        elim (Result-cases (transaction (store_advertisement d) w).0) [
          | inr (x, q) ↦
              let undone : transaction (store_advertisement d) w ≡ (err x, w) =
                let back = transaction-err (store_advertisement d) w q in ground arith in
              rw (run, undone) refl
          | inl (a, q) ↦
              let (done, same) = transaction-ok (store_advertisement d) w q in
              let both : transaction (store_advertisement d) w
                  ≡ (ok a, (store_advertisement d w).1) =
                ground arith in
              rw (run, both) (store_advertisement-IsPublished owned done)
        ]
  ]
