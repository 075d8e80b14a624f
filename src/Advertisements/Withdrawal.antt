-- ===== src/Advertisements/Withdrawal.antt =====
-- What the deletion of an advertisement comes to.
use gp_connect_server.Common.{
  ℕ, ◌≡◌, refl, ◌≢◌, ◌⊎◌, inl, inr, false, none, some, List, map, arith, Option-cases, ◌==◌, nat_eq,
  includes,
}
use gp_connect_server.Schema.{Advertisement, Mission}
use gp_connect_server.Prisma.{
  Prisma, World, zero-cases, and_parts, Nowhere, Nowhere-count, Nowhere-delete_many, deleted_self,
  deleted_other,
}
use gp_connect_server.Handler.{Result, ok, err, Exception, Reason}
use gp_connect_server.Advertisements.Service.{is_own, refers_to, withdraw, delete_advertisement}

module _ {P : Prisma} (id author_id : ℕ) (w : World P) where
  -- The missions of the advertisement.
  abbrev pub missions_of : List ℕ
  missions_of = map (λ m. m.id) (P.mission.find_many (λ m. m.advertisement_id == id) w.missions)

  abbrev talks_of : ℕ
  talks_of = P.conversation.count (λ c. c.advertisement_id == id) w.conversations

  abbrev paid_of : ℕ
  paid_of = P.transaction.count (λ t. includes missions_of t.mission_id) w.transactions

  pub record IsWithdrawn (w' : World P) : Type 0 where
    pub ad : Advertisement
    pub found : P.advertisement.find_unique id w.advertisements ≡ some ad
    pub own : ad.author_id ≡ author_id
    pub silent : Nowhere P.conversation (λ c. c.advertisement_id == id) w.conversations
    pub unpaid : Nowhere P.transaction (λ t. includes missions_of t.mission_id) w.transactions
    pub gone : P.advertisement.find_unique id w'.advertisements ≡ none
    pub others :
        (k : ℕ)
        → k ≢ id
        → P.advertisement.find_unique k w'.advertisements
          ≡ P.advertisement.find_unique k w.advertisements
    pub missions : Nowhere P.mission (λ m. m.advertisement_id == id) w'.missions
    pub other_missions :
        (k : ℕ) (m : Mission)
        → P.mission.find_unique k w.missions ≡ some m
        → (m.advertisement_id == id) ≡ false
        → P.mission.find_unique k w'.missions ≡ some m
    pub packages :
        Nowhere P.mission_package (λ r. includes missions_of r.mission_id) w'.mission_packages
    pub proofs : Nowhere P.mission_proof (λ r. includes missions_of r.mission_id) w'.proofs

  -- Why a deletion is refused: no such advertisement of the author, or rows that hold it.
  abbrev pub Refusal : Exception → Type 0
  Refusal e =
      ((e ≡ Exception.not_found Reason.advertisement_not_found)
        × (P.advertisement.find_first (is_own id author_id) w.advertisements ≡ none))
      ⊎ ((e ≡ Exception.foreign_key_violation) × ((talks_of ≢ 0) ⊎ (paid_of ≢ 0)))

  abbrev pub Outcome : Result (Unit {0}) × World P → Type 0
  Outcome (ok _, w') = IsWithdrawn w'
  Outcome (err e, w') = (w' ≡ w) × Refusal e

  abbrev withdrawn : World P
  withdrawn = record w {
    mission_packages =
        P.mission_package.delete_many (λ r. includes missions_of r.mission_id) w.mission_packages;
    proofs = P.mission_proof.delete_many (λ r. includes missions_of r.mission_id) w.proofs;
    disputes = P.mission_dispute.delete_many (λ r. includes missions_of r.mission_id) w.disputes;
    ratings = P.mission_rating.delete_many (λ r. includes missions_of r.mission_id) w.ratings;
    offers =
        P.message_offer.update_many (λ o. refers_to missions_of o.mission_id)
          (λ o. record o { mission_id = none }) w.offers;
    conversations =
        P.conversation.update_many (λ c. refers_to missions_of c.mission_id)
          (λ c. record c { mission_id = none }) w.conversations;
    missions = P.mission.delete_many (λ m. m.advertisement_id == id) w.missions;
    advertisements = P.advertisement.delete_many (λ a. a.id == id) w.advertisements;
  }

  withdraw-held :
      (talks_of ≢ 0) ⊎ (paid_of ≢ 0)
      → withdraw id missions_of w ≡ (err Exception.foreign_key_violation, w)
  unfolding withdraw
  withdraw-held h = ground arith

  withdraw-ok : talks_of ≡ 0 → paid_of ≡ 0 → withdraw id missions_of w ≡ (ok tt, withdrawn)
  unfolding withdraw
  withdraw-ok silent unpaid = rw (silent, unpaid) refl

  withdrawn-IsWithdrawn :
      (a : Advertisement)
      → P.advertisement.find_first (is_own id author_id) w.advertisements ≡ some a
      → talks_of ≡ 0
      → paid_of ≡ 0
      → IsWithdrawn withdrawn
  withdrawn-IsWithdrawn a h silent unpaid =
      let (mine, f) = P.advertisement.find_first-some (is_own id author_id) w.advertisements a h in
      let (same, by) = and_parts (a.id == id) (a.author_id == author_id) mine in
      record {
        ad = a;
        found = ground arith;
        own = ground arith;
        silent = Nowhere-count P.conversation _ w.conversations silent;
        unpaid = Nowhere-count P.transaction _ w.transactions unpaid;
        gone = deleted_self P.advertisement id w.advertisements;
        others = λ k ne. deleted_other P.advertisement k id w.advertisements ne;
        missions = Nowhere-delete_many P.mission _ w.missions;
        other_missions = λ k m g o.
            rw
              (P.mission.find_unique-delete_many k (λ b. b.advertisement_id == id) w.missions, g, o)
              refl;
        packages = Nowhere-delete_many P.mission_package _ w.mission_packages;
        proofs = Nowhere-delete_many P.mission_proof _ w.proofs;
      }

  -- A deletion either is refused and writes nothing, because the user has no such advertisement or
  -- because a conversation about it or a payment of one of its missions is there; or it removes the
  -- advertisement of the user, which no conversation is about, with its unpaid missions, their
  -- packages and proofs, and no other advertisement or mission.
  pub delete_advertisement-Outcome : Outcome (delete_advertisement id author_id w)
  unfolding delete_advertisement
  delete_advertisement-Outcome =
      elim (Option-cases (P.advertisement.find_first (is_own id author_id) w.advertisements)) [
        | inl z ↦ rw z (refl, inl (refl, z))
        | inr (a, h) ↦
            let run : delete_advertisement id author_id w ≡ withdraw id missions_of w = rw h refl in
            elim (zero-cases talks_of) [
              | inr p ↦ rw (run, withdraw-held (inl p)) (refl, inr (refl, inl p))
              | inl silent ↦ elim (zero-cases paid_of) [
                | inr p ↦ rw (run, withdraw-held (inr p)) (refl, inr (refl, inr p))
                | inl unpaid ↦
                    rw (run, withdraw-ok silent unpaid) (withdrawn-IsWithdrawn a h silent unpaid)
              ]
            ]
      ]
