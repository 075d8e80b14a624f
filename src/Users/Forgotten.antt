-- ===== src/Users/Forgotten.antt =====
-- A deletion that succeeds leaves no reference to the account.
use gp_connect_server.Common.{
  ℕ, ◌≡◌, refl, inl, inr, false, ◌||◌, none, arith, Option-cases, Bool-cases, ◌==◌, nat_eq,
  is_some_of,
}
use gp_connect_server.Schema.{User}
use gp_connect_server.Prisma.{
  Prisma, World, row-kept, Nowhere, Nowhere-delete_many, Nowhere-count, Nowhere-cleared,
  Nowhere-untouched,
}
use gp_connect_server.Handler.{ok, Result-cases}
use gp_connect_server.Identity.{IdentityVerifier}
use gp_connect_server.Users.Service.{is_referenced, delete_row, delete_user, cascade_user}
use gp_connect_server.Users.Removal.{redact_user_data-erasures, erasures}

module _ {P : Prisma} where
  -- No foreign key refers to the account.
  pub record IsForgotten (id : ℕ) (w' : World P) : Type 0 where
    pub users : P.user.find_unique id w'.users ≡ none
    pub packages : Nowhere P.package_ (λ p. p.owner_id == id) w'.packages
    pub shipped : Nowhere P.mission (λ m. m.shipper_id == id) w'.missions
    pub carried : Nowhere P.mission (λ m. is_some_of m.carrier_id id) w'.missions
    pub opened : Nowhere P.mission_dispute (λ d. d.opened_by_id == id) w'.disputes
    pub resolved : Nowhere P.mission_dispute (λ d. is_some_of d.resolved_by_id id) w'.disputes
    pub created : Nowhere P.mission_proof (λ p. is_some_of p.created_by_id id) w'.proofs
    pub verified : Nowhere P.mission_proof (λ p. is_some_of p.verified_by_id id) w'.proofs
    pub advertisements : Nowhere P.advertisement (λ a. a.author_id == id) w'.advertisements
    pub conversations :
        Nowhere P.conversation (λ c. c.shipper_id == id || c.carrier_id == id) w'.conversations
    pub messages : Nowhere P.message (λ m. m.author_id == id) w'.messages
    pub ratings : Nowhere P.mission_rating (λ r. r.rater_id == id || r.rated_id == id) w'.ratings
    pub reported : Nowhere P.report (λ r. r.reporter_id == id) w'.reports
    pub reviewed : Nowhere P.report (λ r. is_some_of r.reviewed_by_id id) w'.reports
    pub blocks : Nowhere P.user_block (λ b. b.blocker_id == id || b.blocked_id == id) w'.blocks
    pub tokens : Nowhere P.verification_token (λ t. t.user_id == id) w'.tokens
    pub identities : Nowhere P.user_identity (λ i. i.user_id == id) w'.identities
    pub providers : Nowhere P.user_provider (λ p. p.user_id == id) w'.providers

  -- The counts behind `is_referenced`.
  record IsUnreferenced (id : ℕ) (w : World P) : Type 0 where
    packages : P.package_.count (λ p. p.owner_id == id) w.packages ≡ 0
    shipped : P.mission.count (λ m. m.shipper_id == id) w.missions ≡ 0
    opened : P.mission_dispute.count (λ d. d.opened_by_id == id) w.disputes ≡ 0
    advertisements : P.advertisement.count (λ a. a.author_id == id) w.advertisements ≡ 0
    conversations :
        P.conversation.count (λ c. c.shipper_id == id || c.carrier_id == id) w.conversations ≡ 0
    messages : P.message.count (λ m. m.author_id == id) w.messages ≡ 0
    ratings : P.mission_rating.count (λ r. r.rater_id == id || r.rated_id == id) w.ratings ≡ 0
    reports : P.report.count (λ r. r.reporter_id == id) w.reports ≡ 0

  is_referenced-IsUnreferenced :
      (id : ℕ) (w : World P) → (is_referenced id w).0 ≡ ok false → IsUnreferenced id w
  unfolding is_referenced
  is_referenced-IsUnreferenced id w h = record {
    packages = ground arith;
    shipped = ground arith;
    opened = ground arith;
    advertisements = ground arith;
    conversations = ground arith;
    messages = ground arith;
    ratings = ground arith;
    reports = ground arith;
  }

  is_referenced-world : (id : ℕ) (w : World P) → (is_referenced id w).1 ≡ w
  unfolding is_referenced
  is_referenced-world id w = refl

  abbrev cascaded : ℕ → World P → World P
  cascaded id w = record w {
    tokens = P.verification_token.delete_many (λ t. t.user_id == id) w.tokens;
    identities = P.user_identity.delete_many (λ i. i.user_id == id) w.identities;
    providers = P.user_provider.delete_many (λ p. p.user_id == id) w.providers;
    blocks = P.user_block.delete_many (λ b. b.blocker_id == id || b.blocked_id == id) w.blocks;
    missions =
        P.mission.update_many (λ m. is_some_of m.carrier_id id)
          (λ m. record m { carrier_id = none }) w.missions;
    disputes =
        P.mission_dispute.update_many (λ d. is_some_of d.resolved_by_id id)
          (λ d. record d { resolved_by_id = none }) w.disputes;
    proofs =
        P.mission_proof.update_many (λ p. is_some_of p.verified_by_id id)
          (λ p. record p { verified_by_id = none })
          (P.mission_proof.update_many (λ p. is_some_of p.created_by_id id)
            (λ p. record p { created_by_id = none }) w.proofs);
    reports =
        P.report.update_many (λ r. is_some_of r.reviewed_by_id id)
          (λ r. record r { reviewed_by_id = none }) w.reports;
  }

  cascade_user-cascaded : (id : ℕ) (w : World P) → cascade_user id w ≡ (ok tt, cascaded id w)
  unfolding cascade_user
  cascade_user-cascaded id w = refl

  delete_row-ok :
      (id : ℕ) (w : World P) {u : User}
      → (delete_row id w).0 ≡ ok u
      → IsUnreferenced id w
        × ((delete_row id w).1
            ≡ cascaded id (record w { users = P.user.delete_many (λ a. a.id == id) w.users }))
  unfolding delete_row
  delete_row-ok id w h = elim (Result-cases (is_referenced id w).0) [
    | inr (x, e) ↦ absurd (ground arith)
    | inl (r, e) ↦ elim (Bool-cases r) [
      | inl y ↦ let same = is_referenced-world id w in absurd (ground arith)
      | inr n ↦ elim (Option-cases (P.user.find_unique id w.users)) [
        | inl z ↦ let same = is_referenced-world id w in absurd (ground arith)
        | inr (u, f) ↦
            let same = is_referenced-world id w in
            let rows =
              cascade_user-cascaded id
                (record w { users = P.user.delete_many (λ a. a.id == id) w.users }) in
            (is_referenced-IsUnreferenced id w (ground arith), ground arith)
      ]
    ]
  ]

  cascaded-IsForgotten :
      (id : ℕ) (w : World P)
      → IsUnreferenced id w
      → IsForgotten id
          (cascaded id (record w { users = P.user.delete_many (λ a. a.id == id) w.users }))
  cascaded-IsForgotten id w r = record {
    users =
        elim (Option-cases (P.user.find_unique id (P.user.delete_many (λ a. a.id == id) w.users))) [
          | inl z ↦ z
          | inr (u, f) ↦
              let (there, other) = row-kept P.user id (λ a. a.id == id) w.users u f in
              absurd (ground (arith, P.user.key-find_unique id w.users u there))
        ];
    packages = Nowhere-count P.package_ _ w.packages r.packages;
    shipped =
        Nowhere-untouched P.mission (λ m. m.shipper_id == id) _ _ w.missions (λ a. refl) (λ a. refl)
          (Nowhere-count P.mission _ w.missions r.shipped);
    carried =
        Nowhere-cleared P.mission (λ m. is_some_of m.carrier_id id) _ w.missions (λ a. refl)
          (λ a. refl);
    opened =
        Nowhere-untouched P.mission_dispute (λ d. d.opened_by_id == id) _ _ w.disputes (λ a. refl)
          (λ a. refl) (Nowhere-count P.mission_dispute _ w.disputes r.opened);
    resolved =
        Nowhere-cleared P.mission_dispute (λ d. is_some_of d.resolved_by_id id) _ w.disputes
          (λ a. refl) (λ a. refl);
    created =
        Nowhere-untouched P.mission_proof (λ p. is_some_of p.created_by_id id) _ _ _ (λ a. refl)
          (λ a. refl)
          (Nowhere-cleared P.mission_proof (λ p. is_some_of p.created_by_id id) _ w.proofs
            (λ a. refl) (λ a. refl));
    verified =
        Nowhere-cleared P.mission_proof (λ p. is_some_of p.verified_by_id id) _ _ (λ a. refl)
          (λ a. refl);
    advertisements = Nowhere-count P.advertisement _ w.advertisements r.advertisements;
    conversations = Nowhere-count P.conversation _ w.conversations r.conversations;
    messages = Nowhere-count P.message _ w.messages r.messages;
    ratings = Nowhere-count P.mission_rating _ w.ratings r.ratings;
    reported =
        Nowhere-untouched P.report (λ x. x.reporter_id == id) _ _ w.reports (λ a. refl) (λ a. refl)
          (Nowhere-count P.report _ w.reports r.reports);
    reviewed =
        Nowhere-cleared P.report (λ x. is_some_of x.reviewed_by_id id) _ w.reports (λ a. refl)
          (λ a. refl);
    blocks = Nowhere-delete_many P.user_block _ w.blocks;
    tokens = Nowhere-delete_many P.verification_token _ w.tokens;
    identities = Nowhere-delete_many P.user_identity _ w.identities;
    providers = Nowhere-delete_many P.user_provider _ w.providers;
  }

  -- After a deletion that succeeds the account is gone, and no row of a modelled table refers to it by
  -- a foreign key. The target of a report is no foreign key, and is not covered.
  pub delete_user-IsForgotten :
      (v : IdentityVerifier) (id : ℕ) (w : World P) {u : User}
      → (delete_user v id w).0 ≡ ok u
      → IsForgotten id (delete_user v id w).1
  unfolding delete_user
  delete_user-IsForgotten v id w h = elim (Option-cases (P.user.find_unique id w.users)) [
    | inl z ↦
        let run : delete_user v id w ≡ delete_row id w = ground arith in
        let (r, wrote) = delete_row-ok id w (rw run at h) in
        rw (run, wrote) (cascaded-IsForgotten id w r)
    | inr (u, f) ↦
        let es =
          erasures v (P.user_identity.find_many (λ i. i.user_id == id) w.identities) w.effects in
        let asked = redact_user_data-erasures v id w in
        let run : delete_user v id w ≡ delete_row id (record w { effects = es }) = ground arith in
        let (r, wrote) = delete_row-ok id (record w { effects = es }) (rw run at h) in
        rw (run, wrote) (cascaded-IsForgotten id (record w { effects = es }) r)
  ]
