-- ===== src/Identity/Events.antt =====
-- What an event of the provider writes.
use gp_connect_server.Common.{
  ℕ, ◌≡◌, refl, ◌≢◌, inl, inr, ◌||◌, Option, none, some, String, arith, Option-cases, ◌==◌, nat_eq,
  string_eq,
}
use gp_connect_server.Schema.{User, UserIdentity, UserIdentityStatus}
use gp_connect_server.Prisma.{
  Prisma, World, zero-cases, find_unique-updated, find_unique-updated_ne,
}
use gp_connect_server.Handler.{ok, Result-cases}
use gp_connect_server.Identity.Service.{
  new_identity, with_identity_status, upsert_status, badge_writes, set_badge,
}

module _ {P : Prisma} where
  -- The identity of the user has the status and the session; no other row changes.
  pub record HasStatus (id : ℕ) (status : UserIdentityStatus) (session : String) (w w' : World P)
      : Type 0 where
    pub only_identities : w' ≡ record w { identities = w'.identities }
    pub identity : UserIdentity
    pub stored : P.user_identity.find_unique id w'.identities ≡ some identity
    pub same_status : identity.status ≡ status
    pub same_provider_id : identity.provider_id ≡ session
    pub others :
        (j : ℕ)
        → j ≢ id
        → P.user_identity.find_unique j w'.identities ≡ P.user_identity.find_unique j w.identities

  pub upsert_status-HasStatus :
      (id : ℕ) (status : UserIdentityStatus) (session : String) (reason : Option String)
      (w : World P)
      → (upsert_status id status session reason w).0 ≡ ok tt
      → HasStatus id status session w (upsert_status id status session reason w).1
  unfolding upsert_status
  upsert_status-HasStatus id status session reason w h =
      elim (Option-cases (P.user_identity.find_unique id w.identities)) [
        | inr (i, f) ↦
            let f' = with_identity_status status session reason in
            let run : (upsert_status id status session reason w).1 ≡ record w {
              identities = P.user_identity.update_many (λ b. b.user_id == id) f' w.identities;
            } =
              ground arith in
            record {
              only_identities = rw run refl;
              identity = f' i;
              stored =
                  rw run (find_unique-updated P.user_identity id f' w.identities i (λ x. refl) f);
              same_status = refl;
              same_provider_id = refl;
              others = λ j ne.
                  rw run
                    (find_unique-updated_ne P.user_identity j id f' w.identities (λ x. refl) ne);
            }
        | inl z ↦
            let new = new_identity id status session reason in
            let clash = λ (b : UserIdentity). b.user_id == id || b.provider_id == session in
            elim (zero-cases (P.user_identity.count clash w.identities)) [
              | inr n ↦ absurd (ground arith)
              | inl free ↦
                  let run : (upsert_status id status session reason w).1
                      ≡ record w { identities = P.user_identity.insert new w.identities } =
                    ground arith in
                  record {
                    only_identities = rw run refl;
                    identity = new;
                    stored = rw run (P.user_identity.find_unique-insert_self new w.identities z);
                    same_status = refl;
                    same_provider_id = refl;
                    others = λ j ne.
                        rw run (P.user_identity.find_unique-insert_ne j new w.identities ne);
                  }
            ]
      ]

  -- The identity and the badge of the user, after an event that writes both.
  pub record HasBadge (id : ℕ) (status : UserIdentityStatus) (session : String) (badge : Option ℕ)
      (w w' : World P) : Type 0 where
    pub user : User
    pub was : P.user.find_unique id w.users ≡ some user
    pub now : P.user.find_unique id w'.users ≡ some (record user { id_card_verified_at = badge })
    pub other_users :
        (j : ℕ) → j ≢ id → P.user.find_unique j w'.users ≡ P.user.find_unique j w.users
    pub identity : UserIdentity
    pub stored : P.user_identity.find_unique id w'.identities ≡ some identity
    pub same_status : identity.status ≡ status
    pub other_identities :
        (j : ℕ)
        → j ≢ id
        → P.user_identity.find_unique j w'.identities ≡ P.user_identity.find_unique j w.identities

  pub set_badge-HasBadge :
      (id : ℕ) (status : UserIdentityStatus) (session : String) (badge : Option ℕ) (w : World P)
      → (set_badge id status session badge w).0 ≡ ok tt
      → HasBadge id status session badge w (set_badge id status session badge w).1
  unfolding set_badge badge_writes
  set_badge-HasBadge id status session badge w h =
      elim (Result-cases (upsert_status id status session none w).0) [
        | inr (x, e) ↦ absurd (ground arith)
        | inl (t, e) ↦
            let s = upsert_status-HasStatus id status session none w (ground arith) in
            let w1 = (upsert_status id status session none w).1 in
            let same : w1.users ≡ w.users = let o = s.only_identities in ground arith in
            let f = λ (u : User). record u { id_card_verified_at = badge } in
            elim (Option-cases (P.user.find_unique id w.users)) [
              | inl z ↦ absurd (ground arith)
              | inr (u, was) ↦
                  let run : (set_badge id status session badge w).1
                      ≡ record w1 { users = P.user.update_many (λ b. b.id == id) f w1.users } =
                    ground arith in
                  record {
                    user = u;
                    was = was;
                    now =
                        rw (run, same) (find_unique-updated P.user id f w.users u (λ x. refl) was);
                    other_users = λ j ne.
                        rw (run, same)
                          (find_unique-updated_ne P.user j id f w.users (λ x. refl) ne);
                    identity = s.identity;
                    stored = rw run s.stored;
                    same_status = s.same_status;
                    other_identities = λ j ne. rw run (s.others j ne);
                  }
            ]
      ]
