-- ===== src/Users/Profile.antt =====
-- What a change of a profile does to the row, and to codes that were sent before.
use gp_connect_server.Common.{
  ℕ, ◌≡◌, refl, sym, ◌∙◌, ◌≢◌, inl, inr, Bool, not, ◌&&◌, none, some, String, arith, Option-cases,
  Bool-cases, nat_beq_iff, string_eq, ◌==◌, nat_eq, truthy,
}
use gp_connect_server.Schema.{User, VerificationToken, VerificationTokenType}
use gp_connect_server.Prisma.{
  Prisma, World, zero-cases, row-kept, find_unique-updated, find_unique-updated_ne, unused_id,
}
use gp_connect_server.Handler.{ok, ◌>>=◌, pure}
use gp_connect_server.Handler.Inversion.{>>=-ok}
use gp_connect_server.Verification.{
  same_contact, send_email_verification, send_link, nothing_to_verify, token_of, new_email_token,
  generate_email_token,
}
use gp_connect_server.Users.Service.{
  UpdateUserDto, ContactChanges, LinkDraw, with_changes, prepare_contact_changes, store_changes,
  confirm_change, update_by_id, resets_phone_of,
}
use gp_connect_server.Users.Contacts.{IsPending, prepare_contact_changes-ok, store_changes-ok}

inserted-phone :
    (P : Prisma) (k : ℕ) (new : VerificationToken) (left : P.verification_token.Table)
    (t : VerificationToken)
    → P.verification_token.find_unique new.id left ≡ none
    → new.type ≡ VerificationTokenType.email
    → P.verification_token.find_unique k (P.verification_token.insert new left) ≡ some t
    → t.type ≡ VerificationTokenType.phone
    → P.verification_token.find_unique k left ≡ some t
inserted-phone P k new left t free mail f e = elim (Bool-cases (k == new.id)) [
  | inl y ↦
      let there = P.verification_token.find_unique-insert_self new left free in
      absurd (ground (arith, nat_beq_iff k new.id))
  | inr n ↦
      let ne : k ≢ new.id = ground (arith, nat_beq_iff k new.id) in
      sym (P.verification_token.find_unique-insert_ne k new left ne) ∙ f
]

module _ {P : Prisma} where
  -- A link that is sent changes no user, and no code by SMS.
  send_email_verification-keeps :
      (digest : String → String) (token : String) (new_id now user_id : ℕ) (w : World P)
      → let w' = (send_email_verification digest token new_id now user_id w).1 in
        (w'.users ≡ w.users)
        × ((k : ℕ) (t : VerificationToken)
            → P.verification_token.find_unique k w'.tokens ≡ some t
            → t.type ≡ VerificationTokenType.phone
            → P.verification_token.find_unique k w.tokens ≡ some t)
  unfolding send_email_verification send_link
  send_email_verification-keeps digest token new_id now user_id w =
      elim (Option-cases (P.user.find_unique user_id w.users)) [
        | inl z ↦ (ground arith, λ k t f e. ground arith)
        | inr (u, found) ↦ elim (Bool-cases (nothing_to_verify u)) [
          | inl y ↦ (ground arith, λ k t f e. ground arith)
          | inr n ↦
              let of_user = token_of user_id VerificationTokenType.email in
              let left = P.verification_token.delete_many of_user w.tokens in
              elim (zero-cases (P.verification_token.count (λ b. b.id == new_id) left)) [
                | inl z ↦ (
                  ground arith,
                  λ k t f e.
                      let new =
                        new_email_token new_id user_id (generate_email_token digest token) now u in
                      let f' : P.verification_token.find_unique k
                            (P.verification_token.insert new left)
                          ≡ some t =
                        ground arith in
                      (row-kept P.verification_token k of_user w.tokens t (
                        inserted-phone P k new left t (unused_id P.verification_token new_id left z)
                          refl f' e)).0,
                )
                | inr taken ↦ (
                  ground arith,
                  λ k t f e. (row-kept P.verification_token k of_user w.tokens t (ground arith)).0,
                )
              ]
        ]
      ]

  confirm_change-keeps :
      (digest : String → String) (l : LinkDraw) (id : ℕ) (c : ContactChanges) (w : World P)
      → let q = confirm_change digest l id c w in
        (q.0 ≡ ok tt)
        × (q.1.users ≡ w.users)
        × ((k : ℕ) (t : VerificationToken)
            → P.verification_token.find_unique k q.1.tokens ≡ some t
            → t.type ≡ VerificationTokenType.phone
            → P.verification_token.find_unique k w.tokens ≡ some t)
  unfolding confirm_change
  confirm_change-keeps digest l id c w = elim (Bool-cases (truthy c.pending_email)) [
    | inl y ↦
        let (same, kept) = send_email_verification-keeps digest l.token l.new_id l.now id w in
        (ground arith, ground arith, λ k t f e. kept k t (ground arith) e)
    | inr n ↦ (ground arith, ground arith, λ k t f e. ground arith)
  ]

  -- What a change of a profile did.
  pub record IsUpdated (insensitive : String → String → Bool) (hash : String → String) (id : ℕ)
      (d : UpdateUserDto) (w w' : World P) : Type 0 where
    pub user : User
    pub changes : ContactChanges
    pub found : P.user.find_unique id w.users ≡ some user
    pub pending : IsPending P insensitive id d.email (some user) w changes.pending_email
    pub resets : changes.resets_phone ≡ resets_phone_of d.phone (some user)
    pub free :
        P.user.count
          (λ b. not (b.id == id) && same_contact (with_changes hash d changes user) b)
          w.users
        ≡ 0
    pub stored : P.user.find_unique id w'.users ≡ some (with_changes hash d changes user)
    pub others : (j : ℕ) → j ≢ id → P.user.find_unique j w'.users ≡ P.user.find_unique j w.users
    pub codes :
        (k : ℕ) (t : VerificationToken)
        → P.verification_token.find_unique k w'.tokens ≡ some t
        → t.type ≡ VerificationTokenType.phone
        → P.verification_token.find_unique k w.tokens ≡ some t

  pub update_by_id-IsUpdated :
      (insensitive : String → String → Bool) (hash digest : String → String) (l : LinkDraw) (id : ℕ)
      (d : UpdateUserDto) (w : World P) {u' : User}
      → (update_by_id insensitive hash digest l id d w).0 ≡ ok u'
      → IsUpdated insensitive hash id d w (update_by_id insensitive hash digest l id d w).1
  unfolding update_by_id
  update_by_id-IsUpdated insensitive hash digest l id d w h =
      let finish =
        λ (c : ContactChanges) (u : User). confirm_change digest l id c >>= λ _. pure u in
      let rest = λ (c : ContactChanges). store_changes hash id d c >>= finish c in
      let prepare = prepare_contact_changes insensitive id d.email d.phone in
      let (c, e, q, g) = >>=-ok prepare rest w h in
      let (run, goes, resets) = prepare_contact_changes-ok insensitive id d.email d.phone w e in
      let same : (prepare w).1 ≡ w = ground arith in
      let store = store_changes hash id d c in
      let (u1, e1, q1, g1) = >>=-ok store (finish c) w (rw same at g) in
      let (u, f, free, wrote) = store_changes-ok hash id d c w e1 in
      let (sent, kept, codes) = confirm_change-keeps digest l id c (store w).1 in
      let last : (finish c u1 (store w).1).1 ≡ (confirm_change digest l id c (store w).1).1 =
        ground arith in
      let end : (update_by_id insensitive hash digest l id d w).1
          ≡ (confirm_change digest l id c (store w).1).1 =
        ground arith in
      let run_users : (update_by_id insensitive hash digest l id d w).1.users
          ≡ P.user.update_many (λ b. b.id == id) (with_changes hash d c) w.users =
        ground arith in
      let run_tokens : (store w).1.tokens ≡ w.tokens = ground arith in
      let codes' = rw run_tokens at codes in
      record {
        user = u;
        changes = c;
        found = f;
        pending = rw f at goes;
        resets = rw f at resets;
        free = free;
        stored =
            rw run_users
              (find_unique-updated P.user id (with_changes hash d c) w.users u (λ x. refl) f);
        others = λ j ne.
            rw run_users
              (find_unique-updated_ne P.user j id (with_changes hash d c) w.users (λ x. refl) ne);
        codes = λ k t g e. codes' k t (rw end at g) e;
      }
