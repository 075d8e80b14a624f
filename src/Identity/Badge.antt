-- ===== src/Identity/Badge.antt =====
-- The badge follows the identity through every run of the service.
use gp_connect_server.Common.{
  ℕ, ◌≡◌, refl, sym, ◌∙◌, ◌≢◌, ◌⊎◌, inl, inr, true, Option, none, some, String, arith, Option-cases,
  Bool-cases, nat_beq_iff, ◌==◌, nat_eq, string_eq, is_set, subst,
}
use gp_connect_server.Schema.{User, UserIdentity, UserIdentityStatus}
use gp_connect_server.Prisma.{Prisma, World}
use gp_connect_server.Handler.{Exception, err, Result-cases}
use gp_connect_server.Handler.Inversion.{transaction-err}
use gp_connect_server.Identity.Service.{
  IdentityVerifier, IdentityWebhookEvent, ParsedWebhook, already_verified, upsert_status,
  badge_writes, set_badge, handle_event, handle_parsed, handle_webhook, create_verification_session,
}
use gp_connect_server.Identity.Events.{
  HasStatus, HasBadge, upsert_status-HasStatus, set_badge-HasBadge,
}

module _ {P : Prisma} where
  -- A user with a verified identity has the badge.
  abbrev pub BadgeFollows : World P → Type 0
  BadgeFollows w =
      (id : ℕ) (i : UserIdentity) (u : User)
      → P.user_identity.find_unique id w.identities ≡ some i
      → i.status ≡ UserIdentityStatus.verified
      → P.user.find_unique id w.users ≡ some u
      → is_set u.id_card_verified_at ≡ true

  upsert_status-err :
      (id : ℕ) (status : UserIdentityStatus) (session : String) (reason : Option String)
      (w : World P) {x : Exception}
      → (upsert_status id status session reason w).0 ≡ err x
      → (upsert_status id status session reason w).1 ≡ w
  unfolding upsert_status
  upsert_status-err id status session reason w h =
      elim (Option-cases (P.user_identity.find_unique id w.identities)) [
        | inr (i, f) ↦ ground arith
        | inl z ↦ ground arith
      ]

  set_badge-err :
      (id : ℕ) (status : UserIdentityStatus) (session : String) (badge : Option ℕ) (w : World P)
      {x : Exception}
      → (set_badge id status session badge w).0 ≡ err x
      → (set_badge id status session badge w).1 ≡ w
  unfolding set_badge
  set_badge-err id status session badge w h =
      transaction-err (badge_writes id status session badge) w h

  -- Writes of another status than `verified`.
  HasStatus-BadgeFollows :
      (id : ℕ) (status : UserIdentityStatus) (session : String) (w w' : World P)
      → status ≢ UserIdentityStatus.verified
      → HasStatus id status session w w'
      → BadgeFollows w
      → BadgeFollows w'
  HasStatus-BadgeFollows id status session w w' ne s b j i u f is e =
      let o = s.only_identities in
      let users : w'.users ≡ w.users = ground arith in
      elim (Bool-cases (j == id)) [
        | inl y ↦
            let stored = s.stored in
            let status' = s.same_status in
            let same = (nat_beq_iff j id).0 y in
            let f' = subst (λ k. P.user_identity.find_unique k w'.identities ≡ some i) same f in
            absurd (ne (ground arith))
        | inr n ↦
            let other : j ≢ id = ground (arith, nat_beq_iff j id) in
            b j i u (sym (s.others j other) ∙ f) is (rw users at e)
      ]

  -- Writes of the status and the badge, which is set if the status is `verified`.
  HasBadge-BadgeFollows :
      (id : ℕ) (status : UserIdentityStatus) (session : String) (badge : Option ℕ) (w w' : World P)
      → (status ≢ UserIdentityStatus.verified) ⊎ (is_set badge ≡ true)
      → HasBadge id status session badge w w'
      → BadgeFollows w
      → BadgeFollows w'
  HasBadge-BadgeFollows id status session badge w w' right s b j i u f is e =
      elim (Bool-cases (j == id)) [
        | inl y ↦
            let stored = s.stored in
            let status' = s.same_status in
            let now = s.now in
            let same = (nat_beq_iff j id).0 y in
            let f' = subst (λ k. P.user_identity.find_unique k w'.identities ≡ some i) same f in
            let e' = subst (λ k. P.user.find_unique k w'.users ≡ some u) same e in
            elim right [ inl ne ↦ absurd (ne (ground arith)) | inr set ↦ ground arith ]
        | inr n ↦
            let other : j ≢ id = ground (arith, nat_beq_iff j id) in
            b j i u (sym (s.other_identities j other) ∙ f) is (sym (s.other_users j other) ∙ e)
      ]

  upsert_status-BadgeFollows :
      (id : ℕ) (status : UserIdentityStatus) (session : String) (reason : Option String)
      (w : World P)
      → status ≢ UserIdentityStatus.verified
      → BadgeFollows w
      → BadgeFollows (upsert_status id status session reason w).1
  upsert_status-BadgeFollows id status session reason w ne b =
      elim (Result-cases (upsert_status id status session reason w).0) [
        | inl (t, e) ↦
            HasStatus-BadgeFollows id status session w _ ne
              (upsert_status-HasStatus id status session reason w (ground arith)) b
        | inr (x, e) ↦ rw (upsert_status-err id status session reason w e) b
      ]

  set_badge-BadgeFollows :
      (id : ℕ) (status : UserIdentityStatus) (session : String) (badge : Option ℕ) (w : World P)
      → (status ≢ UserIdentityStatus.verified) ⊎ (is_set badge ≡ true)
      → BadgeFollows w
      → BadgeFollows (set_badge id status session badge w).1
  set_badge-BadgeFollows id status session badge w right b =
      elim (Result-cases (set_badge id status session badge w).0) [
        | inl (t, e) ↦
            HasBadge-BadgeFollows id status session badge w _ right
              (set_badge-HasBadge id status session badge w (ground arith)) b
        | inr (x, e) ↦ rw (set_badge-err id status session badge w e) b
      ]

  handle_event-BadgeFollows :
      (now : ℕ) (e : IdentityWebhookEvent) (w : World P)
      → BadgeFollows w
      → BadgeFollows (handle_event now e w).1
  unfolding handle_event
  handle_event-BadgeFollows now IdentityWebhookEvent.ignored w b = b
  handle_event-BadgeFollows now (IdentityWebhookEvent.verified s none) w b = b
  handle_event-BadgeFollows now (IdentityWebhookEvent.requires_input s none r) w b = b
  handle_event-BadgeFollows now (IdentityWebhookEvent.canceled s none r) w b = b
  handle_event-BadgeFollows now (IdentityWebhookEvent.verified s (some id)) w b =
      set_badge-BadgeFollows id UserIdentityStatus.verified s (some now) w (inr refl) b
  handle_event-BadgeFollows now (IdentityWebhookEvent.canceled s (some id) r) w b =
      set_badge-BadgeFollows id UserIdentityStatus.canceled s none w (inl (λ h. ground arith)) b
  handle_event-BadgeFollows now (IdentityWebhookEvent.requires_input s (some id) r) w b =
      upsert_status-BadgeFollows id UserIdentityStatus.requires_input s (some r) w
        (λ h. ground arith) b

  -- A request to the service, with whatever the provider answers or sends.
  pub data IdentityStep (v : IdentityVerifier) : World P → World P → Type 0 where
    start : (id : ℕ) (w : World P) → IdentityStep v w (create_verification_session v id w).1
    webhook :
        (now : ℕ) (raw_body signature : Option String) (w : World P)
        → IdentityStep v w (handle_webhook v now raw_body signature w).1

  pub data IdentityRun (v : IdentityVerifier) (w : World P) : World P → Type 0 where
    here : IdentityRun v w w
    next : {w1 w2 : World P} → IdentityRun v w w1 → IdentityStep v w1 w2 → IdentityRun v w w2

  create_verification_session-cases :
      (v : IdentityVerifier) (id : ℕ) (w : World P)
      → ((create_verification_session v id w).1 ≡ w)
        ⊎ ((create_verification_session v id w).1
            ≡ (upsert_status id UserIdentityStatus.pending (v.create_session id) none w).1)
  unfolding create_verification_session
  create_verification_session-cases v id w =
      elim (Bool-cases (already_verified (P.user_identity.find_unique id w.identities))) [
        | inl y ↦ inl (ground arith)
        | inr n ↦ inr (ground arith)
      ]

  handle_parsed-BadgeFollows :
      (now : ℕ) (p : ParsedWebhook) (w : World P)
      → BadgeFollows w
      → BadgeFollows (handle_parsed now p w).1
  unfolding handle_parsed
  handle_parsed-BadgeFollows now (ParsedWebhook.event e) w b = handle_event-BadgeFollows now e w b
  handle_parsed-BadgeFollows now ParsedWebhook.not_configured w b = b
  handle_parsed-BadgeFollows now ParsedWebhook.invalid_signature w b = b

  IdentityStep-BadgeFollows :
      {v : IdentityVerifier} {w w' : World P}
      → IdentityStep v w w'
      → BadgeFollows w
      → BadgeFollows w'
  unfolding handle_webhook
  IdentityStep-BadgeFollows {v} (start id w) b = elim (create_verification_session-cases v id w) [
    | inl same ↦ rw same b
    | inr run ↦ rw run (
        upsert_status-BadgeFollows id UserIdentityStatus.pending (v.create_session id) none w
          (λ h. ground arith) b)
  ]
  IdentityStep-BadgeFollows {v} (webhook now raw_body signature w) b =
      handle_parsed-BadgeFollows now (v.parse_webhook raw_body signature) w b

  -- Whatever requests and events reach the service, in any order and whether they succeed or not, a
  -- user whose identity is verified has the badge that the acceptance of offers asks for.
  pub IdentityRun-BadgeFollows :
      {v : IdentityVerifier} {w w' : World P}
      → IdentityRun v w w'
      → BadgeFollows w
      → BadgeFollows w'
  IdentityRun-BadgeFollows here b = b
  IdentityRun-BadgeFollows (next r s) b = IdentityStep-BadgeFollows s (IdentityRun-BadgeFollows r b)
