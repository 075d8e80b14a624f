-- ===== src/Verification/Links.antt =====
-- The life of a link: a link that was sent confirms the address it was sent to, and works once.
use gp_connect_server.Common.{
  ℕ, ◌+◌, ◌≤◌, ◌≡◌, inl, inr, Bool, true, false, not, ◌&&◌, none, some, String, arith, Option-cases,
  Bool-cases, truthy, nat_beq_iff, string_eq, ◌==◌, nat_eq, ◌∷◌,
}
use gp_connect_server.Schema.{
  User, VerificationToken, VerificationTokenType, verification_token_type_eq,
}
use gp_connect_server.Prisma.{
  Prisma, World, Effect, AtMostOne, row-kept, find_first-only, unused_id, find_unique-updated,
}
use gp_connect_server.Handler.{Exception, Reason, ok, err}
use gp_connect_server.Verification.Service.{
  confirmed, same_contact, pending_of, email_verified, other_address, link_of, hour_in_ms,
  generate_email_token, new_email_token, nothing_to_verify, mail_target, token_of, confirm_email,
  use_link, load_link, verify_email_token, send_link, send_email_verification,
}
use gp_connect_server.Verification.Email.{
  IsVerified, confirmed-IsVerified, confirmed-id, verify_email_token-ok,
}
use text.Mathlib.TextPositions.{eq_refl}

target_not_other : (u : User) → other_address (pending_of (some u)) (some (mail_target u)) ≡ false
target_not_other u = elim (Option-cases u.pending_email) [
  | inl z ↦ ground arith
  | inr (p, e) ↦ ground (arith, eq_refl p)
]

due_not_settled :
    (u : User)
    → nothing_to_verify u ≡ false
    → email_verified (some u) ≡ true
    → ¬ (pending_of (some u) ≡ none)
due_not_settled u due verified settled = elim (Bool-cases (truthy u.pending_email)) [
  | inr n ↦ ground arith
  | inl y ↦ elim (Option-cases u.pending_email) [ inl z ↦ ground arith | inr (p, e) ↦ ground arith ]
]

module _ {P : Prisma} where
  no_link :
      (digest : String → String) (now : ℕ) (token : String) (w : World P)
      → P.verification_token.find_first (link_of digest token) w.tokens ≡ none
      → verify_email_token digest now token w
        ≡ (err (Exception.bad_request Reason.invalid_token), w)
  unfolding verify_email_token load_link
  no_link digest now token w z = ground arith

  -- The link that was used is gone, and no other has its digest.
  used_link :
      (digest : String → String) (token : String) (w : World P) (t : VerificationToken)
      → AtMostOne P.verification_token (link_of digest token) w.tokens
      → P.verification_token.find_first (link_of digest token) w.tokens ≡ some t
      → P.verification_token.find_first
          (link_of digest token)
          (P.verification_token.delete_many (λ b. b.id == t.id) w.tokens)
        ≡ none
  used_link digest token w t one f =
      let left = P.verification_token.delete_many (λ b. b.id == t.id) w.tokens in
      let (hit, there) = P.verification_token.find_first-some _ w.tokens t f in
      elim (Option-cases (P.verification_token.find_first (link_of digest token) left)) [
        | inl z ↦ z
        | inr (b, e) ↦
            let (hit', f') = P.verification_token.find_first-some _ left b e in
            let (there', other) =
              row-kept P.verification_token b.id (λ x. x.id == t.id) w.tokens b f' in
            let same = one b t there' there hit' hit in
            absurd (ground (arith, nat_beq_iff b.id t.id))
      ]

  -- A link works once: if it is accepted for a user who has something to verify (an address that is
  -- pending, or an active one that is not verified), then it is refused as invalid at any time after
  -- it and nothing is written, if no other link has its digest.
  pub verify_email_token-again :
      (digest : String → String) (now : ℕ) (token : String) (w : World P) (t : VerificationToken)
      (u : User) (now' : ℕ) {r : Bool}
      → AtMostOne P.verification_token (link_of digest token) w.tokens
      → P.verification_token.find_first (link_of digest token) w.tokens ≡ some t
      → P.user.find_unique t.user_id w.users ≡ some u
      → nothing_to_verify u ≡ false
      → (verify_email_token digest now token w).0 ≡ ok r
      → let w' = (verify_email_token digest now token w).1 in
        verify_email_token digest now' token w'
        ≡ (err (Exception.bad_request Reason.invalid_token), w')
  verify_email_token-again digest now token w t u now' one f whose due h =
      let (t', f', outcome) = verify_email_token-ok digest now token w h in
      let same : t' ≡ t = ground arith in
      elim outcome [
        | inl (_, verified, settled) ↦
            let found : P.user.find_unique t'.user_id w.users ≡ some u = ground arith in
            absurd (due_not_settled u due (rw found at verified) (rw found at settled))
        | inr c ↦
            let gone = used_link digest token w t' one f' in
            rw (c.stored) (no_link digest now' token _ gone)
      ]

  sent_link :
      (digest : String → String) (token : String) (new_id now user_id : ℕ) (w : World P) (u : User)
      → P.user.find_unique user_id w.users ≡ some u
      → nothing_to_verify u ≡ false
      → (send_email_verification digest token new_id now user_id w).0 ≡ ok tt
      → let left =
          P.verification_token.delete_many
            (token_of user_id VerificationTokenType.email)
            w.tokens in
        let t = new_email_token new_id user_id (generate_email_token digest token) now u in
        (P.verification_token.count (λ b. b.id == new_id) left ≡ 0)
        × ((send_email_verification digest token new_id now user_id w).1 ≡ record w {
          tokens = P.verification_token.insert t left;
          effects = Effect.email_verification_mail (mail_target u) token ∷ w.effects;
        })
  unfolding send_email_verification send_link
  sent_link digest token new_id now user_id w u f due h = (ground arith, ground arith)

  -- The link `t` is found, and its user `u` has something to verify.
  live_link :
      (digest : String → String) (now : ℕ) (token : String) (w : World P) (t : VerificationToken)
      (u : User)
      → P.verification_token.find_first (link_of digest token) w.tokens ≡ some t
      → P.verification_token.find_unique t.id w.tokens ≡ some t
      → P.user.find_unique t.user_id w.users ≡ some u
      → token == "" ≡ false
      → nothing_to_verify u ≡ false
      → now ≤ t.expires_at
      → other_address (pending_of (some u)) t.identifier ≡ false
      → P.user.count
          (λ b. not (b.id == t.user_id) && same_contact (confirmed (pending_of (some u)) now u) b)
          w.users
        ≡ 0
      → verify_email_token digest now token w ≡ (
        ok true,
        record w {
          users =
              P.user.update_many
                (λ b. b.id == t.user_id)
                (confirmed (pending_of (some u)) now)
                w.users;
          tokens = P.verification_token.delete_many (λ b. b.id == t.id) w.tokens;
        },
      )
  unfolding verify_email_token load_link use_link confirm_email
  live_link digest now token w t u f there whose some_token due live sent free = ground arith

  -- A link with a fresh digest goes to the pending address, or to the active one if none is pending.
  -- Opened within the hour, where no other user has the contacts that come of it, it is accepted: the
  -- pending address becomes the active one, and the active address is verified.
  pub send_email_verification-verify :
      (digest : String → String) (token : String) (new_id now user_id : ℕ) (w : World P) (u : User)
      (now' : ℕ)
      → P.user.find_unique user_id w.users ≡ some u
      → nothing_to_verify u ≡ false
      → token == "" ≡ false
      → ((b : VerificationToken)
          → P.verification_token.find_unique b.id w.tokens ≡ some b
          → link_of digest token b ≡ false)
      → P.user.count
          (λ b. not (b.id == user_id) && same_contact (confirmed (pending_of (some u)) now' u) b)
          w.users
        ≡ 0
      → now' ≤ now + hour_in_ms
      → (send_email_verification digest token new_id now user_id w).0 ≡ ok tt
      → let w' = (send_email_verification digest token new_id now user_id w).1 in
        let q = verify_email_token digest now' token w' in
        ((p : String)
          → u.pending_email ≡ some p
          → w'.effects ≡ Effect.email_verification_mail p token ∷ w.effects)
        × (u.pending_email ≡ none
            → w'.effects ≡ Effect.email_verification_mail u.email token ∷ w.effects)
        × (q.0 ≡ ok true)
        × IsVerified now' u (P.user.find_unique user_id q.1.users)
  send_email_verification-verify digest token new_id now user_id w u now' f due some_token fresh
        unclaimed soon h =
      let left =
        P.verification_token.delete_many (token_of user_id VerificationTokenType.email) w.tokens in
      let t = new_email_token new_id user_id (generate_email_token digest token) now u in
      let (z, sent) = sent_link digest token new_id now user_id w u f due h in
      let w1 : World P = record w {
        tokens = P.verification_token.insert t left;
        effects = Effect.email_verification_mail (mail_target u) token ∷ w.effects;
      } in
      let free = unused_id P.verification_token new_id left z in
      let hit =
        find_first-only P.verification_token (link_of digest token) left t free
          (ground (arith, eq_refl (digest token)))
          (λ b there.
            fresh b
              (row-kept P.verification_token b.id (token_of user_id VerificationTokenType.email)
                w.tokens b there).0) in
      let run =
        live_link digest now' token w1 t u hit
          (P.verification_token.find_unique-insert_self t left free) f some_token due soon
          (target_not_other u) unclaimed in
      let row =
        find_unique-updated P.user user_id (confirmed (pending_of (some u)) now') w.users u
          (confirmed-id (pending_of (some u)) now') f in
      rw sent (
        λ p e. ground arith,
        λ e. ground arith,
        ground arith,
        confirmed-IsVerified now' u _ (ground arith),
      )
