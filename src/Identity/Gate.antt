-- ===== src/Identity/Gate.antt =====
-- Events of the provider and the acceptance of offers.
use gp_connect_server.Common.{ℕ, ◌≡◌, refl, inl, inr, false, none, some, String, arith, is_set}
use gp_connect_server.Schema.{User, UserIdentity, UserIdentityStatus}
use gp_connect_server.Prisma.{Prisma, World}
use gp_connect_server.Handler.{ok, is_ok, Result-cases, ◌>>=◌}
use gp_connect_server.Handler.Inversion.{read-ok}
use gp_connect_server.Offers.{
  LoadedOffer, load_pending_offer, acceptance_guards, commit_acceptance, accept,
  assert_carrier_kyc_verified,
}
use gp_connect_server.Offers.Guards.{
  load_pending_offer-world, acceptance_guards-world, acceptance_guards-MayAccept,
}
use gp_connect_server.Offers.Accept.{accept-err}
use gp_connect_server.Identity.Service.{IdentityWebhookEvent, handle_event}
use gp_connect_server.Identity.Events.{HasBadge, upsert_status-HasStatus, set_badge-HasBadge}

module _ {P : Prisma} where
  -- No offer is accepted for a carrier without the badge, and nothing is written.
  unverified-accept :
      (new_id offer_id user_id : ℕ) (w : World P) (l : LoadedOffer) (u : User)
      → (load_pending_offer offer_id w).0 ≡ ok l
      → P.user.find_unique l.conversation.carrier_id w.users ≡ some u
      → is_set u.id_card_verified_at ≡ false
      → (is_ok (accept new_id offer_id user_id w).0 ≡ false)
        × ((accept new_id offer_id user_id w).1 ≡ w)
  unfolding accept
  unverified-accept new_id offer_id user_id w l u loaded f bare =
      elim (Result-cases (accept new_id offer_id user_id w).0) [
        | inr (x, e) ↦ (ground arith, accept-err new_id offer_id user_id w e)
        | inl (r, e) ↦
            let guarded =
              λ (l : LoadedOffer). acceptance_guards user_id l >>= commit_acceptance new_id l in
            let (l', loaded', q, h) =
              read-ok (load_pending_offer offer_id) guarded w (load_pending_offer-world offer_id w)
                e in
            let (mission_id, passed, q', h') =
              read-ok (acceptance_guards user_id l') (commit_acceptance new_id l') w
                (acceptance_guards-world user_id l' w) h in
            let same : l' ≡ l = ground arith in
            let may = acceptance_guards-MayAccept user_id l w (rw same at passed) in
            let (u', f', is) = may.kyc in absurd (ground arith)
      ]

  -- A canceled session revokes the badge: afterwards no offer in a conversation of this carrier is
  -- accepted, by anyone, and the attempt writes nothing.
  pub handle_event-canceled-accept :
      (now carrier : ℕ) (session reason : String) (w : World P) (new_id offer_id user_id : ℕ)
      (l : LoadedOffer)
      → (handle_event now (IdentityWebhookEvent.canceled session (some carrier) reason) w).0 ≡ ok tt
      → let w' =
          (handle_event now (IdentityWebhookEvent.canceled session (some carrier) reason) w).1 in
        (load_pending_offer offer_id w').0 ≡ ok l
        → l.conversation.carrier_id ≡ carrier
        → (is_ok (accept new_id offer_id user_id w').0 ≡ false)
          × ((accept new_id offer_id user_id w').1 ≡ w')
  unfolding handle_event
  handle_event-canceled-accept now carrier session reason w new_id offer_id user_id l h loaded
        whose =
      let b = set_badge-HasBadge carrier UserIdentityStatus.canceled session none w h in
      unverified-accept new_id offer_id user_id _ l (record (b.user) { id_card_verified_at = none })
        loaded (rw whose b.now) refl

  -- A verified session opens the gate of the acceptance to the carrier, and records the session.
  pub handle_event-verified :
      (now carrier : ℕ) (session : String) (w : World P)
      → (handle_event now (IdentityWebhookEvent.verified session (some carrier)) w).0 ≡ ok tt
      → let w' = (handle_event now (IdentityWebhookEvent.verified session (some carrier)) w).1 in
        (assert_carrier_kyc_verified carrier w' ≡ (ok tt, w'))
        × HasBadge carrier UserIdentityStatus.verified session (some now) w w'
  unfolding handle_event assert_carrier_kyc_verified
  handle_event-verified now carrier session w h =
      let b = set_badge-HasBadge carrier UserIdentityStatus.verified session (some now) w h in
      let now_set = b.now in (ground arith, b)

  -- An event that asks for input again changes the status of the identity but not the badge: if the
  -- gate was open to the carrier, it stays open although the identity is not verified any more.
  pub handle_event-requires_input :
      (now carrier : ℕ) (session reason : String) (w : World P)
      → (handle_event now (IdentityWebhookEvent.requires_input session (some carrier) reason) w).0
        ≡ ok tt
      → (assert_carrier_kyc_verified carrier w).0 ≡ ok tt
      → let w' =
          (handle_event now
            (IdentityWebhookEvent.requires_input session (some carrier) reason)
            w).1 in
        ((assert_carrier_kyc_verified carrier w').0 ≡ ok tt)
        × ((i : UserIdentity) × (P.user_identity.find_unique carrier w'.identities ≡ some i)
            × (i.status ≡ UserIdentityStatus.requires_input))
  unfolding handle_event assert_carrier_kyc_verified
  handle_event-requires_input now carrier session reason w h open_ =
      let s =
        upsert_status-HasStatus carrier UserIdentityStatus.requires_input session (some reason) w
          h in
      let only = s.only_identities in (ground arith, (s.identity, s.stored, s.same_status))
