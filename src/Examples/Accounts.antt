-- ===== src/Examples/Accounts.antt =====
-- Accounts, codes and links.
use gp_connect_server.Common.{◌≡◌, refl, some, none, true, false, [], ◌∷◌, String, arith, ℕ, ◌≢◌}
use gp_connect_server.Schema.{User, VerificationToken, VerificationTokenType}
use gp_connect_server.Prisma.{World, Effect}
use gp_connect_server.Prisma.InMemory.{in_memory}
use gp_connect_server.Handler.{Exception, Reason, ok, err, is_ok}
use gp_connect_server.Proofs.{Otp}
use gp_connect_server.Verification.{
  get_otp_payload, verify_otp_token, load_otp_token, verify_email_token, load_link, use_link,
  confirm_email, send_email_verification, send_link, token_of,
}
use gp_connect_server.Verification.Otp.{IsProved, verify_otp_token-spends}
use gp_connect_server.Verification.Email.{IsVerified}
use gp_connect_server.Verification.Links.{verify_email_token-again, send_email_verification-verify}
use gp_connect_server.Users.{
  UpdateUserDto, LinkDraw, update_by_id, prepare_contact_changes, pending_change, find_by_email,
  store_changes, confirm_change,
}
use gp_connect_server.Users.Channels.{
  KeepsChannels, Unclaimed, update_by_id-KeepsChannels, update_by_id-stale_code,
}
use gp_connect_server.Examples.Data.{shipper, carrier, negotiation, plain_bcrypt}
use text.Mathlib.Text.{◌==◌ as str_eq}

-- A code by SMS for the shipper, and a hash that hides nothing.
abbrev pub sms_code : Otp
sms_code = record { plain = "12"; hash = "12"; expires_at = 900 }

abbrev pub sms_token : VerificationToken
sms_token = record {
  id = 61;
  user_id = 1;
  type = VerificationTokenType.phone;
  token_hash = "12";
  identifier = some "+331";
  expires_at = 900;
  used_at = none;
}

abbrev coded : World in_memory
coded = record negotiation { tokens = sms_token ∷ [] }

otp-runs : (verify_otp_token plain_bcrypt 100 1 "12" VerificationTokenType.phone coded).0 ≡ ok true
unfolding verify_otp_token load_otp_token
otp-runs = refl

verify_otp_token-spends_example :
    let w' = (verify_otp_token plain_bcrypt 100 1 "12" VerificationTokenType.phone coded).1 in
    IsProved in_memory plain_bcrypt 100 1 "12" VerificationTokenType.phone coded
    × (w' ≡ record coded {
      tokens =
          in_memory.verification_token.delete_many
            (token_of 1 VerificationTokenType.phone)
            coded.tokens;
    })
    × ((now' : ℕ) (code' : String)
        → verify_otp_token plain_bcrypt now' 1 code' VerificationTokenType.phone w'
          ≡ (err (Exception.unauthorized Reason.token_expired), w'))
verify_otp_token-spends_example =
    verify_otp_token-spends plain_bcrypt 100 1 "12" VerificationTokenType.phone coded otp-runs

-- The shipper wants to change to the address `n@x`; the digest hides nothing.
abbrev mover : User
mover = record shipper { pending_email = some "n@x" }

abbrev moving_in : World in_memory
moving_in = record negotiation { users = mover ∷ carrier ∷ [] }

abbrev plain_digest : String → String
plain_digest s = s

link-sent : (send_email_verification plain_digest "tok" 62 100 1 moving_in).0 ≡ ok tt
unfolding send_email_verification send_link
link-sent = refl

send_email_verification-verify_example :
    let w' = (send_email_verification plain_digest "tok" 62 100 1 moving_in).1 in
    let q = verify_email_token plain_digest 200 "tok" w' in
    ((p : String)
      → mover.pending_email ≡ some p
      → w'.effects ≡ Effect.email_verification_mail p "tok" ∷ moving_in.effects)
    × (mover.pending_email ≡ none
        → w'.effects ≡ Effect.email_verification_mail mover.email "tok" ∷ moving_in.effects)
    × (q.0 ≡ ok true)
    × IsVerified 200 mover (in_memory.user.find_unique 1 q.1.users)
send_email_verification-verify_example =
    send_email_verification-verify plain_digest "tok" 62 100 1 moving_in mover 200 refl refl refl
      (λ b f. absurd (ground arith)) refl (omega arith) link-sent

abbrev link : VerificationToken
link = record {
  id = 62;
  user_id = 1;
  type = VerificationTokenType.email;
  token_hash = "tok";
  identifier = some "n@x";
  expires_at = 900;
  used_at = none;
}

abbrev linked : World in_memory
linked = record moving_in { tokens = link ∷ [] }

link-runs : (verify_email_token plain_digest 200 "tok" linked).0 ≡ ok true
unfolding verify_email_token load_link use_link confirm_email
link-runs = refl

verify_email_token-again_example :
    let w' = (verify_email_token plain_digest 200 "tok" linked).1 in
    verify_email_token plain_digest 201 "tok" w'
    ≡ (err (Exception.bad_request Reason.invalid_token), w')
verify_email_token-again_example =
    verify_email_token-again plain_digest 200 "tok" linked link mover 201
      (λ a b fa fb wa wb. ground arith) refl refl refl link-runs

-- The shipper changes the phone number and the address.
abbrev new_contacts : UpdateUserDto
new_contacts = record {
  email = some "n@x";
  phone = some "+332";
  password = none;
  first_name = none;
  last_name = none;
  role = none;
  email_verified_at = none;
  phone_verified_at = none;
  id_card_verified_at = none;
}

abbrev pub draw : LinkDraw
draw = record { token = "tok"; new_id = 62; now = 100 }

abbrev changed : User
changed = record shipper {
  phone = some "+332";
  phone_verified_at = none;
  pending_email = some "n@x";
}

update-runs :
    (update_by_id str_eq plain_digest plain_digest draw 1 new_contacts negotiation).0 ≡ ok changed
unfolding update_by_id prepare_contact_changes pending_change find_by_email store_changes
    confirm_change
update-runs = refl

update_by_id-KeepsChannels_example :
    let w' = (update_by_id str_eq plain_digest plain_digest draw 1 new_contacts negotiation).1 in
    ((u u' : User) × (in_memory.user.find_unique 1 negotiation.users ≡ some u)
      × (in_memory.user.find_unique 1 w'.users ≡ some u')
      × KeepsChannels new_contacts u u')
    × ((e : String)
        → new_contacts.email ≡ some e
        → ((u : User) → in_memory.user.find_unique 1 negotiation.users ≡ some u → u.email ≢ e)
        → Unclaimed in_memory str_eq 1 e negotiation)
    × ((j : ℕ)
        → j ≢ 1
        → in_memory.user.find_unique j w'.users ≡ in_memory.user.find_unique j negotiation.users)
update_by_id-KeepsChannels_example =
    update_by_id-KeepsChannels str_eq plain_digest plain_digest draw 1 new_contacts negotiation
      update-runs

code-sent : (get_otp_payload sms_code 61 1 VerificationTokenType.phone negotiation).0 ≡ ok shipper
unfolding get_otp_payload
code-sent = refl

changed-runs :
    (update_by_id str_eq plain_digest plain_digest draw 1 new_contacts
      (get_otp_payload sms_code 61 1 VerificationTokenType.phone negotiation).1).0
    ≡ ok changed
unfolding update_by_id prepare_contact_changes pending_change find_by_email store_changes
    confirm_change get_otp_payload
changed-runs = refl

update_by_id-stale_code_example :
    let w1 = (get_otp_payload sms_code 61 1 VerificationTokenType.phone negotiation).1 in
    let w2 = (update_by_id str_eq plain_digest plain_digest draw 1 new_contacts w1).1 in
    is_ok (verify_otp_token plain_bcrypt 100 1 "12" VerificationTokenType.phone w2).0 ≡ false
update_by_id-stale_code_example =
    update_by_id-stale_code sms_code 61 1 negotiation shipper "+331" "+332" str_eq plain_digest
      plain_digest draw new_contacts plain_bcrypt 100 "12" code-sent refl refl refl refl
      changed-runs
