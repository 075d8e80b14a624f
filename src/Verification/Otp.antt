-- ===== src/Verification/Otp.antt =====
-- One-time codes: what a code that is accepted proves, once, and that a fresh one is accepted.
use gp_connect_server.Common.{
  ℕ, ◌+◌, ◌*◌, ◌<◌, ◌≡◌, refl, ◌⊎◌, inl, inr, Bool, true, false, Option, none, some, String, arith,
  Option-cases, Bool-cases, nat_beq_iff, string_eq, ◌==◌, nat_eq, List,
}
use gp_connect_server.Schema.{
  User, VerificationToken, VerificationTokenType, verification_token_type_eq,
  verification_token_type_beq_iff,
}
use gp_connect_server.Prisma.{
  Prisma, World, Effect, and_parts, find_first-deleted, find_first-replaced, unused_id,
}
use gp_connect_server.Handler.{Exception, Reason, ok, err, Result-cases}
use gp_connect_server.Proofs.{Bcrypt, Otp, minute_in_ms, generate_otp}
use gp_connect_server.Verification.Service.{
  token_of, channel, channel_of, live_token, new_otp_token, stale_channel, get_otp_payload,
  load_otp_token, verify_otp_token,
}
use text.Mathlib.TextPositions.{eq_refl}

-- The code was sent to the channel of today, or its row does not say where it was sent.
abbrev pub IsAddressed : Option String → Option String → Type 0
IsAddressed identifier current =
    (identifier ≡ none) ⊎ (identifier ≡ some "") ⊎ (identifier ≡ current)

stale_channel-IsAddressed :
    (identifier current : Option String)
    → stale_channel identifier current ≡ false
    → IsAddressed identifier current
stale_channel-IsAddressed none current h = inl refl
stale_channel-IsAddressed (some i) none h =
    let e = string_eq.beq_iff i "" in inr (inl (ground arith))
stale_channel-IsAddressed (some i) (some c) h =
    let e = string_eq.beq_iff i "" in
    let e' = string_eq.beq_iff c i in
    elim (Bool-cases (i == "")) [
      | inl y ↦ inr (inl (ground arith))
      | inr n ↦ inr (inr (ground arith))
    ]

stale_channel_self : (c : Option String) → stale_channel c c ≡ false
stale_channel_self none = refl
stale_channel_self (some c) = ground (arith, eq_refl c)

-- What a code that is accepted proves.
pub record IsProved (P : Prisma) (b : Bcrypt) (now user_id : ℕ) (code : String)
    (type : VerificationTokenType) (w : World P) : Type 0 where
  pub token : VerificationToken
  pub found : P.verification_token.find_unique token.id w.tokens ≡ some token
  pub mine : token.user_id ≡ user_id
  pub same_type : token.type ≡ type
  pub unused : token.used_at ≡ none
  pub live : now < token.expires_at
  pub matches : b.compare code token.token_hash ≡ true
  pub addressed :
      IsAddressed token.identifier (channel_of type (P.user.find_unique user_id w.users))

live_token-token_of :
    (now user_id : ℕ) (type : VerificationTokenType) (t : VerificationToken)
    → live_token now user_id type t ≡ true
    → token_of user_id type t ≡ true
live_token-token_of now user_id type t h = (and_parts (token_of user_id type t) _ h).0

module _ {P : Prisma} where
  load_otp_token-world :
      (now user_id : ℕ) (type : VerificationTokenType) (w : World P)
      → (load_otp_token now user_id type w).1 ≡ w
  unfolding load_otp_token
  load_otp_token-world now user_id type w = ground arith

  load_otp_token-ok :
      (now user_id : ℕ) (type : VerificationTokenType) (w : World P) {t : VerificationToken}
      → (load_otp_token now user_id type w).0 ≡ ok t
      → (P.verification_token.find_first (live_token now user_id type) w.tokens ≡ some t)
        × (stale_channel t.identifier (channel_of type (P.user.find_unique t.user_id w.users))
            ≡ false)
  unfolding load_otp_token
  load_otp_token-ok now user_id type w {t} h =
      elim (Option-cases (P.verification_token.find_first (live_token now user_id type) w.tokens)) [
        | inl z ↦ absurd (ground arith)
        | inr (x, e) ↦ (ground arith, ground arith)
      ]

  -- A code that is accepted proves the control of the channel, and no code of the user and the
  -- type is left.
  pub verify_otp_token-ok :
      (b : Bcrypt) (now user_id : ℕ) (code : String) (type : VerificationTokenType) (w : World P)
      {r : Bool}
      → (verify_otp_token b now user_id code type w).0 ≡ ok r
      → IsProved P b now user_id code type w
        × (verify_otp_token b now user_id code type w ≡ (
          ok true,
          record w { tokens = P.verification_token.delete_many (token_of user_id type) w.tokens },
        ))
  unfolding verify_otp_token
  verify_otp_token-ok b now user_id code type w h =
      elim (Result-cases (load_otp_token now user_id type w).0) [
        | inr (x, e) ↦ absurd (ground arith)
        | inl (t, e) ↦
            let kept = load_otp_token-world now user_id type w in
            let (f, addressed) = load_otp_token-ok now user_id type w e in
            let (hit, there) = P.verification_token.find_first-some _ w.tokens t f in
            let (of, alive) = and_parts (token_of user_id type t) _ hit in
            let (mine, same) = and_parts (t.user_id == user_id) (t.type == type) of in
            let mine' = (nat_beq_iff t.user_id user_id).0 mine in
            elim (Bool-cases (b.compare code t.token_hash)) [
              | inr n ↦ absurd (ground arith)
              | inl y ↦ (
                record {
                  token = t;
                  found = there;
                  mine = mine';
                  same_type = (verification_token_type_beq_iff t.type type).0 same;
                  unused = ground arith;
                  live = ground arith;
                  matches = y;
                  addressed = stale_channel-IsAddressed t.identifier _ (rw mine' at addressed);
                },
                ground arith,
              )
            ]
      ]

  no_live_token :
      (b : Bcrypt) (now user_id : ℕ) (code : String) (type : VerificationTokenType) (w : World P)
      → P.verification_token.find_first (live_token now user_id type) w.tokens ≡ none
      → verify_otp_token b now user_id code type w
        ≡ (err (Exception.unauthorized Reason.token_expired), w)
  unfolding verify_otp_token load_otp_token
  no_live_token b now user_id code type w z = ground arith

  -- A code is used once: after one was accepted, no code of the same user and type is, at any time;
  -- the request is refused and nothing is written.
  pub verify_otp_token-once :
      (b : Bcrypt) (now user_id : ℕ) (code : String) (type : VerificationTokenType) (w : World P)
      (now' : ℕ) (code' : String) {r : Bool}
      → (verify_otp_token b now user_id code type w).0 ≡ ok r
      → let w' = (verify_otp_token b now user_id code type w).1 in
        verify_otp_token b now' user_id code' type w'
        ≡ (err (Exception.unauthorized Reason.token_expired), w')
  verify_otp_token-once b now user_id code type w now' code' h =
      let (_, run) = verify_otp_token-ok b now user_id code type w h in
      let gone =
        find_first-deleted P.verification_token (live_token now' user_id type)
          (token_of user_id type) w.tokens (live_token-token_of now' user_id type) in
      rw run (no_live_token b now' user_id code' type _ gone)

  -- A code that is accepted was live and unused and matches its digest; its row names the channel that
  -- the user has now, or no channel at all. All codes of the user and the type are purged; no code of
  -- them is accepted after it, at any time, and the attempt writes nothing.
  pub verify_otp_token-spends :
      (b : Bcrypt) (now user_id : ℕ) (code : String) (type : VerificationTokenType) (w : World P)
      {r : Bool}
      → (verify_otp_token b now user_id code type w).0 ≡ ok r
      → let w' = (verify_otp_token b now user_id code type w).1 in
        IsProved P b now user_id code type w
        × (w' ≡ record w {
          tokens = P.verification_token.delete_many (token_of user_id type) w.tokens;
        })
        × ((now' : ℕ) (code' : String)
            → verify_otp_token b now' user_id code' type w'
              ≡ (err (Exception.unauthorized Reason.token_expired), w'))
  verify_otp_token-spends b now user_id code type w h =
      let (proved, run) = verify_otp_token-ok b now user_id code type w h in
      (
        proved,
        rw run refl,
        λ now' code'. verify_otp_token-once b now user_id code type w now' code' h,
      )

  pub get_otp_payload-ok :
      (otp : Otp) (new_id user_id : ℕ) (type : VerificationTokenType) (w : World P) {u : User}
      → (get_otp_payload otp new_id user_id type w).0 ≡ ok u
      → (P.user.find_unique user_id w.users ≡ some u)
        × (P.verification_token.count
              (λ t. t.id == new_id)
              (P.verification_token.delete_many (token_of user_id type) w.tokens)
            ≡ 0)
        × (get_otp_payload otp new_id user_id type w ≡ (
          ok u,
          record w {
            tokens =
                P.verification_token.insert
                  (new_otp_token new_id user_id otp type u)
                  (P.verification_token.delete_many (token_of user_id type) w.tokens);
          },
        ))
  unfolding get_otp_payload
  get_otp_payload-ok otp new_id user_id type w h =
      elim (Option-cases (P.user.find_unique user_id w.users)) [
        | inl z ↦ absurd (ground arith)
        | inr (u, e) ↦ (ground arith, ground arith, ground arith)
      ]

  found_token-verify :
      (b : Bcrypt) (now user_id : ℕ) (code : String) (type : VerificationTokenType) (w : World P)
      (t : VerificationToken)
      → P.verification_token.find_first (live_token now user_id type) w.tokens ≡ some t
      → t.user_id ≡ user_id
      → stale_channel t.identifier (channel_of type (P.user.find_unique user_id w.users)) ≡ false
      → b.compare code t.token_hash ≡ true
      → verify_otp_token b now user_id code type w ≡ (
        ok true,
        record w { tokens = P.verification_token.delete_many (token_of user_id type) w.tokens },
      )
  unfolding verify_otp_token load_otp_token
  found_token-verify b now user_id code type w t f mine fresh match_ = ground arith

  -- A code that was issued is accepted in the 15 minutes after it, if the user and the codes are
  -- still what the request left, whatever was sent.
  pub get_otp_payload-verify :
      (b : Bcrypt) (code salt : String) (now new_id user_id : ℕ) (type : VerificationTokenType)
      (w : World P) (es : List Effect) (now' : ℕ) {u : User}
      → (get_otp_payload (generate_otp b code salt now) new_id user_id type w).0 ≡ ok u
      → now' < now + 15 * minute_in_ms
      → let w' = record (get_otp_payload (generate_otp b code salt now) new_id user_id type w).1 {
        effects = es;
      } in
        verify_otp_token b now' user_id code type w' ≡ (
          ok true,
          record w' { tokens = P.verification_token.delete_many (token_of user_id type) w'.tokens },
        )
  unfolding generate_otp
  get_otp_payload-verify b code salt now new_id user_id type w es now' {u} h soon =
      let otp = generate_otp b code salt now in
      let t = new_otp_token new_id user_id otp type u in
      let (f, z, run) = get_otp_payload-ok otp new_id user_id type w h in
      let free = unused_id P.verification_token new_id _ z in
      let hit =
        find_first-replaced P.verification_token (live_token now' user_id type)
          (token_of user_id type) w.tokens t (live_token-token_of now' user_id type) free
          (ground arith) in
      let sent = stale_channel_self (channel type u) in
      let addressed : stale_channel (channel type u)
            (channel_of type (P.user.find_unique user_id w.users))
          ≡ false =
        rw f sent in
      rw run (
        found_token-verify b now' user_id code type _ t hit refl addressed
          (b.compare-hash salt code))
