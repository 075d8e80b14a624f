-- ===== src/Users/Channels.antt =====
-- A change of a profile and the channels of contact.
use gp_connect_server.Common.{
  ℕ, ◌≡◌, refl, sym, ◌∙◌, ◌≢◌, inl, inr, ◌⊎◌, Bool, true, false, none, subst, Option-cases,
  is_some_of_iff, some, String, arith, Bool-cases, nat_beq_iff, string_eq, ◌==◌, nat_eq,
}
use gp_connect_server.Schema.{
  User, VerificationToken, VerificationTokenType, verification_token_type_eq,
}
use gp_connect_server.Prisma.{Prisma, World, row-kept, unused_id}
use gp_connect_server.Handler.{ok, is_ok, Result-cases}
use gp_connect_server.Proofs.{Bcrypt, Otp}
use gp_connect_server.Verification.{token_of, get_otp_payload, verify_otp_token, new_otp_token}
use gp_connect_server.Verification.Otp.{verify_otp_token-ok, get_otp_payload-ok}
use gp_connect_server.Users.Service.{
  UpdateUserDto, LinkDraw, with_changes, same_number, taken_by_other, update_by_id,
}
use gp_connect_server.Users.Profile.{update_by_id-IsUpdated}

-- The row after a change of a profile, as far as the channels go.
pub record KeepsChannels (d : UpdateUserDto) (u u' : User) : Type 0 where
  pub same_address : u'.email ≡ u.email
  pub new_number :
      (p : String)
      → d.phone ≡ some p
      → u.phone ≢ some p
      → (u'.phone ≡ some p) × (u'.phone_verified_at ≡ none)
  pub new_address :
      (e : String) → d.email ≡ some e → u.email ≢ e → e ≢ "" → u'.pending_email ≡ some e

number_differs : (u : User) (p : String) → u.phone ≢ some p → same_number (some u) p ≡ false
number_differs u p n = elim (Bool-cases (same_number (some u) p)) [
  | inl y ↦ absurd (n ((is_some_of_iff u.phone p).0 y))
  | inr f ↦ f
]

text_differs : (a b : String) → a ≢ b → a == b ≡ false
text_differs a b n = elim (Bool-cases (a == b)) [
  | inl y ↦ absurd (n ((string_eq.beq_iff a b).0 y))
  | inr f ↦ f
]

-- Compared without case, no account has the address, or the own address of the user is a variant of
-- it.
abbrev pub Unclaimed : (P : Prisma) → (String → String → Bool) → ℕ → String → World P → Type 0
Unclaimed P insensitive id e w =
    ((u : User) × (P.user.find_unique id w.users ≡ some u) × (insensitive u.email e ≡ true))
    ⊎ ((k : ℕ) (b : User) → P.user.find_unique k w.users ≡ some b → insensitive b.email e ≡ false)

taken_by_other-Unclaimed :
    (P : Prisma) (insensitive : String → String → Bool) (id : ℕ) (e : String) (w : World P)
    → taken_by_other id (P.user.find_first (λ u. insensitive u.email e) w.users) ≡ false
    → Unclaimed P insensitive id e w
taken_by_other-Unclaimed P insensitive id e w free =
    elim (Option-cases (P.user.find_first (λ u. insensitive u.email e) w.users)) [
      | inl z ↦ inr (λ k b g. P.user.find_first-none (λ u. insensitive u.email e) w.users k b z g)
      | inr (u, f) ↦
          let (variant, there) = P.user.find_first-some (λ u. insensitive u.email e) w.users u f in
          let mine : u.id ≡ id = ground (arith, nat_beq_iff u.id id) in
          inl (u, subst (λ k. P.user.find_unique k w.users ≡ some u) mine there, variant)
    ]

-- After a purge and an insertion the inserted code is the only one of its user.
issued_code :
    (P : Prisma) (id : ℕ) (table : P.verification_token.Table) (new t : VerificationToken)
    → let left = P.verification_token.delete_many (token_of id VerificationTokenType.phone) table in
      P.verification_token.find_unique new.id left ≡ none
      → P.verification_token.find_unique t.id (P.verification_token.insert new left) ≡ some t
      → t.user_id ≡ id
      → t.type ≡ VerificationTokenType.phone
      → t ≡ new
issued_code P id table new t free f mine same =
    let of_user = token_of id VerificationTokenType.phone in
    let left = P.verification_token.delete_many of_user table in
    elim (Bool-cases (t.id == new.id)) [
      | inl y ↦
          let there = P.verification_token.find_unique-insert_self new left free in
          ground (arith, nat_beq_iff t.id new.id)
      | inr n ↦
          let ne : t.id ≢ new.id = ground (arith, nat_beq_iff t.id new.id) in
          let f' = sym (P.verification_token.find_unique-insert_ne t.id new left ne) ∙ f in
          let (_, other) = row-kept P.verification_token t.id of_user table t f' in
          absurd (ground (arith, nat_beq_iff t.user_id id))
    ]

module _ {P : Prisma} where
  -- A change of a profile that succeeds leaves the active address as it is. A new address waits as
  -- pending; compared without case, no account has it, or the user's own address is a variant of it.
  -- A new number is stored unverified, and no other account changes.
  pub update_by_id-KeepsChannels :
      (insensitive : String → String → Bool) (hash digest : String → String) (l : LinkDraw) (id : ℕ)
      (d : UpdateUserDto) (w : World P) {r : User}
      → (update_by_id insensitive hash digest l id d w).0 ≡ ok r
      → let w' = (update_by_id insensitive hash digest l id d w).1 in
        ((u u' : User) × (P.user.find_unique id w.users ≡ some u)
          × (P.user.find_unique id w'.users ≡ some u')
          × KeepsChannels d u u')
        × ((e : String)
            → d.email ≡ some e
            → ((u : User) → P.user.find_unique id w.users ≡ some u → u.email ≢ e)
            → Unclaimed P insensitive id e w)
        × ((j : ℕ) → j ≢ id → P.user.find_unique j w'.users ≡ P.user.find_unique j w.users)
  update_by_id-KeepsChannels insensitive hash digest l id d w h =
      let r = update_by_id-IsUpdated insensitive hash digest l id d w h in
      let resets = r.resets in
      let pending = r.pending in
      (
        (
          r.user,
          with_changes hash d r.changes r.user,
          r.found,
          r.stored,
          record {
            same_address = refl;
            new_number = λ p e n.
                let known = rw e at resets in
                let other = number_differs r.user p n in (ground arith, ground arith);
            new_address = λ a e n t.
                let other = text_differs r.user.email a n in
                let some_text = text_differs a "" t in
                elim (rw e at pending) [
                  | inl (y, _) ↦ absurd (ground arith)
                  | inr (_, goes, _) ↦ ground arith
                ];
          },
        ),
        λ a e n. elim (rw e at pending) [
          | inl (y, _) ↦
              let other = text_differs r.user.email a (n r.user r.found) in absurd (ground arith)
          | inr (_, _, free) ↦ taken_by_other-Unclaimed P insensitive id a w free
        ],
        r.others,
      )

  -- A number that replaces another one: a code that went to the old number is refused, whatever code
  -- the user enters.
  pub update_by_id-stale_code :
      (otp : Otp) (new_id id : ℕ) (w : World P) (u : User) (old p : String)
      (insensitive : String → String → Bool) (hash digest : String → String) (l : LinkDraw)
      (d : UpdateUserDto) (b : Bcrypt) (now : ℕ) (code : String) {r : User}
      → (get_otp_payload otp new_id id VerificationTokenType.phone w).0 ≡ ok u
      → u.phone ≡ some old
      → old == "" ≡ false
      → d.phone ≡ some p
      → old == p ≡ false
      → let w1 = (get_otp_payload otp new_id id VerificationTokenType.phone w).1 in
        (update_by_id insensitive hash digest l id d w1).0 ≡ ok r
        → let w2 = (update_by_id insensitive hash digest l id d w1).1 in
          is_ok (verify_otp_token b now id code VerificationTokenType.phone w2).0 ≡ false
  update_by_id-stale_code otp new_id id w u old p insensitive hash digest l d b now code sent had
        some_old new differs h =
      let w1 = (get_otp_payload otp new_id id VerificationTokenType.phone w).1 in
      let w2 = (update_by_id insensitive hash digest l id d w1).1 in
      elim (Result-cases (verify_otp_token b now id code VerificationTokenType.phone w2).0) [
        | inr (x, e) ↦ ground arith
        | inl (r, e) ↦
            let proved = (verify_otp_token-ok b now id code VerificationTokenType.phone w2 e).0 in
            let c = update_by_id-IsUpdated insensitive hash digest l id d w1 h in
            let (f, z, run) = get_otp_payload-ok otp new_id id VerificationTokenType.phone w sent in
            let t = proved.token in
            let of_user = token_of id VerificationTokenType.phone in
            let left = P.verification_token.delete_many of_user w.tokens in
            let there = rw run at (c.codes t.id t proved.found proved.same_type) in
            let only =
              issued_code P id w.tokens (new_otp_token new_id id otp VerificationTokenType.phone u)
                t (unused_id P.verification_token new_id left z) there proved.mine
                proved.same_type in
            let addressed = rw (c.stored, new) at proved.addressed in
            let sent_to : t.identifier ≡ some old = ground arith in
            elim (rw sent_to at addressed) [
              | inl bad ↦ absurd (ground arith)
              | inr (inl bad) ↦ absurd (ground (arith, string_eq.beq_iff old ""))
              | inr (inr bad) ↦ absurd (ground (arith, string_eq.beq_iff old p))
            ]
      ]
