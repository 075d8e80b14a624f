-- ===== src/Users/Service.antt =====
-- The operations of `UsersService` (src/users/users.service.ts) on accounts. The hash of passwords
-- and the comparison `mode: 'insensitive'` of the database are parameters.
use gp_connect_server.Common.{
  ℕ, Bool, false, not, ◌&&◌, ◌||◌, Option, none, some, String, ◌==◌, nat_eq, string_eq, is_set,
  is_some_of, truthy, if◌then◌else◌,
}
use gp_connect_server.Schema.{User, Role}
use gp_connect_server.Prisma.{Prisma}
use gp_connect_server.Handler.{
  Handler, Exception, Reason, ◌>>=◌, ◌>>◌, pure, throw, throw_if, when, ok, find_unique, find_first,
  count, create, update_many, update_unique, delete, delete_many, catch_unique, users, missions,
  proofs, disputes, advertisements, conversations, messages, packages, ratings, reports, blocks,
  tokens, identities, providers,
}
use gp_connect_server.Identity.{IdentityVerifier, redact_user_data}
use gp_connect_server.Verification.{same_contact, send_email_verification}

-- `UpdateUserDto`: a field that the body leaves out is none.
pub record UpdateUserDto : Type 0 where
  pub email : Option String
  pub phone : Option String
  pub password : Option String
  pub first_name : Option String
  pub last_name : Option String
  pub role : Option Role
  pub email_verified_at : Option ℕ
  pub phone_verified_at : Option ℕ
  pub id_card_verified_at : Option ℕ

-- A field of `data`, where `undefined` leaves the column as it is.
abbrev pub given : {A : Type 0} → Option A → A → A
given none old = old
given (some a) old = a

abbrev pub given_column : {A : Type 0} → Option A → Option A → Option A
given_column none old = old
given_column (some a) old = some a

-- `data.password &&= await this.hashPassword(data.password)`
abbrev pub hash_password : (String → String) → Option String → Option String
hash_password hash none = none
hash_password hash (some p) = some (if p == "" then p else hash p)

-- What `prepareContactChanges` returns.
pub record ContactChanges : Type 0 where
  pub pending_email : Option String
  pub resets_phone : Bool

-- `...rest`, `...resets` and the pending address.
abbrev pub with_changes : (String → String) → UpdateUserDto → ContactChanges → User → User
with_changes hash d c u = record u {
  phone = given_column d.phone u.phone;
  password = given_column (hash_password hash d.password) u.password;
  first_name = given d.first_name u.first_name;
  last_name = given d.last_name u.last_name;
  role = given d.role u.role;
  email_verified_at = given_column d.email_verified_at u.email_verified_at;
  phone_verified_at =
      if c.resets_phone then none else given_column d.phone_verified_at u.phone_verified_at;
  id_card_verified_at = given_column d.id_card_verified_at u.id_card_verified_at;
  pending_email = if truthy c.pending_email then c.pending_email else u.pending_email;
}

-- `email === current?.email`, and the same for the phone.
abbrev pub same_email : Option User → String → Bool
same_email none e = false
same_email (some u) e = u.email == e

abbrev pub same_number : Option User → String → Bool
same_number none p = false
same_number (some u) p = is_some_of u.phone p

abbrev pub resets_phone_of : Option String → Option User → Bool
resets_phone_of none current = false
resets_phone_of (some p) current = not (same_number current p)

-- `taken && taken.id !== id`
abbrev pub taken_by_other : ℕ → Option User → Bool
taken_by_other id none = false
taken_by_other id (some u) = not (u.id == id)

-- What a link draws: its token, the id of its row and the time.
pub record LinkDraw : Type 0 where
  pub token : String
  pub new_id : ℕ
  pub now : ℕ

module _ {P : Prisma} where
  unfoldable pub create_user : (String → String) → User → Handler P User
  create_user hash u =
      catch_unique
        (create users (λ b. b.id == u.id || same_contact u b)
          (record u { password = hash_password hash u.password }))
        (throw (Exception.conflict Reason.contact_in_use))

  unfoldable pub find_by_email : (String → String → Bool) → String → Handler P (Option User)
  find_by_email insensitive email = find_first users (λ u. insensitive u.email email)

  unfoldable pub find_by_identifier : (String → String → Bool) → String → Handler P (Option User)
  find_by_identifier insensitive identifier =
      find_first users (λ u. insensitive u.email identifier || is_some_of u.phone identifier)

  unfoldable pub pending_change :
      (String → String → Bool) → ℕ → Option String → Option User → Handler P (Option String)
  unfolding find_by_email
  pending_change insensitive id none current = pure none
  pending_change insensitive id (some e) current = if same_email current e then pure none else (do
    taken ← find_by_email insensitive e
    throw_if (taken_by_other id taken) (Exception.conflict Reason.email_in_use)
    pure (some e))

  -- Without an email and a phone the row is not read, which makes no difference to the result.
  unfoldable pub prepare_contact_changes :
      (String → String → Bool) → ℕ → Option String → Option String → Handler P ContactChanges
  prepare_contact_changes insensitive id email phone =
      if not (is_set email) && not (is_set phone)
      then pure (record { pending_email = none; resets_phone = false })
      else (do
        current ← find_unique users id
        pending ← pending_change insensitive id email current
        pure (record { pending_email = pending; resets_phone = resets_phone_of phone current }))

  -- `void promise.catch(...)`: what it throws is logged. It runs after the reply.
  abbrev pub background : Handler P (Unit {0}) → Handler P (Unit {0})
  background m w = (ok tt, (m w).1)

  unfoldable pub store_changes :
      (String → String) → ℕ → UpdateUserDto → ContactChanges → Handler P User
  store_changes hash id d c =
      catch_unique (update_unique users same_contact id (with_changes hash d c))
        (throw (Exception.conflict Reason.contact_in_use))

  unfoldable pub confirm_change :
      (String → String) → LinkDraw → ℕ → ContactChanges → Handler P (Unit {0})
  confirm_change digest l id c =
      when (truthy c.pending_email)
        (background (send_email_verification digest l.token l.new_id l.now id))

  unfoldable pub update_by_id :
      (String → String → Bool)
      → (String → String)
      → (String → String)
      → LinkDraw
      → ℕ
      → UpdateUserDto
      → Handler P User
  update_by_id insensitive hash digest l id d = do
    c ← prepare_contact_changes insensitive id d.email d.phone
    updated ← store_changes hash id d c
    confirm_change digest l id c
    pure updated

  -- The rows that refer to a user through a required relation without `onDelete`, which restrict
  -- its deletion.
  unfoldable pub is_referenced : ℕ → Handler P Bool
  is_referenced id = do
    owned ← count packages (λ p. p.owner_id == id)
    shipped ← count missions (λ m. m.shipper_id == id)
    opened ← count disputes (λ d. d.opened_by_id == id)
    published ← count advertisements (λ a. a.author_id == id)
    talks ← count conversations (λ c. c.shipper_id == id || c.carrier_id == id)
    written_ ← count messages (λ m. m.author_id == id)
    rated ← count ratings (λ r. r.rater_id == id || r.rated_id == id)
    reported ← count reports (λ r. r.reporter_id == id)
    pure (
        not (
          owned == 0
          && (shipped == 0
              && (opened == 0
                  && (published == 0
                      && (talks == 0 && (written_ == 0 && (rated == 0 && reported == 0))))))))

  -- The rows that go with a user (`onDelete: Cascade`), and the columns that are set to null.
  unfoldable pub cascade_user : ℕ → Handler P (Unit {0})
  cascade_user id = do
    delete_many tokens (λ t. t.user_id == id)
    delete_many identities (λ i. i.user_id == id)
    delete_many providers (λ p. p.user_id == id)
    delete_many blocks (λ b. b.blocker_id == id || b.blocked_id == id)
    update_many missions (λ m. is_some_of m.carrier_id id) (λ m. record m { carrier_id = none })
    update_many disputes (λ d. is_some_of d.resolved_by_id id)
        (λ d. record d { resolved_by_id = none })
    update_many proofs (λ p. is_some_of p.created_by_id id) (λ p. record p { created_by_id = none })
    update_many proofs (λ p. is_some_of p.verified_by_id id)
        (λ p. record p { verified_by_id = none })
    update_many reports (λ r. is_some_of r.reviewed_by_id id)
        (λ r. record r { reviewed_by_id = none })
    pure tt

  unfoldable pub delete_row : ℕ → Handler P User
  delete_row id = do
    referenced ← is_referenced id
    throw_if referenced Exception.foreign_key_violation
    u ← delete users id
    cascade_user id
    pure u

  unfoldable pub delete_user : IdentityVerifier → ℕ → Handler P User
  delete_user v id = do
    user ← find_unique users id
    when (is_set user) (redact_user_data v id)
    delete_row id
