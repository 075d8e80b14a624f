-- ===== src/Examples/Removals.antt =====
-- Deletions of accounts.
use gp_connect_server.Common.{◌≡◌, refl, none, true, [], ◌∷◌}
use gp_connect_server.Schema.{User, UserIdentity, UserIdentityStatus}
use gp_connect_server.Prisma.{World}
use gp_connect_server.Prisma.InMemory.{in_memory}
use gp_connect_server.Handler.{Exception, ok, err}
use gp_connect_server.Identity.{IdentityVerifier, ParsedWebhook, redact_user_data, redact_sessions}
use gp_connect_server.Users.{delete_user, delete_row, is_referenced, cascade_user}
use gp_connect_server.Users.Removal.{IsHalfErased, delete_user-referenced}
use gp_connect_server.Users.Forgotten.{IsForgotten, delete_user-IsForgotten}
use gp_connect_server.Examples.Data.{shipper, carrier, negotiation}

-- A provider that answers, and whose events all have a wrong signature.
abbrev pub provider : IdentityVerifier
provider = record {
  create_session = λ id. "vs_new";
  parse_webhook = λ body signature. ParsedWebhook.invalid_signature;
  redact_session = λ id. true;
}

abbrev pub visitor : User
visitor = record shipper { id = 9; email = "v@x"; phone = none }

-- The documents of the carrier are with the provider.
abbrev pub identity : UserIdentity
identity = record {
  user_id = 2;
  provider_id = "vs_1";
  status = UserIdentityStatus.verified;
  reason = none;
}

abbrev pub visited : World in_memory
visited = record negotiation {
  users = shipper ∷ carrier ∷ visitor ∷ [];
  identities = identity ∷ [];
}

pub deletion-runs : (delete_user provider 9 visited).0 ≡ ok visitor
unfolding delete_user delete_row is_referenced cascade_user redact_user_data redact_sessions
deletion-runs = refl

delete_user-IsForgotten_example : IsForgotten 9 (delete_user provider 9 visited).1
delete_user-IsForgotten_example = delete_user-IsForgotten provider 9 visited deletion-runs

carrier-referenced : (is_referenced 2 visited).0 ≡ ok true
unfolding is_referenced
carrier-referenced = refl

delete_user-referenced_example :
    ((delete_user provider 2 visited).0 ≡ err Exception.foreign_key_violation)
    × IsHalfErased provider 2 visited (delete_user provider 2 visited).1
delete_user-referenced_example =
    delete_user-referenced provider 2 visited carrier refl carrier-referenced
