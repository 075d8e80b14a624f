-- ===== src/Prisma/InMemory.antt =====
-- The database in memory: every delegate over a list of rows.
use gp_connect_server.Common.{ℕ, Bool, ◌&&◌, true, ◌≡◌, ◌↔◌, arith, nat_beq, nat_eq, Eq}
use gp_connect_server.Prisma.Client.{Prisma, mission_package_key, user_block_key}
use gp_connect_server.Prisma.Memory.{memory}

abbrev pub pair_beq : ℕ × ℕ → ℕ × ℕ → Bool
pair_beq (a, b) (c, d) = nat_beq a c && nat_beq b d

pub pair_beq_iff : (p q : ℕ × ℕ) → (pair_beq p q ≡ true) ↔ (p ≡ q)
pair_beq_iff (a, b) (c, d) = (λ h. ground arith, λ h. ground arith)

instance abbrev pub pair_eq : Eq (ℕ × ℕ)
pair_eq = record { beq = pair_beq; beq_iff = pair_beq_iff }

abbrev pub in_memory : Prisma
in_memory = record {
  user = memory (λ r. r.id);
  mission = memory (λ r. r.id);
  mission_package = memory mission_package_key;
  mission_proof = memory (λ r. r.id);
  mission_dispute = memory (λ r. r.id);
  advertisement = memory (λ r. r.id);
  transaction = memory (λ r. r.id);
  conversation = memory (λ r. r.id);
  message = memory (λ r. r.id);
  message_offer = memory (λ r. r.id);
  message_appointment = memory (λ r. r.id);
  package_ = memory (λ r. r.id);
  mission_rating = memory (λ r. r.id);
  report = memory (λ r. r.id);
  user_block = memory user_block_key;
  verification_token = memory (λ r. r.id);
  user_identity = memory (λ r. r.user_id);
  user_provider = memory (λ r. r.id);
}
