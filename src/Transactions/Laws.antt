-- ===== src/Transactions/Laws.antt =====
-- Who may change how a mission is paid.
use gp_connect_server.Common.{
  ℕ, ◌≡◌, refl, ◌≢◌, inl, inr, Option, Option-cases, some, arith, nat_eq, nat_beq_iff,
}
use gp_connect_server.Schema.{
  Transaction, TransactionMethod, TransactionStatus, transaction_status_eq,
  transaction_status_beq_iff, Mission,
}
use gp_connect_server.Prisma.{Prisma, World, find_unique-updated, find_unique-updated_ne}
use gp_connect_server.Handler.{ok}
use gp_connect_server.Transactions.Service.{with_method, update_transaction}

module _ {P : Prisma} where
  -- What a change of the payment method did.
  pub record IsRepaid (id user_id : ℕ) (method : Option TransactionMethod) (w w' : World P)
      : Type 0 where
    pub transaction : Transaction
    pub mission : Mission
    pub found : P.transaction.find_unique id w.transactions ≡ some transaction
    pub pays_for : P.mission.find_unique transaction.mission_id w.missions ≡ some mission
    pub shipper : mission.shipper_id ≡ user_id
    pub was_pending : transaction.status ≡ TransactionStatus.pending
    pub stored :
        P.transaction.find_unique id w'.transactions ≡ some (with_method method transaction)
    pub others :
        (j : ℕ)
        → j ≢ id
        → P.transaction.find_unique j w'.transactions ≡ P.transaction.find_unique j w.transactions
    pub nothing_else : w' ≡ record w { transactions = w'.transactions }

  -- A change of the payment method that succeeds is made by the shipper of the mission that the
  -- payment is for, while it is pending; amount, status and mission of the payment stay, and so does
  -- everything else.
  pub update_transaction-ok :
      (id user_id : ℕ) (method : Option TransactionMethod) (w : World P) {r : Transaction}
      → (update_transaction id user_id method w).0 ≡ ok r
      → IsRepaid id user_id method w (update_transaction id user_id method w).1
  unfolding update_transaction
  update_transaction-ok id user_id method w h =
      elim (Option-cases (P.transaction.find_unique id w.transactions)) [
        | inl z ↦ absurd (ground arith)
        | inr (t, f) ↦ elim (Option-cases (P.mission.find_unique t.mission_id w.missions)) [
          | inl z ↦ absurd (ground arith)
          | inr (m, g) ↦
              let i = nat_beq_iff m.shipper_id user_id in
              let j = transaction_status_beq_iff t.status TransactionStatus.pending in
              record {
                transaction = t;
                mission = m;
                found = f;
                pays_for = g;
                shipper = ground arith;
                was_pending = ground arith;
                stored = ground (
                  arith,
                  find_unique-updated P.transaction id (with_method method) w.transactions t
                      (λ b. refl) f,
                );
                others = λ k ne. ground (
                  arith,
                  find_unique-updated_ne P.transaction k id (with_method method) w.transactions
                      (λ b. refl) ne,
                );
                nothing_else = ground arith;
              }
        ]
      ]
