-- ===== src/Transactions/Service.antt =====
-- The operations of `TransactionsService` (src/transactions/transactions.service.ts).
use gp_connect_server.Common.{ℕ, Option, ◌==◌, nat_eq, not, ◌&&◌, ◌||◌, is_some_of}
use gp_connect_server.Schema.{
  Transaction, TransactionMethod, TransactionStatus, transaction_status_eq,
}
use gp_connect_server.Prisma.{Prisma}
use gp_connect_server.Handler.{
  Handler, Exception, Reason, ◌>>=◌, ◌>>◌, or_throw, throw_if, find_unique, find_first, update,
  missions, transactions,
}
use gp_connect_server.Missions.{given}

abbrev pub with_method : Option TransactionMethod → Transaction → Transaction
with_method method t = record t { method = given method t.method }

module _ {P : Prisma} where
  unfoldable pub find_transaction_by_mission : ℕ → ℕ → Handler P Transaction
  find_transaction_by_mission mission_id user_id = do
    found ←
        find_first missions
          (λ m. m.id == mission_id && (m.shipper_id == user_id || is_some_of m.carrier_id user_id))
    or_throw (Exception.forbidden Reason.unspecified) found
    paid ← find_first transactions (λ t. t.mission_id == mission_id)
    or_throw (Exception.not_found Reason.no_transaction) paid

  -- The mission of the transaction is there, by the foreign key.
  unfoldable pub update_transaction : ℕ → ℕ → Option TransactionMethod → Handler P Transaction
  update_transaction id user_id method = do
    found ← find_unique transactions id
    t ← or_throw (Exception.not_found Reason.unspecified) found
    paid_for ← find_unique missions t.mission_id
    m ← or_throw Exception.record_not_found paid_for
    throw_if (not (m.shipper_id == user_id)) (Exception.forbidden Reason.payment_shipper_only)
    throw_if (not (t.status == TransactionStatus.pending))
        (Exception.bad_request Reason.transaction_not_pending)
    update transactions id (with_method method)
