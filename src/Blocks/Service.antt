-- ===== src/Blocks/Service.antt =====
-- The operations of `BlocksService` (src/blocks/blocks.service.ts) that change or test blocks.
use gp_connect_server.Common.{ℕ, Bool, Option, some, ◌==◌, nat_eq, not, ◌&&◌, ◌||◌, ltb, is_set}
use gp_connect_server.Schema.{UserBlock}
use gp_connect_server.Prisma.{Prisma}
use gp_connect_server.Handler.{
  Handler, Exception, Reason, ◌>>=◌, ◌>>◌, pure, throw_if, find_unique, find_first, count, create,
  delete_many, catch_unique, users, blocks,
}

-- `{ blockerId, blockedId }`
abbrev pub blocks_user : ℕ → ℕ → UserBlock → Bool
blocks_user blocker_id blocked_id b = b.blocker_id == blocker_id && b.blocked_id == blocked_id

module _ {P : Prisma} where
  -- The insertion; a row that is there violates the `@@unique`.
  abbrev pub insert_block : ℕ → ℕ → Handler P (Option UserBlock)
  insert_block blocker_id blocked_id = do
    row ←
        create blocks (blocks_user blocker_id blocked_id)
          (record { blocker_id = blocker_id; blocked_id = blocked_id })
    pure (some row)

  -- A user that is not there violates a foreign key (P2003), for which `block` throws. The users of
  -- a row that is there are there too, so it does not matter that this test comes first.
  abbrev pub check_users : ℕ → ℕ → Handler P (Unit {0})
  check_users blocker_id blocked_id = do
    blocker ← find_unique users blocker_id
    blocked ← find_unique users blocked_id
    throw_if (not (is_set blocker && is_set blocked)) (Exception.bad_request Reason.user_not_found)

  unfoldable pub block : ℕ → ℕ → Handler P (Option UserBlock)
  block blocker_id blocked_id = do
    throw_if (blocker_id == blocked_id) (Exception.bad_request Reason.self_block)
    check_users blocker_id blocked_id
    catch_unique (insert_block blocker_id blocked_id)
        (find_first blocks (blocks_user blocker_id blocked_id))

  unfoldable pub unblock : ℕ → ℕ → Handler P (Unit {0})
  unblock blocker_id blocked_id = delete_many blocks (blocks_user blocker_id blocked_id)

  unfoldable pub is_blocked_between : ℕ → ℕ → Handler P Bool
  is_blocked_between a b = do
    n ← count blocks (λ x. blocks_user a b x || blocks_user b a x)
    pure (ltb 0 n)
