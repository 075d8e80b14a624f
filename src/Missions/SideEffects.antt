-- ===== src/Missions/SideEffects.antt =====
-- What follows a change of a mission's status: `applyStatusSideEffects` of
-- src/missions/missions.service.ts, row by row.
use gp_connect_server.Common.{
  ℕ, ◌≡◌, refl, ◌≢◌, sym, subst, Bool, some, arith, ◌==◌, nat_eq, ◌&&◌, ◌||◌, is_some_of,
  if◌then◌else◌,
}
use gp_connect_server.Schema.{
  MissionStatus, mission_status_eq, Advertisement, AdvertisementStatus, Transaction,
  TransactionStatus, transaction_status_eq, Conversation, ConversationStatus,
}
use gp_connect_server.Prisma.{
  Prisma, World, row-written, find_unique-updated, find_unique-updated_ne,
}
use gp_connect_server.Handler.{ok}
use gp_connect_server.Missions.Effects.{apply_status_side_effects, status_writes}

-- An advertisement beside a mission of each status: it is in progress while the mission is engaged,
-- completed with it, and open again after a cancellation; a pending or a disputed mission leaves it
-- as it was.
abbrev pub beside : MissionStatus → Advertisement → Advertisement
beside MissionStatus.pending a = a
beside MissionStatus.accepted a = record a { status = AdvertisementStatus.in_progress }
beside MissionStatus.in_transit a = record a { status = AdvertisementStatus.in_progress }
beside MissionStatus.completed a = record a { status = AdvertisementStatus.completed }
beside MissionStatus.cancelled a = record a { status = AdvertisementStatus.open_ }
beside MissionStatus.disputed a = a

abbrev pub ends : MissionStatus → Bool
ends s = s == MissionStatus.completed || s == MissionStatus.cancelled

module _ {P : Prisma} (id ad_id : ℕ) (w : World P) (a : Advertisement)
    (found : P.advertisement.find_unique ad_id w.advertisements ≡ some a) where
  -- The rows of the three tables, after the mission `id` has taken the status `s`.
  pub record HasFollowed (s : MissionStatus) (w' : World P) : Type 0 where
    pub advertisement : P.advertisement.find_unique ad_id w'.advertisements ≡ some (beside s a)
    pub other_advertisements :
        (k : ℕ)
        → k ≢ ad_id
        → P.advertisement.find_unique k w'.advertisements
          ≡ P.advertisement.find_unique k w.advertisements
    pub transactions :
        (k : ℕ) (t : Transaction)
        → P.transaction.find_unique k w.transactions ≡ some t
        → P.transaction.find_unique k w'.transactions
          ≡ some (
              if (s == MissionStatus.cancelled)
                && (t.mission_id == id && t.status == TransactionStatus.pending)
              then record t { status = TransactionStatus.cancelled }
              else t)
    pub conversations :
        (k : ℕ) (c : Conversation)
        → P.conversation.find_unique k w.conversations ≡ some c
        → P.conversation.find_unique k w'.conversations
          ≡ some (
              if ends s && is_some_of c.mission_id id
              then record c { status = ConversationStatus.archived }
              else c)
    pub missions : w'.missions ≡ w.missions

  ad_written :
      (s : AdvertisementStatus)
      → P.advertisement.find_unique ad_id (
          P.advertisement.update_many
            (λ b. b.id == ad_id)
            (λ b. record b { status = s })
            w.advertisements)
        ≡ some (record a { status = s })
  ad_written s =
      find_unique-updated P.advertisement ad_id (λ b. record b { status = s }) w.advertisements a
        (λ b. refl) found

  others_kept :
      (s : AdvertisementStatus) (k : ℕ)
      → k ≢ ad_id
      → P.advertisement.find_unique k (
          P.advertisement.update_many
            (λ b. b.id == ad_id)
            (λ b. record b { status = s })
            w.advertisements)
        ≡ P.advertisement.find_unique k w.advertisements
  others_kept s k ne =
      find_unique-updated_ne P.advertisement k ad_id (λ b. record b { status = s }) w.advertisements
        (λ b. refl) ne

  -- The writes for each status, on the advertisement that is there.
  abbrev followed_world : MissionStatus → World P
  followed_world MissionStatus.pending = w
  followed_world MissionStatus.disputed = w
  followed_world MissionStatus.accepted = record w {
    advertisements =
        P.advertisement.update_many (λ b. b.id == ad_id)
          (λ b. record b { status = AdvertisementStatus.in_progress }) w.advertisements;
  }
  followed_world MissionStatus.in_transit = record w {
    advertisements =
        P.advertisement.update_many (λ b. b.id == ad_id)
          (λ b. record b { status = AdvertisementStatus.in_progress }) w.advertisements;
  }
  followed_world MissionStatus.completed = record w {
    advertisements =
        P.advertisement.update_many (λ b. b.id == ad_id)
          (λ b. record b { status = AdvertisementStatus.completed }) w.advertisements;
    conversations =
        P.conversation.update_many (λ c. is_some_of c.mission_id id)
          (λ c. record c { status = ConversationStatus.archived }) w.conversations;
  }
  followed_world MissionStatus.cancelled = record w {
    advertisements =
        P.advertisement.update_many (λ b. b.id == ad_id)
          (λ b. record b { status = AdvertisementStatus.open_ }) w.advertisements;
    transactions =
        P.transaction.update_many (λ t. t.mission_id == id && t.status == TransactionStatus.pending)
          (λ t. record t { status = TransactionStatus.cancelled }) w.transactions;
    conversations =
        P.conversation.update_many (λ c. is_some_of c.mission_id id)
          (λ c. record c { status = ConversationStatus.archived }) w.conversations;
  }

  status_writes-followed :
      (s : MissionStatus) → status_writes id ad_id s w ≡ (ok tt, followed_world s)
  unfolding status_writes
  status_writes-followed MissionStatus.pending = ground arith
  status_writes-followed MissionStatus.disputed = ground arith
  status_writes-followed MissionStatus.accepted = ground arith
  status_writes-followed MissionStatus.in_transit = ground arith
  status_writes-followed MissionStatus.completed = ground arith
  status_writes-followed MissionStatus.cancelled = ground arith

  followed_world-HasFollowed : (s : MissionStatus) → HasFollowed s (followed_world s)
  followed_world-HasFollowed MissionStatus.pending = record {
    advertisement = found;
    other_advertisements = λ k ne. refl;
    transactions = λ k t f. f;
    conversations = λ k c f. f;
    missions = refl;
  }
  followed_world-HasFollowed MissionStatus.disputed = record {
    advertisement = found;
    other_advertisements = λ k ne. refl;
    transactions = λ k t f. f;
    conversations = λ k c f. f;
    missions = refl;
  }
  followed_world-HasFollowed MissionStatus.accepted = record {
    advertisement = ad_written _;
    other_advertisements = others_kept _;
    transactions = λ k t f. f;
    conversations = λ k c f. f;
    missions = refl;
  }
  followed_world-HasFollowed MissionStatus.in_transit = record {
    advertisement = ad_written _;
    other_advertisements = others_kept _;
    transactions = λ k t f. f;
    conversations = λ k c f. f;
    missions = refl;
  }
  followed_world-HasFollowed MissionStatus.completed = record {
    advertisement = ad_written _;
    other_advertisements = others_kept _;
    transactions = λ k t f. f;
    conversations = λ k c f. row-written P.conversation k _ _ _ c _ (λ b. refl) f refl;
    missions = refl;
  }
  followed_world-HasFollowed MissionStatus.cancelled = record {
    advertisement = ad_written _;
    other_advertisements = others_kept _;
    transactions = λ k t f. row-written P.transaction k _ _ _ t _ (λ b. refl) f refl;
    conversations = λ k c f. row-written P.conversation k _ _ _ c _ (λ b. refl) f refl;
    missions = refl;
  }

  apply_status_side_effects-followed :
      (s : MissionStatus)
      → let run = apply_status_side_effects id ad_id s w in
        (run.0 ≡ ok tt) × (run.1 ≡ record (followed_world s) { effects = run.1.effects })
  unfolding apply_status_side_effects
  apply_status_side_effects-followed s = ground (arith, status_writes-followed s)

  -- For every status the side effects succeed on an advertisement that is there. It is in progress
  -- beside a mission that is accepted or in transit, completed beside a completed one, open beside a
  -- cancelled one, and otherwise as it was; a cancellation cancels the mission's pending payments, an
  -- end archives its conversations, and no other advertisement, payment or conversation changes, and
  -- no mission.
  pub apply_status_side_effects-HasFollowed :
      (s : MissionStatus)
      → let run = apply_status_side_effects id ad_id s w in (run.0 ≡ ok tt) × HasFollowed s run.1
  apply_status_side_effects-HasFollowed s =
      let a = followed_world-HasFollowed s in
      let (good, same) = apply_status_side_effects-followed s in
      (
        good,
        subst (HasFollowed s) (sym same) (record {
          advertisement = a.advertisement;
          other_advertisements = a.other_advertisements;
          transactions = a.transactions;
          conversations = a.conversations;
          missions = a.missions;
        }),
      )
