-- ===== src/MissionRoutes/Cancelling.antt =====
-- Cancelling a mission by hand, and what it does to the advertisement.
use gp_connect_server.Common.{
  ℕ, ◌≡◌, refl, ◌≢◌, true, false, none, some, arith, ◌==◌, nat_eq, ◌&&◌, includes,
}
use gp_connect_server.Schema.{
  Mission, MissionStatus, mission_status_eq, mission_status_beq_iff, Advertisement,
  AdvertisementStatus,
}
use gp_connect_server.Prisma.{
  Prisma, World, find_unique-locked, find_unique-locked_ne, lock_matches,
}
use gp_connect_server.Handler.{ok}
use gp_connect_server.Missions.{
  UpdateMissionDto, with_data, allowed, validate_status_transition, commit_status, update_mission,
  apply_status_side_effects,
}
use gp_connect_server.Missions.Transitions.{◌⟶◌, ⟶-allowed}
use gp_connect_server.Missions.SideEffects.{apply_status_side_effects-HasFollowed}
use gp_connect_server.MissionRoutes.Routes.{is_member, update_guards, update_route}

-- The body `{ status: 'CANCELLED' }`.
abbrev pub cancellation : UpdateMissionDto
cancellation = record {
  status = some MissionStatus.cancelled;
  recipient_name = none;
  recipient_phone = none;
  carrier_id_given = false;
}

module _ {P : Prisma} where
  -- What the cancellation of the mission `m` did.
  pub record IsCancelled (m : Mission) (a : Advertisement) (w w' : World P) : Type 0 where
    pub cancelled :
        P.mission.find_unique m.id w'.missions
        ≡ some (record m { status = MissionStatus.cancelled })
    pub reopened :
        P.advertisement.find_unique m.advertisement_id w'.advertisements
        ≡ some (record a { status = AdvertisementStatus.open_ })
    pub others :
        (j : ℕ)
        → j ≢ m.id
        → P.mission.find_unique j w'.missions ≡ P.mission.find_unique j w.missions

  -- The write under the lock, where the status is still the one that was read.
  commit_status-IsCancelled :
      (w : World P) (m : Mission) (a : Advertisement)
      → P.mission.find_unique m.id w.missions ≡ some m
      → P.advertisement.find_unique m.advertisement_id w.advertisements ≡ some a
      → let run = commit_status m.id m.status cancellation w in
        (run.0 ≡ ok (record m { status = MissionStatus.cancelled })) × IsCancelled m a w run.1
  unfolding commit_status
  commit_status-IsCancelled w m a f g =
      let q = λ (x : Mission). x.status == m.status in
      let t : q m ≡ true = (mission_status_beq_iff m.status m.status).1 refl in
      let write = with_data cancellation in
      let f' = find_unique-locked P.mission m.id q write w.missions m (λ b. refl) f t in
      let n = lock_matches P.mission m.id q w.missions m f t in
      let after : World P = record w {
        missions = P.mission.update_many (λ x. x.id == m.id && q x) write w.missions;
      } in
      let (good, followed) =
        apply_status_side_effects-HasFollowed m.id m.advertisement_id after a g
          MissionStatus.cancelled in
      let done = apply_status_side_effects m.id m.advertisement_id MissionStatus.cancelled after in
      let run : commit_status m.id m.status cancellation w ≡ (ok (write m), done.1) =
        ground arith in
      rw run (
        refl,
        record {
          cancelled = rw followed.missions f';
          reopened = followed.advertisement;
          others = λ j ne.
              rw followed.missions
                (find_unique-locked_ne P.mission j m.id q write w.missions (λ b. refl) ne);
        },
      )

  guards-pass :
      (user_id : ℕ) (w : World P) (m : Mission)
      → is_member user_id m ≡ true
      → includes (allowed m.status) MissionStatus.cancelled ≡ true
      → update_guards user_id cancellation m w ≡ (ok tt, w)
  unfolding update_guards
  guards-pass user_id w m member allow = ground arith

  validation-passes :
      (w : World P) (m : Mission)
      → P.mission.find_unique m.id w.missions ≡ some m
      → includes (allowed m.status) MissionStatus.cancelled ≡ true
      → validate_status_transition m.id MissionStatus.cancelled w ≡ (ok (some m.status), w)
  unfolding validate_status_transition
  validation-passes w m f allow = ground arith

  -- A party cancels a pending or accepted mission: the request succeeds, and the advertisement is
  -- open again, whatever its status was and whichever other missions it has, which stay as they are.
  pub update_route-IsCancelled :
      (user_id : ℕ) (w : World P) (m : Mission) (a : Advertisement)
      → P.mission.find_unique m.id w.missions ≡ some m
      → P.advertisement.find_unique m.advertisement_id w.advertisements ≡ some a
      → is_member user_id m ≡ true
      → m.status ⟶ MissionStatus.cancelled
      → let run = update_route user_id m.id cancellation w in
        (run.0 ≡ ok (record m { status = MissionStatus.cancelled })) × IsCancelled m a w run.1
  unfolding update_route update_mission
  update_route-IsCancelled user_id w m a f g member arrow =
      let allow = ⟶-allowed arrow in
      let run : update_route user_id m.id cancellation w
          ≡ commit_status m.id m.status cancellation w =
        ground (arith, guards-pass user_id w m member allow, validation-passes w m f allow) in
      rw run (commit_status-IsCancelled w m a f g)
