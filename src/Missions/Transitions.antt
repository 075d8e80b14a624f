-- ===== src/Missions/Transitions.antt =====
-- Changes of status through `MissionsService.update` (src/missions/missions.service.ts), under any
-- interleaving: the status is read in one database and written in a later one.
use gp_connect_server.Common.{
  ℕ, ◌≡◌, refl, ◌≢◌, inl, inr, true, some, [], arith, includes, ◌==◌, nat_eq, ◌&&◌,
}
use gp_connect_server.Schema.{Mission, MissionStatus, mission_status_eq, mission_status_beq_iff}
use gp_connect_server.Prisma.{Prisma, World, lock-cases, find_unique-locked}
use gp_connect_server.Handler.{Exception, Reason, ok, err}
use gp_connect_server.Missions.Effects.{
  allowed, validate_status_transition, apply_status_side_effects, status_writes,
}
use gp_connect_server.Missions.Service.{UpdateMissionDto, with_data, commit_status, update_mission}

-- The life of a mission under `update`, as a diagram.
infix 40 ◌⟶◌
pub data ◌⟶◌ : MissionStatus → MissionStatus → Type 0 where
  accept : MissionStatus.pending ⟶ MissionStatus.accepted
  withdraw : MissionStatus.pending ⟶ MissionStatus.cancelled
  pick_up : MissionStatus.accepted ⟶ MissionStatus.in_transit
  cancel : MissionStatus.accepted ⟶ MissionStatus.cancelled
  dispute : MissionStatus.accepted ⟶ MissionStatus.disputed
  deliver : MissionStatus.in_transit ⟶ MissionStatus.completed
  dispute_transport : MissionStatus.in_transit ⟶ MissionStatus.disputed

-- The matrix of the code is the diagram.
pub allowed-⟶ : (s n : MissionStatus) → includes (allowed s) n ≡ true → s ⟶ n
allowed-⟶ s n h =
    grind (arith, accept, withdraw, pick_up, cancel, dispute, deliver, dispute_transport)

pub ⟶-allowed : {s n : MissionStatus} → s ⟶ n → includes (allowed s) n ≡ true
⟶-allowed accept = refl
⟶-allowed withdraw = refl
⟶-allowed pick_up = refl
⟶-allowed cancel = refl
⟶-allowed dispute = refl
⟶-allowed deliver = refl
⟶-allowed dispute_transport = refl

module _ {P : Prisma} where
  -- Side effects leave the missions alone.
  status_writes-missions :
      (id ad_id : ℕ) (s : MissionStatus) (w : World P)
      → (status_writes id ad_id s w).1.missions ≡ w.missions
  unfolding status_writes
  status_writes-missions id ad_id s w = ground arith

  pub apply_status_side_effects-missions :
      (id ad_id : ℕ) (s : MissionStatus) (w : World P)
      → (apply_status_side_effects id ad_id s w).1.missions ≡ w.missions
  unfolding apply_status_side_effects
  apply_status_side_effects-missions id ad_id s w =
      ground (arith, status_writes-missions id ad_id s w)

  -- They write the advertisements, the payments and the conversations, and nothing else.
  pub apply_status_side_effects-frame :
      (id ad_id : ℕ) (s : MissionStatus) (w : World P)
      → let w' = (apply_status_side_effects id ad_id s w).1 in
        w' ≡ record w {
          advertisements = w'.advertisements;
          transactions = w'.transactions;
          conversations = w'.conversations;
          effects = w'.effects;
        }
  unfolding apply_status_side_effects status_writes
  apply_status_side_effects-frame id ad_id MissionStatus.pending w = ground arith
  apply_status_side_effects-frame id ad_id MissionStatus.accepted w = ground arith
  apply_status_side_effects-frame id ad_id MissionStatus.in_transit w = ground arith
  apply_status_side_effects-frame id ad_id MissionStatus.completed w = ground arith
  apply_status_side_effects-frame id ad_id MissionStatus.cancelled w = ground arith
  apply_status_side_effects-frame id ad_id MissionStatus.disputed w = ground arith

  -- The validation only reads. It returns the status of the mission, from which `next` can be
  -- reached; nothing, where there is no mission; or it refuses.
  pub validate_status_transition-world :
      (id : ℕ) (next : MissionStatus) (w : World P) → (validate_status_transition id next w).1 ≡ w
  unfolding validate_status_transition
  validate_status_transition-world id next w = ground arith

  pub validate_status_transition-ok :
      (id : ℕ) (next s : MissionStatus) (w : World P)
      → (validate_status_transition id next w).0 ≡ ok (some s)
      → s ⟶ next
  unfolding validate_status_transition
  validate_status_transition-ok id next s w h = allowed-⟶ s next (ground arith)

  commit_status-ok :
      (id : ℕ) (s : MissionStatus) (d : UpdateMissionDto) (w : World P) {m : Mission}
      → (commit_status id s d w).0 ≡ ok m
      → (old : Mission) × (P.mission.find_unique id w.missions ≡ some old)
        × (old.status ≡ s)
        × (m ≡ with_data d old)
        × (P.mission.find_unique id (commit_status id s d w).1.missions ≡ some m)
  unfolding commit_status
  commit_status-ok id s d w h = elim (lock-cases P.mission id (λ m. m.status == s) w.missions) [
    | inl z ↦ absurd (ground arith)
    | inr (n, (old, f, k, q)) ↦
        let f' =
          find_unique-locked P.mission id (λ m. m.status == s) (with_data d) w.missions old
            (λ b. refl) f q in
        let m' = with_data d old in
        let after : World P = record w {
          missions =
              P.mission.update_many (λ m. m.id == id && m.status == s) (with_data d) w.missions;
        } in
        (
          old,
          f,
          (mission_status_beq_iff old.status s).0 q,
          ground (arith, f'),
          ground (
            arith,
            f',
            apply_status_side_effects-missions m'.id m'.advertisement_id m'.status after,
          ),
        )
  ]

  -- A status that changed between the read and the write is never overwritten.
  pub commit_status-changed :
      (id : ℕ) (s : MissionStatus) (d : UpdateMissionDto) (w : World P) (m : Mission)
      → P.mission.find_unique id w.missions ≡ some m
      → m.status ≢ s
      → commit_status id s d w ≡ (err (Exception.bad_request Reason.changed_concurrently), w)
  unfolding commit_status
  commit_status-changed id s d w m f ne =
      elim (lock-cases P.mission id (λ m. m.status == s) w.missions) [
        | inl z ↦
            let same =
              P.mission.update_many-none (λ m. m.id == id && m.status == s) (with_data d) w.missions
                z in
            ground arith
        | inr (n, (old, f', _, q)) ↦ absurd (ground (arith, mission_status_beq_iff old.status s))
      ]

  -- Validated in `before`, committed in `w`, with any writes between them: if the commit succeeds
  -- the mission's status goes along an arrow of the diagram, from what it is in `w` to the new one.
  pub commit_status-⟶ :
      (id : ℕ) (next s : MissionStatus) (d : UpdateMissionDto) (before w : World P) {m : Mission}
      → d.status ≡ some next
      → (validate_status_transition id next before).0 ≡ ok (some s)
      → (commit_status id s d w).0 ≡ ok m
      → (old : Mission) × (P.mission.find_unique id w.missions ≡ some old)
        × (P.mission.find_unique id (commit_status id s d w).1.missions ≡ some (with_data d old))
        × (old.status ⟶ (with_data d old).status)
  commit_status-⟶ id next s d before w {m} asked valid done =
      let (old, f, same, new, f') = commit_status-ok id s d w done in
      let arrow = validate_status_transition-ok id next s before valid in
      (old, f, rw new at f', rw (same, asked) arrow)

  -- A status with no way out stays: any change of it is refused and nothing is written.
  pub update_mission-final :
      (id : ℕ) (d : UpdateMissionDto) (w : World P) (m : Mission) (next : MissionStatus)
      → P.mission.find_unique id w.missions ≡ some m
      → allowed m.status ≡ []
      → d.status ≡ some next
      → update_mission id d w ≡ (err (Exception.bad_request Reason.cannot_transition), w)
  unfolding update_mission validate_status_transition
  update_mission-final id d w m next f none_left asked = ground arith
