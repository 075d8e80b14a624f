-- ===== src/MissionRoutes/Updates.antt =====
-- What a participant may change of a mission by hand: `PATCH /missions/:id`.
use gp_connect_server.Common.{
  ℕ, ◌≡◌, refl, ap, subst, inl, inr, true, false, Option, Option-cases, some, arith, includes,
  nat_eq, nat_beq_iff, ◌∙◌,
}
use gp_connect_server.Schema.{Mission, MissionStatus, mission_status_eq, mission_status_beq_iff}
use gp_connect_server.Prisma.{Prisma, World, find_unique-updated}
use gp_connect_server.Handler.{Result-cases, ok, ◌>>=◌}
use gp_connect_server.Handler.Inversion.{read-ok}
use gp_connect_server.Missions.{
  UpdateMissionDto, with_data, validate_status_transition, commit_status, update_mission,
}
use gp_connect_server.Missions.Transitions.{
  ◌⟶◌, commit_status-⟶, validate_status_transition-world, validate_status_transition-ok,
}
use gp_connect_server.MissionRoutes.Routes.{
  is_member, sets_recipient, recipient_statuses, load_mission, update_guards, update_route,
}

-- What the guards of the route make sure of.
pub record MayUpdate (user_id : ℕ) (d : UpdateMissionDto) (m : Mission) : Type 0 where
  pub member : is_member user_id m ≡ true
  pub only_cancels : (s : MissionStatus) → d.status ≡ some s → s ≡ MissionStatus.cancelled
  pub no_carrier : d.carrier_id_given ≡ false
  pub recipient_by_shipper : sets_recipient d ≡ true → user_id ≡ m.shipper_id
  pub recipient_in_time : sets_recipient d ≡ true → includes recipient_statuses m.status ≡ true

module _ {P : Prisma} where
  update_guards-world :
      (user_id : ℕ) (d : UpdateMissionDto) (m : Mission) (w : World P)
      → (update_guards user_id d m w).1 ≡ w
  unfolding update_guards
  update_guards-world user_id d m w = ground arith

  update_guards-ok :
      (user_id : ℕ) (d : UpdateMissionDto) (m : Mission) (w : World P)
      → (update_guards user_id d m w).0 ≡ ok tt
      → MayUpdate user_id d m
  unfolding update_guards
  update_guards-ok user_id d m w h = record {
    member = ground arith;
    only_cancels = λ s e. let i = mission_status_beq_iff s MissionStatus.cancelled in ground arith;
    no_carrier = ground arith;
    recipient_by_shipper = λ e. let i = nat_beq_iff user_id m.shipper_id in ground arith;
    recipient_in_time = λ e. ground arith;
  }

  validate-found :
      (id : ℕ) (s : MissionStatus) (w : World P) (m : Mission) {o : Option MissionStatus}
      → P.mission.find_unique id w.missions ≡ some m
      → (validate_status_transition id s w).0 ≡ ok o
      → o ≡ some m.status
  unfolding validate_status_transition
  validate-found id s w m f h = ground arith

  -- The mission as the service leaves it.
  update_mission-ok :
      (id : ℕ) (d : UpdateMissionDto) (w : World P) (m : Mission) {r : Mission}
      → P.mission.find_unique id w.missions ≡ some m
      → (update_mission id d w).0 ≡ ok r
      → (P.mission.find_unique id (update_mission id d w).1.missions ≡ some (with_data d m))
        × ((s : MissionStatus) → d.status ≡ some s → m.status ⟶ s)
  unfolding update_mission
  update_mission-ok id d w m f h = elim (Option-cases d.status) [
    | inl z ↦
        let u = find_unique-updated P.mission id (with_data d) w.missions m (λ b. refl) f in
        (ground arith, λ s e. absurd (ground arith))
    | inr (s, e) ↦ elim (Result-cases (validate_status_transition id s w).0) [
      | inr (x, v) ↦ absurd (ground arith)
      | inl (o, v) ↦
          let valid : (validate_status_transition id s w).0 ≡ ok (some m.status) =
            v ∙ ap ok (validate-found id s w m f v) in
          let same = validate_status_transition-world id s w in
          let run : update_mission id d w ≡ commit_status id m.status d w = ground arith in
          let (old, fo, new, arrow) = commit_status-⟶ id s m.status d w w e valid (rw run at h) in
          let same_row : old ≡ m = ground arith in
          (
            rw run (
                subst
                  (λ y.
                    P.mission.find_unique id (commit_status id m.status d w).1.missions
                    ≡ some (with_data d y))
                  same_row new),
            λ s' e'.
                let same_status : s ≡ s' = ground arith in
                subst (λ n. m.status ⟶ n) same_status
                  (validate_status_transition-ok id s m.status w valid),
          )
    ]
  ]

  -- What an update through the route did.
  pub record IsUpdated (user_id id : ℕ) (d : UpdateMissionDto) (w w' : World P) : Type 0 where
    pub mission : Mission
    pub found : P.mission.find_unique id w.missions ≡ some mission
    pub may_update : MayUpdate user_id d mission
    pub cancels : (s : MissionStatus) → d.status ≡ some s → mission.status ⟶ MissionStatus.cancelled
    pub stored : P.mission.find_unique id w'.missions ≡ some (with_data d mission)

  -- An update that succeeds is sent by a party of the mission. If it sets a status, it cancels a
  -- mission that is pending or accepted; only the shipper sets the recipient, and only until the
  -- delivery; the columns that it sets are stored.
  pub update_route-ok :
      (user_id id : ℕ) (d : UpdateMissionDto) (w : World P) {r : Mission}
      → (update_route user_id id d w).0 ≡ ok r
      → IsUpdated user_id id d w (update_route user_id id d w).1
  unfolding update_route
  update_route-ok user_id id d w h =
      let rest = λ (m : Mission). update_guards user_id d m >>= λ _. update_mission id d in
      let (m, loaded, q, h1) = read-ok (load_mission id) rest w (ground arith) h in
      let (u, passed, q', h2) =
        read-ok (update_guards user_id d m) (λ _. update_mission id d) w
          (update_guards-world user_id d m w) h1 in
      let f : P.mission.find_unique id w.missions ≡ some m = ground arith in
      let may = update_guards-ok user_id d m w passed in
      let (stored, arrow) = update_mission-ok id d w m f h2 in
      record {
        mission = m;
        found = f;
        may_update = may;
        cancels = λ s e. subst (λ n. m.status ⟶ n) (may.only_cancels s e) (arrow s e);
        stored = rw (q, q') stored;
      }
