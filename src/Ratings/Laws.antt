-- ===== src/Ratings/Laws.antt =====
-- Who rates whom, and how often.
use gp_connect_server.Common.{
  ℕ, ◌≡◌, refl, ◌⊎◌, inl, inr, true, Option-cases, Bool-cases, nat_beq_iff, ◌∙◌, some, arith, ◌==◌,
  nat_eq, ◌||◌,
}
use gp_connect_server.Schema.{
  Mission, MissionStatus, mission_status_eq, mission_status_beq_iff, MissionRating,
}
use gp_connect_server.Prisma.{Prisma, World, zero-cases, fresh_id}
use gp_connect_server.Handler.{Exception, Reason, ok, err}
use gp_connect_server.Handler.Inversion.{read-ok}
use gp_connect_server.Ratings.Service.{
  CreateRatingDto, new_rating, rates, rating_guards, store_rating, create_rating,
}

-- The rater is one party and the rated user the other.
abbrev pub RatesOther : ℕ → ℕ → Mission → Type 0
RatesOther rater_id rated_id m =
    ((rater_id ≡ m.shipper_id) × (m.carrier_id ≡ some rated_id))
    ⊎ ((m.carrier_id ≡ some rater_id) × (rated_id ≡ m.shipper_id))

module _ {P : Prisma} where
  -- What a rating did.
  pub record IsRated (mission_id rater_id : ℕ) (d : CreateRatingDto) (w w' : World P) : Type 0 where
    pub mission : Mission
    pub rated_id : ℕ
    pub found : P.mission.find_unique mission_id w.missions ≡ some mission
    pub completed : mission.status ≡ MissionStatus.completed
    pub other : RatesOther rater_id rated_id mission
    pub stored :
        P.mission_rating.find_unique d.new_id w'.ratings
        ≡ some (new_rating mission_id rater_id rated_id d)
    pub same_missions : w'.missions ≡ w.missions

  rating_guards-world :
      (mission_id rater_id : ℕ) (w : World P) → (rating_guards mission_id rater_id w).1 ≡ w
  unfolding rating_guards
  rating_guards-world mission_id rater_id w = ground arith

  rating_guards-ok :
      (mission_id rater_id rated_id : ℕ) (w : World P)
      → (rating_guards mission_id rater_id w).0 ≡ ok rated_id
      → (m : Mission) × (P.mission.find_unique mission_id w.missions ≡ some m)
        × (m.status ≡ MissionStatus.completed)
        × RatesOther rater_id rated_id m
  unfolding rating_guards
  rating_guards-ok mission_id rater_id rated_id w h =
      elim (Option-cases (P.mission.find_unique mission_id w.missions)) [
        | inl z ↦ absurd (ground arith)
        | inr (m, f) ↦
            let i = mission_status_beq_iff m.status MissionStatus.completed in
            (
              m,
              f,
              ground arith,
              elim (Bool-cases (rater_id == m.shipper_id)) [
                | inl t ↦ inl ((nat_beq_iff rater_id m.shipper_id).0 t, ground arith)
                | inr n ↦ elim (Option-cases m.carrier_id) [
                  | inl z ↦ absurd (ground arith)
                  | inr (c, e) ↦ let j = nat_beq_iff c rater_id in inr (ground arith, ground arith)
                ]
              ],
            )
      ]

  -- The guards read only the missions.
  rating_guards-missions :
      (mission_id rater_id : ℕ) (w w' : World P)
      → w'.missions ≡ w.missions
      → (rating_guards mission_id rater_id w').0 ≡ (rating_guards mission_id rater_id w).0
  unfolding rating_guards
  rating_guards-missions mission_id rater_id w w' e = ground arith

  store_rating-ok :
      (mission_id rater_id rated_id : ℕ) (d : CreateRatingDto) (w : World P) {r : MissionRating}
      → (store_rating mission_id rater_id d rated_id w).0 ≡ ok r
      → (P.mission_rating.count (λ x. x.id == d.new_id || rates mission_id rater_id x) w.ratings
          ≡ 0)
        × ((store_rating mission_id rater_id d rated_id w).1 ≡ record w {
          ratings = P.mission_rating.insert (new_rating mission_id rater_id rated_id d) w.ratings;
        })
  unfolding store_rating
  store_rating-ok mission_id rater_id rated_id d w h = ground arith

  -- A rating by someone whose rating is stored already.
  store_rating-again :
      (mission_id rater_id rated_id : ℕ) (d : CreateRatingDto) (w : World P) (x : MissionRating)
      → P.mission_rating.find_unique x.id w.ratings ≡ some x
      → rates mission_id rater_id x ≡ true
      → store_rating mission_id rater_id d rated_id w
        ≡ (err (Exception.conflict Reason.already_rated), w)
  unfolding store_rating
  store_rating-again mission_id rater_id rated_id d w x f y =
      elim (zero-cases
        (P.mission_rating.count (λ r. r.id == d.new_id || rates mission_id rater_id r) w.ratings)) [
          | inl z ↦
              let free = P.mission_rating.count-zero _ w.ratings x.id x z f in absurd (ground arith)
          | inr n ↦ ground arith
        ]

  -- A rating that is stored is on a completed mission, by one of its parties about the other, under
  -- the id that it drew; the missions stay as they are.
  pub create_rating-ok :
      (mission_id rater_id : ℕ) (d : CreateRatingDto) (w : World P) {r : MissionRating}
      → (create_rating mission_id rater_id d w).0 ≡ ok r
      → IsRated mission_id rater_id d w (create_rating mission_id rater_id d w).1
  unfolding create_rating
  create_rating-ok mission_id rater_id d w h =
      let store = store_rating mission_id rater_id d in
      let (rated_id, g, q, h') =
        read-ok (rating_guards mission_id rater_id) store w
          (rating_guards-world mission_id rater_id w) h in
      let (m, f, c, o) = rating_guards-ok mission_id rater_id rated_id w g in
      let (z, wrote) = store_rating-ok mission_id rater_id rated_id d w h' in
      let free = fresh_id P.mission_rating d.new_id (rates mission_id rater_id) w.ratings z in
      let new = new_rating mission_id rater_id rated_id d in
      record {
        mission = m;
        rated_id = rated_id;
        found = f;
        completed = c;
        other = o;
        stored = rw (q, wrote) (P.mission_rating.find_unique-insert_self new w.ratings free);
        same_missions = rw (q, wrote) refl;
      }

  -- Nobody rates a mission twice: after a rating that was stored, another one of the same mission by
  -- the same user is a conflict, and nothing is written.
  pub create_rating-once :
      (mission_id rater_id : ℕ) (d d' : CreateRatingDto) (w : World P) {r : MissionRating}
      → (create_rating mission_id rater_id d w).0 ≡ ok r
      → let w' = (create_rating mission_id rater_id d w).1 in
        create_rating mission_id rater_id d' w'
        ≡ (err (Exception.conflict Reason.already_rated), w')
  unfolding create_rating
  create_rating-once mission_id rater_id d d' w h =
      let r = create_rating-ok mission_id rater_id d w h in
      let w' = (create_rating mission_id rater_id d w).1 in
      let (rated_id, g, _, _) =
        read-ok (rating_guards mission_id rater_id) (store_rating mission_id rater_id d) w
          (rating_guards-world mission_id rater_id w) h in
      let g' = rating_guards-missions mission_id rater_id w w' r.same_missions ∙ g in
      let again =
        store_rating-again mission_id rater_id rated_id d' w'
          (new_rating mission_id rater_id r.rated_id d) r.stored (ground arith) in
      ground (arith, rating_guards-world mission_id rater_id w')
