-- ===== src/Ratings/Service.antt =====
-- `create` of `RatingsService` (src/ratings/ratings.service.ts).
use gp_connect_server.Common.{
  ℕ, Bool, Option, some, String, ◌==◌, nat_eq, not, ◌&&◌, ◌||◌, is_some_of, if◌then◌else◌,
}
use gp_connect_server.Schema.{Mission, MissionStatus, mission_status_eq, MissionRating}
use gp_connect_server.Prisma.{Prisma}
use gp_connect_server.Handler.{
  Handler, Exception, Reason, ◌>>=◌, ◌>>◌, throw, or_throw, throw_if, find_unique, create,
  catch_unique, missions, ratings,
}

-- `CreateRatingDto`, with the id that the new row draws.
pub record CreateRatingDto : Type 0 where
  pub new_id : ℕ
  pub score : ℕ
  pub comment : Option String

-- The other party, who is rated.
abbrev pub rated_by : ℕ → Mission → Option ℕ
rated_by rater_id m = if rater_id == m.shipper_id then m.carrier_id else some m.shipper_id

abbrev pub new_rating : ℕ → ℕ → ℕ → CreateRatingDto → MissionRating
new_rating mission_id rater_id rated_id d = record {
  id = d.new_id;
  mission_id = mission_id;
  rater_id = rater_id;
  rated_id = rated_id;
  score = d.score;
  comment = d.comment;
}

-- The `@@unique([missionId, raterId])`.
abbrev pub rates : ℕ → ℕ → MissionRating → Bool
rates mission_id rater_id r = r.mission_id == mission_id && r.rater_id == rater_id

module _ {P : Prisma} where
  -- The guards of `create`; returns the user who is rated.
  unfoldable pub rating_guards : ℕ → ℕ → Handler P ℕ
  rating_guards mission_id rater_id = do
    found ← find_unique missions mission_id
    m ← or_throw (Exception.not_found Reason.mission_not_found) found
    throw_if (not (m.status == MissionStatus.completed))
        (Exception.bad_request Reason.not_completed)
    throw_if (not (rater_id == m.shipper_id) && not (is_some_of m.carrier_id rater_id))
        (Exception.forbidden Reason.unspecified)
    or_throw (Exception.bad_request Reason.no_carrier) (rated_by rater_id m)

  unfoldable pub store_rating : ℕ → ℕ → CreateRatingDto → ℕ → Handler P MissionRating
  store_rating mission_id rater_id d rated_id =
      catch_unique
        (create ratings (λ r. r.id == d.new_id || rates mission_id rater_id r)
          (new_rating mission_id rater_id rated_id d))
        (throw (Exception.conflict Reason.already_rated))

  unfoldable pub create_rating : ℕ → ℕ → CreateRatingDto → Handler P MissionRating
  create_rating mission_id rater_id d =
      rating_guards mission_id rater_id >>= store_rating mission_id rater_id d
