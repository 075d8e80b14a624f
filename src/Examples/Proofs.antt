-- ===== src/Examples/Proofs.antt =====
-- Codes.
use gp_connect_server.Common.{◌≡◌, refl, some, arith, [], ◌∷◌, true, String, List}
use gp_connect_server.Schema.{MissionStatus, ProofType}
use gp_connect_server.Prisma.{World}
use gp_connect_server.Prisma.InMemory.{in_memory}
use gp_connect_server.Handler.{Exception, Reason, ok, err, is_ok, ◌>>=◌}
use gp_connect_server.Proofs.{
  verify, commit_proof, consume_proof, apply_pickup_transition, collect_post_commit_events,
  emit_all, check_otp_or_count_attempt, load_verifiable_proof,
}
use gp_connect_server.Proofs.Guessing.{HasLiveCode, guess, verify-after_guesses}
use gp_connect_server.Proofs.Commit.{
  IsPickedUp, IsDelivered, commit_proof-IsPickedUp, commit_proof-IsDelivered, commit_proof-once,
}
use gp_connect_server.Proofs.Stale.{commit_proof-stale_attempts}
use gp_connect_server.Examples.Data.{
  proof, engaged, accepted_mission, moving, moving_mission, trip, plain_bcrypt,
}

-- The proofs are one row, so `missionId_type` is unique.
live : HasLiveCode plain_bcrypt 100 20 ProofType.pickup 2 "1234" engaged proof
live = record {
  only = λ a b fa fb wa wb. ground arith;
  found = refl;
  about = refl;
  hashed = refl;
  unused = refl;
  fresh = refl;
  mine = refl;
}

abbrev wrong_codes : List String
wrong_codes = "0000" ∷ "1111" ∷ "2222" ∷ "3333" ∷ "4444" ∷ []

verify-after_guesses_example :
    verify plain_bcrypt 100 20 ProofType.pickup "1234" 2
      (guess plain_bcrypt 100 20 ProofType.pickup 2 wrong_codes engaged)
    ≡ (
      err (Exception.bad_request Reason.too_many_attempts),
      guess plain_bcrypt 100 20 ProofType.pickup 2 wrong_codes engaged,
    )
verify-after_guesses_example =
    verify-after_guesses plain_bcrypt 100 20 ProofType.pickup 2 "1234" wrong_codes "1234" engaged
      proof live (refl, (refl, (refl, (refl, (refl, tt))))) (omega arith)

commit_proof-IsPickedUp_example :
    (is_ok (commit_proof 100 60 20 ProofType.pickup 2 engaged).0 ≡ true)
    × IsPickedUp 100 60 20 2 engaged proof refl refl accepted_mission
        (commit_proof 100 60 20 ProofType.pickup 2 engaged).1
commit_proof-IsPickedUp_example =
    commit_proof-IsPickedUp 100 60 20 2 engaged proof refl refl accepted_mission refl

commit_proof-IsDelivered_example :
    (is_ok (commit_proof 100 60 20 ProofType.delivery 2 moving).0 ≡ true)
    × IsDelivered 100 60 20 2 moving
        (record proof { type = ProofType.delivery })
        refl
        refl
        moving_mission
        trip
        (commit_proof 100 60 20 ProofType.delivery 2 moving).1
commit_proof-IsDelivered_example =
    commit_proof-IsDelivered 100 60 20 2 moving (record proof { type = ProofType.delivery }) refl
      refl moving_mission trip refl refl

pickup-runs : is_ok (commit_proof 100 60 20 ProofType.pickup 2 engaged).0 ≡ true
unfolding commit_proof consume_proof apply_pickup_transition collect_post_commit_events emit_all
pickup-runs = refl

commit_proof-once_example :
    let w' = (commit_proof 100 60 20 ProofType.pickup 2 engaged).1 in
    commit_proof 101 60 20 ProofType.pickup 2 w'
    ≡ (err (Exception.bad_request Reason.code_used), w')
commit_proof-once_example =
    commit_proof-once 100 60 20 2 ProofType.pickup ProofType.pickup engaged 101 2 pickup-runs

-- Four other requests have failed since this one loaded the proof.
abbrev exhausted : World in_memory
exhausted = record engaged { proofs = record proof { otp_attempts = 5 } ∷ [] }

proof-loaded : (load_verifiable_proof 100 20 ProofType.pickup 2 engaged).0 ≡ ok (proof, "1234")
unfolding load_verifiable_proof
proof-loaded = refl

commit_proof-stale_attempts_example :
    let run =
      (check_otp_or_count_attempt plain_bcrypt 60 "1234" "1234" >>= λ _.
      commit_proof 100 60 20 ProofType.pickup 2)
        exhausted in
    (is_ok run.0 ≡ true)
    × (in_memory.mission.find_unique 20 run.1.missions
        ≡ some (record accepted_mission { status = MissionStatus.in_transit }))
    × (verify plain_bcrypt 100 20 ProofType.pickup "1234" 2 exhausted
        ≡ (err (Exception.bad_request Reason.too_many_attempts), exhausted))
commit_proof-stale_attempts_example =
    commit_proof-stale_attempts plain_bcrypt 100 20 2 "1234" "1234" engaged exhausted proof 5
      accepted_mission proof-loaded refl (omega arith) refl refl
