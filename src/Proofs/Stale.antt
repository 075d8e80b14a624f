-- ===== src/Proofs/Stale.antt =====
-- The attempts on a code are tested on the row that was read before the comparison, and never again
-- (`verify` of src/proof/proof.service.ts).
use gp_connect_server.Common.{
  ℕ, ◌≤◌, ◌≡◌, inl, inr, true, false, none, some, String, arith, Option-cases, nat_eq,
}
use gp_connect_server.Schema.{MissionProof, ProofType, proof_type_eq, Mission, MissionStatus}
use gp_connect_server.Prisma.{Prisma, World}
use gp_connect_server.Handler.{Exception, Reason, ok, err, is_ok, ◌>>=◌}
use gp_connect_server.Proofs.Codes.{Bcrypt}
use gp_connect_server.Proofs.Service.{
  proves, expired, reserved_for_other, max_otp_attempts, load_verifiable_proof,
  check_otp_or_count_attempt, commit_proof, verify,
}
use gp_connect_server.Proofs.Commit.{commit_proof-IsPickedUp}

-- The guards that a row has passed when it is loaded, but for the attempts.
record IsLoaded (now user_id : ℕ) (p : MissionProof) (hash : String) : Type 0 where
  hashed : p.otp_hash ≡ some hash
  unused : p.otp_used_at ≡ none
  fresh : expired now p.otp_expires_at ≡ false
  mine : reserved_for_other p.verified_by_id user_id ≡ false

module _ {P : Prisma} (now mission_id : ℕ) (type : ProofType) (user_id : ℕ) where
  load_verifiable_proof-IsLoaded :
      (w : World P) {p : MissionProof} {hash : String}
      → (load_verifiable_proof now mission_id type user_id w).0 ≡ ok (p, hash)
      → IsLoaded now user_id p hash
  unfolding load_verifiable_proof
  load_verifiable_proof-IsLoaded w {p} {hash} h =
      elim (Option-cases (P.mission_proof.find_first (proves mission_id type) w.proofs)) [
        | inl z ↦ absurd (ground arith)
        | inr (q, e) ↦ elim (Option-cases q.otp_hash) [
          | inl z ↦ absurd (ground arith)
          | inr (x, e') ↦ elim (Option-cases q.otp_used_at) [
            | inr (y, u) ↦ absurd (ground arith)
            | inl u ↦
                let same : q ≡ p = ground arith in
                record {
                  hashed = ground arith;
                  unused = ground arith;
                  fresh = ground arith;
                  mine = ground arith;
                }
          ]
        ]
      ]

  -- The guards of `verify` on a row whose attempts are used up.
  verify-exhausted :
      (b : Bcrypt) (code : String) (w : World P) (p : MissionProof) (hash : String)
      → P.mission_proof.find_first (proves mission_id type) w.proofs ≡ some p
      → IsLoaded now user_id p hash
      → max_otp_attempts ≤ p.otp_attempts
      → verify b now mission_id type code user_id w
        ≡ (err (Exception.bad_request Reason.too_many_attempts), w)
  unfolding verify load_verifiable_proof
  verify-exhausted b code w p hash f l full = ground arith

module _ {P : Prisma} (b : Bcrypt) (now mission_id user_id : ℕ) where
  matched :
      (proof_id : ℕ) (hash code : String) (w : World P) (p : MissionProof) (m : Mission)
      → P.mission_proof.find_unique proof_id w.proofs ≡ some p
      → p.otp_used_at ≡ none
      → P.mission.find_unique mission_id w.missions ≡ some m
      → b.compare code hash ≡ true
      → let run =
          (check_otp_or_count_attempt b proof_id hash code >>= λ _.
          commit_proof now proof_id mission_id ProofType.pickup user_id)
            w in
        (is_ok run.0 ≡ true)
        × (P.mission.find_unique mission_id run.1.missions
            ≡ some (record m { status = MissionStatus.in_transit }))
  unfolding check_otp_or_count_attempt
  matched proof_id hash code w p m found unused fm right =
      let (good, moved) =
        commit_proof-IsPickedUp now proof_id mission_id user_id w p found unused m fm in
      rw right (good, moved.mission)

  -- A request loads a proof and its hash and passes every guard, that on the attempts included.
  -- Before it compares its code, which is right, wrong guesses of others use up the attempts, and
  -- nothing else in the row changes. The request still moves the mission, whereas the same request is
  -- refused for its attempts if it starts now.
  pub commit_proof-stale_attempts :
      (code hash : String) (before w : World P) (p : MissionProof) (attempts : ℕ) (m : Mission)
      → (load_verifiable_proof now mission_id ProofType.pickup user_id before).0 ≡ ok (p, hash)
      → P.mission_proof.find_first (proves mission_id ProofType.pickup) w.proofs
        ≡ some (record p { otp_attempts = attempts })
      → max_otp_attempts ≤ attempts
      → P.mission.find_unique mission_id w.missions ≡ some m
      → b.compare code hash ≡ true
      → let run =
          (check_otp_or_count_attempt b p.id hash code >>= λ _.
          commit_proof now p.id mission_id ProofType.pickup user_id)
            w in
        (is_ok run.0 ≡ true)
        × (P.mission.find_unique mission_id run.1.missions
            ≡ some (record m { status = MissionStatus.in_transit }))
        × (verify b now mission_id ProofType.pickup code user_id w
            ≡ (err (Exception.bad_request Reason.too_many_attempts), w))
  commit_proof-stale_attempts code hash before w p attempts m loaded f full fm right =
      let q : MissionProof = record p { otp_attempts = attempts } in
      let l =
        load_verifiable_proof-IsLoaded now mission_id ProofType.pickup user_id before loaded in
      let (_, found) = P.mission_proof.find_first-some _ w.proofs q f in
      let (good, moved) = matched p.id hash code w q m found l.unused fm right in
      (
        good,
        moved,
        verify-exhausted now mission_id ProofType.pickup user_id b code w q hash f
            (record { hashed = l.hashed; unused = l.unused; fresh = l.fresh; mine = l.mine }) full,
      )
