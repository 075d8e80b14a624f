-- ===== src/Proofs/Guessing.antt =====
-- Guessing a code: the guards and the count of attempts of `verify` (src/proof/proof.service.ts).
use gp_connect_server.Common.{
  ℕ, ◌+◌, ◌≤◌, ◌<◌, ◌≡◌, refl, ap, ◌⊎◌, inl, inr, true, false, none, some, List, [], ◌∷◌, arith,
  ◌==◌, nat_eq, leb, length, String, Bool-cases,
}
use gp_connect_server.Schema.{MissionProof, ProofType, proof_type_eq}
use gp_connect_server.Prisma.{
  Prisma, World, AtMostOne, find_first_unique, AtMostOne-update_many, find_unique-updated,
}
use gp_connect_server.Handler.{Exception, Reason, err}
use gp_connect_server.Proofs.Codes.{Bcrypt}
use gp_connect_server.Proofs.Service.{
  proves, attempted, expired, reserved_for_other, max_otp_attempts, load_verifiable_proof,
  check_otp_or_count_attempt, verify,
}

-- None of the codes matches the hash.
abbrev pub AllWrong : Bcrypt → String → List String → Type 0
AllWrong b hash [] = Unit {0}
AllWrong b hash (code ∷ codes) = (b.compare code hash ≡ false) × AllWrong b hash codes

module _ {P : Prisma} (b : Bcrypt) (now mission_id : ℕ) (type : ProofType) (user_id : ℕ) where
  -- The row `p` carries a code that the user may enter: generated, unused, not expired and not
  -- reserved for another verifier. `missionId_type` is unique.
  pub record HasLiveCode (hash : String) (w : World P) (p : MissionProof) : Type 0 where
    pub only : AtMostOne P.mission_proof (proves mission_id type) w.proofs
    pub found : P.mission_proof.find_unique p.id w.proofs ≡ some p
    pub about : proves mission_id type p ≡ true
    pub hashed : p.otp_hash ≡ some hash
    pub unused : p.otp_used_at ≡ none
    pub fresh : expired now p.otp_expires_at ≡ false
    pub mine : reserved_for_other p.verified_by_id user_id ≡ false

  module _ (hash : String) (w : World P) (p : MissionProof) (live : HasLiveCode hash w p) where
    found_first : P.mission_proof.find_first (proves mission_id type) w.proofs ≡ some p
    found_first = find_first_unique P.mission_proof _ w.proofs p live.only live.found live.about

    -- A live code whose attempts are used up is refused, right or wrong, and nothing is written.
    pub verify-locked :
        (code : String)
        → max_otp_attempts ≤ p.otp_attempts
        → verify b now mission_id type code user_id w
          ≡ (err (Exception.bad_request Reason.too_many_attempts), w)
    unfolding verify load_verifiable_proof
    verify-locked code full = ground (arith, found_first, live)

    -- A wrong code against a live one is counted.
    pub verify-wrong :
        (code : String)
        → p.otp_attempts < max_otp_attempts
        → b.compare code hash ≡ false
        → verify b now mission_id type code user_id w ≡ (
          err (Exception.bad_request Reason.invalid_code),
          record w { proofs = P.mission_proof.update_many (λ q. q.id == p.id) attempted w.proofs },
        )
    unfolding verify load_verifiable_proof check_otp_or_count_attempt
    verify-wrong code few wrong = ground (arith, found_first, live)

    counted-HasLiveCode :
        HasLiveCode hash
          (record w { proofs = P.mission_proof.update_many (λ q. q.id == p.id) attempted w.proofs })
          (attempted p)
    counted-HasLiveCode = record {
      only =
          AtMostOne-update_many P.mission_proof (proves mission_id type) _ attempted w.proofs
            (λ x. refl) (λ x. refl) live.only;
      found = find_unique-updated P.mission_proof p.id attempted w.proofs p (λ x. refl) live.found;
      about = live.about;
      hashed = live.hashed;
      unused = live.unused;
      fresh = live.fresh;
      mine = live.mine;
    }

  -- The database after a series of entered codes.
  pub guess : List String → World P → World P
  guess [] w = w
  guess (code ∷ codes) w = guess codes (verify b now mission_id type code user_id w).1

  -- After wrong codes the row is still live, and each of them was counted up to the limit.
  guess-counts :
      (hash : String) (codes : List String) (w : World P) (p : MissionProof)
      → HasLiveCode hash w p
      → AllWrong b hash codes
      → (q : MissionProof) × HasLiveCode hash (guess codes w) q
        × ((max_otp_attempts ≤ q.otp_attempts) ⊎ (q.otp_attempts ≡ p.otp_attempts + length codes))
  unfolding guess
  guess-counts hash [] w p live wrong = (p, live, inr (omega arith))
  guess-counts hash (code ∷ codes) w p live wrong =
      elim (Bool-cases (leb max_otp_attempts p.otp_attempts)) [
        | inl full ↦
            let e = verify-locked hash w p live code (ground arith) in
            let (q, l, n) = guess-counts hash codes w p live wrong.1 in
            (q, rw (ap (λ r. r.1) e) l, ground arith)
        | inr few ↦
            let e = verify-wrong hash w p live code (ground arith) wrong.0 in
            let (q, l, n) =
              guess-counts hash codes
                (record w {
                  proofs = P.mission_proof.update_many (λ q. q.id == p.id) attempted w.proofs;
                })
                (attempted p) (counted-HasLiveCode hash w p live) wrong.1 in
            (q, rw (ap (λ r. r.1) e) l, ground arith)
      ]

  -- After five wrong codes even the right one is refused, and nothing is written.
  pub verify-after_guesses :
      (hash : String) (codes : List String) (code : String) (w : World P) (p : MissionProof)
      → HasLiveCode hash w p
      → AllWrong b hash codes
      → max_otp_attempts ≤ length codes
      → verify b now mission_id type code user_id (guess codes w)
        ≡ (err (Exception.bad_request Reason.too_many_attempts), guess codes w)
  verify-after_guesses hash codes code w p live wrong many =
      let (q, l, n) = guess-counts hash codes w p live wrong in
      verify-locked hash (guess codes w) q l code (omega arith)
