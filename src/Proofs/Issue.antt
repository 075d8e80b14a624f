-- ===== src/Proofs/Issue.antt =====
-- Issuing codes: `create` and `generateDeliveryCode` of src/proof/proof.service.ts.
use gp_connect_server.Common.{
  ℕ, ◌≡◌, refl, ap, subst, ◌⊎◌, inl, inr, Bool, true, false, Option, Option-cases, Bool-cases, none,
  some, String, List, arith, ◌==◌, nat_eq, nat_beq_iff, ◌||◌, List, ◌∷◌, if◌then◌else◌,
}
use gp_connect_server.Schema.{
  Mission, MissionStatus, mission_status_eq, mission_status_beq_iff, MissionProof, ProofType,
  proof_type_eq,
}
use gp_connect_server.Prisma.{Prisma, World, Effect, zero-cases, fresh_id, row-written}
use gp_connect_server.Handler.{ok, ◌>>=◌, pure, Handler}
use gp_connect_server.Handler.Inversion.{>>=-ok, read-ok}
use gp_connect_server.Proofs.Codes.{Otp}
use gp_connect_server.Proofs.Service.{
  ProofDto, proves, new_proof, renewed, DeliveryCode, create_proof, delivery_code_guards,
  send_to_recipient, generate_delivery_code,
}

-- A code that nobody has used or guessed at.
pub record IsLive (mission_id : ℕ) (type : ProofType) (otp : Otp) (p : MissionProof) : Type 0 where
  pub key : proves mission_id type p ≡ true
  pub hash : p.otp_hash ≡ some otp.hash
  pub expiry : p.otp_expires_at ≡ some otp.expires_at
  pub unused : p.otp_used_at ≡ none
  pub attempts : p.otp_attempts ≡ 0

new_proof-IsLive : (d : ProofDto) (otp : Otp) → IsLive d.mission_id d.type otp (new_proof d otp)
new_proof-IsLive d otp = record {
  key = ground arith;
  hash = refl;
  expiry = refl;
  unused = refl;
  attempts = refl;
}

renewed-IsLive :
    (mission_id : ℕ) (type : ProofType) (otp : Otp) (p : MissionProof)
    → proves mission_id type p ≡ true
    → IsLive mission_id type otp (renewed otp p)
renewed-IsLive mission_id type otp p k = record {
  key = k;
  hash = refl;
  expiry = refl;
  unused = refl;
  attempts = refl;
}

-- The code reached the recipient, or it did not and nothing was sent; the events before and after.
abbrev pub Delivered :
    (String → Bool) → Option String → Otp → List Effect → List Effect → Bool → Type 0
Delivered reaches phone otp before after sent =
    ((sent ≡ true)
      × ((number : String) × (phone ≡ some number)
          × (reaches number ≡ true)
          × (after ≡ Effect.delivery_code_sms number otp.plain otp.expires_at ∷ before)))
    ⊎ ((sent ≡ false) × (after ≡ before))

abbrev pub reply_of : Otp → Bool → DeliveryCode
reply_of otp sent = record {
  code = if sent then none else some otp.plain;
  expires_at = otp.expires_at;
  sent_to_recipient = sent;
}

module _ {P : Prisma} where
  -- Where a row of the mission and the type is there its counter and its use are forgotten.
  create_proof-IsLive :
      (d : ProofDto) (otp : Otp) (w : World P) {o : Otp}
      → (create_proof d otp w).0 ≡ ok o
      → let w' = (create_proof d otp w).1 in
        ((p : MissionProof) × (P.mission_proof.find_unique p.id w'.proofs ≡ some p)
          × IsLive d.mission_id d.type otp p)
        × (w' ≡ record w { proofs = w'.proofs })
  unfolding create_proof
  create_proof-IsLive d otp w h =
      let q = proves d.mission_id d.type in
      elim (Option-cases (P.mission_proof.find_first q w.proofs)) [
        | inr (p, e) ↦
            let (k, f) = P.mission_proof.find_first-some q w.proofs p e in
            let r =
              row-written P.mission_proof p.id q (renewed otp) w.proofs p (renewed otp p)
                (λ b. refl) f (ground arith) in
            (
              (renewed otp p, ground arith, renewed-IsLive d.mission_id d.type otp p k),
              ground arith,
            )
        | inl e ↦
            elim (zero-cases (P.mission_proof.count (λ p. p.id == d.new_id || q p) w.proofs)) [
              | inr n ↦ absurd (ground arith)
              | inl z ↦
                  let new = new_proof d otp in
                  let free = fresh_id P.mission_proof d.new_id q w.proofs z in
                  let r = P.mission_proof.find_unique-insert_self new w.proofs free in
                  ((new, ground arith, new_proof-IsLive d otp), ground arith)
            ]
      ]

  delivery_code_guards-world :
      (mission_id user_id : ℕ) (w : World P) → (delivery_code_guards mission_id user_id w).1 ≡ w
  unfolding delivery_code_guards
  delivery_code_guards-world mission_id user_id w = ground arith

  delivery_code_guards-ok :
      (mission_id user_id : ℕ) (w : World P) {r : Mission × ℕ}
      → (delivery_code_guards mission_id user_id w).0 ≡ ok r
      → (P.mission.find_unique mission_id w.missions ≡ some r.0)
        × (r.0.status ≡ MissionStatus.in_transit)
        × (r.0.shipper_id ≡ user_id)
        × (r.0.carrier_id ≡ some r.1)
  unfolding delivery_code_guards
  delivery_code_guards-ok mission_id user_id w {r} h =
      elim (Option-cases (P.mission.find_unique mission_id w.missions)) [
        | inl z ↦ absurd (ground arith)
        | inr (m, f) ↦ elim (Option-cases m.carrier_id) [
          | inl z ↦ absurd (ground arith)
          | inr (c, e) ↦
              let i = mission_status_beq_iff m.status MissionStatus.in_transit in
              let j = nat_beq_iff m.shipper_id user_id in
              let same : (m, c) ≡ r = ground arith in
              subst
                (λ (x : Mission × ℕ).
                  (P.mission.find_unique mission_id w.missions ≡ some x.0)
                  × (x.0.status ≡ MissionStatus.in_transit)
                  × (x.0.shipper_id ≡ user_id)
                  × (x.0.carrier_id ≡ some x.1))
                same (f, ground arith, ground arith, e)
        ]
      ]

  send_to_recipient-ok :
      (reaches : String → Bool) (phone : Option String) (otp : Otp) (w : World P)
      → (sent : Bool) × ((send_to_recipient reaches phone otp w).0 ≡ ok sent)
        × Delivered reaches phone otp w.effects
            (send_to_recipient reaches phone otp w).1.effects
            sent
        × ((send_to_recipient reaches phone otp w).1.proofs ≡ w.proofs)
  unfolding send_to_recipient
  send_to_recipient-ok reaches none otp w = (false, refl, inr (refl, refl), refl)
  send_to_recipient-ok reaches (some number) otp w = elim (Bool-cases (reaches number)) [
    | inl t ↦ (true, ground arith, inl (refl, (number, refl, t, ground arith)), ground arith)
    | inr t ↦ (false, ground arith, inr (refl, ground arith), ground arith)
  ]

  -- What issuing a delivery code did.
  pub record IsIssued (reaches : String → Bool) (otp : Otp) (mission_id user_id : ℕ)
      (w w' : World P) (r : DeliveryCode) : Type 0 where
    pub mission : Mission
    pub carrier_id : ℕ
    pub found : P.mission.find_unique mission_id w.missions ≡ some mission
    pub in_transit : mission.status ≡ MissionStatus.in_transit
    pub by_shipper : mission.shipper_id ≡ user_id
    pub has_carrier : mission.carrier_id ≡ some carrier_id
    pub live :
        (p : MissionProof) × (P.mission_proof.find_unique p.id w'.proofs ≡ some p)
        × IsLive mission_id ProofType.delivery otp p
    pub told :
        Delivered reaches mission.recipient_phone otp w.effects w'.effects r.sent_to_recipient
    pub reply : r.code ≡ (if r.sent_to_recipient then none else some otp.plain)

  -- The code is issued for.
  abbrev issue_to : Otp → ℕ → ℕ → Mission × ℕ → Handler P Otp
  issue_to otp new_id mission_id x =
      create_proof
        (record {
          new_id = new_id;
          mission_id = mission_id;
          type = ProofType.delivery;
          created_by_id = x.0.shipper_id;
          verified_by_id = x.1;
        })
        otp

  abbrev tell : (String → Bool) → Otp → Mission × ℕ → Handler P DeliveryCode
  tell reaches otp x = do
    sent ← send_to_recipient reaches x.0.recipient_phone otp
    pure (reply_of otp sent)

  tell-ok :
      (reaches : String → Bool) (otp : Otp) (x : Mission × ℕ) (w : World P) {r : DeliveryCode}
      → (tell reaches otp x w).0 ≡ ok r
      → Delivered reaches x.0.recipient_phone otp w.effects
          (tell reaches otp x w).1.effects
          r.sent_to_recipient
        × (r.code ≡ (if r.sent_to_recipient then none else some otp.plain))
        × ((tell reaches otp x w).1.proofs ≡ w.proofs)
  tell-ok reaches otp x w {r} h =
      let (sent, e, told, ps) = send_to_recipient-ok reaches x.0.recipient_phone otp w in
      let run : tell reaches otp x w
          ≡ (ok (reply_of otp sent), (send_to_recipient reaches x.0.recipient_phone otp w).1) =
        ground arith in
      let same : reply_of otp sent ≡ r = ground arith in
      subst
        (λ (y : DeliveryCode).
          Delivered reaches x.0.recipient_phone otp w.effects (tell reaches otp x w).1.effects
            y.sent_to_recipient
          × (y.code ≡ (if y.sent_to_recipient then none else some otp.plain))
          × ((tell reaches otp x w).1.proofs ≡ w.proofs))
        same (rw run (told, refl, ps))

  -- A delivery code that is issued is for a mission in transit with a carrier, at the request of its
  -- shipper. It is live: a code before it, its use and its failed attempts are forgotten. It goes to
  -- the recipient by SMS, or else to the shipper in the reply, and never to both.
  pub generate_delivery_code-IsIssued :
      (reaches : String → Bool) (otp : Otp) (new_id mission_id user_id : ℕ) (w : World P)
      {r : DeliveryCode}
      → (generate_delivery_code reaches otp new_id mission_id user_id w).0 ≡ ok r
      → IsIssued reaches otp mission_id user_id w
          (generate_delivery_code reaches otp new_id mission_id user_id w).1
          r
  unfolding generate_delivery_code
  generate_delivery_code-IsIssued reaches otp new_id mission_id user_id w {r} h =
      let issue = issue_to otp new_id mission_id in
      let rest = λ (x : Mission × ℕ). issue x >>= λ _. tell reaches otp x in
      let (x, passed, q, h1) =
        read-ok (delivery_code_guards mission_id user_id) rest w
          (delivery_code_guards-world mission_id user_id w) h in
      let (o, issued, q', h2) = >>=-ok (issue x) (λ _. tell reaches otp x) w h1 in
      let (f, s, y, c) = delivery_code_guards-ok mission_id user_id w passed in
      let ((p, fp, live), frame) = create_proof-IsLive _ otp w issued in
      let w1 = (issue x w).1 in
      let (told, reply, ps) = tell-ok reaches otp x w1 h2 in
      let es : w1.effects ≡ w.effects = ap (λ (v : World P). v.effects) frame in
      record {
        mission = x.0;
        carrier_id = x.1;
        found = f;
        in_transit = s;
        by_shipper = y;
        has_carrier = c;
        live = rw (q, q', ps) (p, fp, live);
        told =
            rw (q, q')
              (subst
                (λ before.
                  Delivered reaches x.0.recipient_phone otp before (tell reaches otp x w1).1.effects
                    r.sent_to_recipient)
                es told);
        reply = reply;
      }
