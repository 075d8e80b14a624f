-- ===== src/Appointments/Laws.antt =====
-- Decisions on appointments.
use gp_connect_server.Common.{
  ℕ, ◌≡◌, refl, ◌≢◌, inl, inr, Option, some, true, false, arith, ◌||◌, ◌&&◌, ◌==◌, nat_eq,
  Option-cases,
}
use gp_connect_server.Schema.{
  MessageAppointment, AppointmentStatus, appointment_status_eq, appointment_status_beq_iff,
  Conversation, Message,
}
use gp_connect_server.Prisma.{Prisma, World, lock-cases, find_unique-locked}
use gp_connect_server.Handler.{Exception, Reason, ok, err, ◌>>=◌}
use gp_connect_server.Handler.Inversion.{read-ok, >>=-ok}
use gp_connect_server.Appointments.Service.{
  Decision, decided, LoadedAppointment, with_status, load_appointment, decision_guards,
  commit_decision, update_appointment,
}

decided-final : (d : Decision) → decided d ≢ AppointmentStatus.pending
decided-final Decision.accepted h = ground arith
decided-final Decision.rejected h = ground arith

module _ {P : Prisma} where
  load_appointment-world : (id : ℕ) (w : World P) → (load_appointment id w).1 ≡ w
  unfolding load_appointment
  load_appointment-world id w = ground arith

  -- The row that a load returns is the stored one, and so are its message's author and conversation.
  load_appointment-ok :
      (id : ℕ) (w : World P) {l : LoadedAppointment}
      → (load_appointment id w).0 ≡ ok l
      → (m : Message) × (P.message_appointment.find_unique id w.appointments ≡ some l.appointment)
        × (P.message.find_unique l.appointment.id w.messages ≡ some m)
        × (P.conversation.find_unique m.conversation_id w.conversations ≡ some l.conversation)
        × (m.author_id ≡ l.author_id)
  unfolding load_appointment
  load_appointment-ok id w h =
      elim (Option-cases (P.message_appointment.find_unique id w.appointments)) [
        | inl z ↦ absurd (ground arith)
        | inr (a, e) ↦ elim (Option-cases (P.message.find_unique a.id w.messages)) [
          | inl z ↦ absurd (ground arith)
          | inr (m, e') ↦
              elim (Option-cases (P.conversation.find_unique m.conversation_id w.conversations)) [
                | inl z ↦ absurd (ground arith)
                | inr (c, e'') ↦ (m, ground arith, ground arith, ground arith, ground arith)
              ]
        ]
      ]

  decision_guards-ok :
      (user_id : ℕ) (l : LoadedAppointment) (w : World P)
      → (decision_guards user_id l w).0 ≡ ok tt
      → ((decision_guards user_id l w).1 ≡ w)
        × (l.appointment.status ≡ AppointmentStatus.pending)
        × ((user_id == l.conversation.shipper_id || user_id == l.conversation.carrier_id) ≡ true)
        × ((l.author_id == user_id) ≡ false)
  unfolding decision_guards
  decision_guards-ok user_id l w h =
      let i = appointment_status_beq_iff l.appointment.status AppointmentStatus.pending in
      ground arith

  -- A decision that is written found the appointment pending.
  commit_decision-ok :
      (id conversation_id : ℕ) (d : Decision) (w : World P) {r : Option MessageAppointment}
      → (commit_decision id conversation_id d w).0 ≡ ok r
      → (a : MessageAppointment) × (P.message_appointment.find_unique id w.appointments ≡ some a)
        × (a.status ≡ AppointmentStatus.pending)
        × (P.message_appointment.find_unique id
              (commit_decision id conversation_id d w).1.appointments
            ≡ some (with_status (decided d) a))
        × (r ≡ some (with_status (decided d) a))
  unfolding commit_decision
  commit_decision-ok id conversation_id d w h =
      let q = λ (a : MessageAppointment). a.status == AppointmentStatus.pending in
      elim (lock-cases P.message_appointment id q w.appointments) [
        | inl z ↦ absurd (ground arith)
        | inr (n, (a, f, k, p)) ↦
            let f' =
              find_unique-locked P.message_appointment id q (with_status (decided d)) w.appointments
                a (λ b. refl) f p in
            (
              a,
              f,
              (appointment_status_beq_iff a.status AppointmentStatus.pending).0 p,
              ground (arith, f'),
              ground (arith, f'),
            )
      ]

  commit_decision-closed :
      (id conversation_id : ℕ) (d : Decision) (w : World P) (a : MessageAppointment)
      → P.message_appointment.find_unique id w.appointments ≡ some a
      → a.status ≢ AppointmentStatus.pending
      → commit_decision id conversation_id d w
        ≡ (err (Exception.bad_request Reason.appointment_not_pending), w)
  unfolding commit_decision
  commit_decision-closed id conversation_id d w a f ne =
      elim (lock-cases P.message_appointment id (λ x. x.status == AppointmentStatus.pending)
        w.appointments) [
          | inl z ↦
              let same =
                P.message_appointment.update_many-none
                  (λ x. x.id == id && x.status == AppointmentStatus.pending)
                  (with_status (decided d)) w.appointments z in
              ground arith
          | inr (n, (y, f', k, q)) ↦
              absurd (ground (arith, appointment_status_beq_iff y.status AppointmentStatus.pending))
        ]

  -- Two decisions on one appointment: once the first is written, the second is refused and writes
  -- nothing, whatever it checked before.
  pub commit_decision-once :
      (id c c' : ℕ) (d d' : Decision) (w : World P) {r : Option MessageAppointment}
      → (commit_decision id c d w).0 ≡ ok r
      → let w' = (commit_decision id c d w).1 in
        commit_decision id c' d' w'
        ≡ (err (Exception.bad_request Reason.appointment_not_pending), w')
  commit_decision-once id c c' d d' w h =
      let (a, f, p, f', e) = commit_decision-ok id c d w h in
      commit_decision-closed id c' d' (commit_decision id c d w).1 (with_status (decided d) a) f'
        (decided-final d)

  -- What a decision did.
  pub record IsDecided (id user_id : ℕ) (d : Decision) (w w' : World P) : Type 0 where
    pub appointment : MessageAppointment
    pub message : Message
    pub conversation : Conversation
    pub found : P.message_appointment.find_unique id w.appointments ≡ some appointment
    pub carried : P.message.find_unique appointment.id w.messages ≡ some message
    pub held :
        P.conversation.find_unique message.conversation_id w.conversations ≡ some conversation
    pub was_pending : appointment.status ≡ AppointmentStatus.pending
    pub party : (user_id == conversation.shipper_id || user_id == conversation.carrier_id) ≡ true
    pub not_author : (message.author_id == user_id) ≡ false
    pub stored :
        P.message_appointment.find_unique id w'.appointments
        ≡ some (with_status (decided d) appointment)

  -- A decision that succeeds was made on a pending appointment, by a party of its conversation that
  -- is not its author, and is what the row shows afterwards.
  pub update_appointment-ok :
      (id user_id : ℕ) (d : Decision) (w : World P) {r : Option MessageAppointment}
      → (update_appointment id user_id d w).0 ≡ ok r
      → IsDecided id user_id d w (update_appointment id user_id d w).1
  unfolding update_appointment
  update_appointment-ok id user_id d w h =
      let commit = λ (l : LoadedAppointment). commit_decision id l.conversation.id d in
      let (l, loaded, q, h') =
        read-ok (load_appointment id) (λ l. decision_guards user_id l >>= λ _. commit l) w
          (load_appointment-world id w) h in
      let (u, guarded, q', h'') = >>=-ok (decision_guards user_id l) (λ _. commit l) w h' in
      let (same, pending, party, author) = decision_guards-ok user_id l w guarded in
      let (a, f, p, f', e) = commit_decision-ok id l.conversation.id d w (rw same at h'') in
      let (m, fa, fm, fc, am) = load_appointment-ok id w loaded in
      record {
        appointment = l.appointment;
        message = m;
        conversation = l.conversation;
        found = fa;
        carried = fm;
        held = fc;
        was_pending = pending;
        party = party;
        not_author = ground arith;
        stored = rw (q, q', same) (ground (arith, f'));
      }
