-- ===== src/Appointments/Service.antt =====
-- `updateStatus` of `AppointmentsService` (src/appointments/appointments.service.ts).
use gp_connect_server.Common.{ℕ, Option, ◌==◌, nat_eq, not, ◌&&◌}
use gp_connect_server.Schema.{
  MessageAppointment, AppointmentStatus, appointment_status_eq, Conversation,
}
use gp_connect_server.Prisma.{Prisma, Effect}
use gp_connect_server.Handler.{
  Handler, Exception, Reason, ◌>>=◌, ◌>>◌, pure, or_throw, throw_if, emit, find_unique, update_many,
  appointments, messages, conversations,
}

-- The outcomes that `UpdateAppointmentStatusDto` admits.
pub data Decision : Type 0 where
  accepted rejected : Decision

abbrev pub decided : Decision → AppointmentStatus
decided Decision.accepted = AppointmentStatus.accepted
decided Decision.rejected = AppointmentStatus.rejected

-- The appointment with its message's author and conversation, which the foreign keys provide.
pub record LoadedAppointment : Type 0 where
  pub appointment : MessageAppointment
  pub author_id : ℕ
  pub conversation : Conversation

abbrev pub with_status : AppointmentStatus → MessageAppointment → MessageAppointment
with_status s a = record a { status = s }

module _ {P : Prisma} where
  unfoldable pub load_appointment : ℕ → Handler P LoadedAppointment
  load_appointment id = do
    found ← find_unique appointments id
    appointment ← or_throw (Exception.not_found Reason.appointment_not_found) found
    carried ← find_unique messages appointment.id
    message ← or_throw Exception.record_not_found carried
    holds ← find_unique conversations message.conversation_id
    conversation ← or_throw Exception.record_not_found holds
    pure (record {
      appointment = appointment;
      author_id = message.author_id;
      conversation = conversation;
    })

  unfoldable pub decision_guards : ℕ → LoadedAppointment → Handler P (Unit {0})
  decision_guards user_id l = do
    throw_if (not (l.appointment.status == AppointmentStatus.pending))
        (Exception.bad_request Reason.appointment_not_pending)
    throw_if
        (not (user_id == l.conversation.shipper_id) && not (user_id == l.conversation.carrier_id))
        (Exception.forbidden Reason.unspecified)
    throw_if (l.author_id == user_id) (Exception.forbidden Reason.own_appointment)

  -- The write under the optimistic lock, and the event.
  unfoldable pub commit_decision : ℕ → ℕ → Decision → Handler P (Option MessageAppointment)
  commit_decision id conversation_id d = do
    n ←
        update_many appointments (λ a. a.id == id && a.status == AppointmentStatus.pending)
          (with_status (decided d))
    throw_if (n == 0) (Exception.bad_request Reason.appointment_not_pending)
    updated ← find_unique appointments id
    emit (Effect.appointment_updated updated conversation_id)
    pure updated

  unfoldable pub update_appointment : ℕ → ℕ → Decision → Handler P (Option MessageAppointment)
  update_appointment id user_id d = do
    loaded ← load_appointment id
    decision_guards user_id loaded
    commit_decision id loaded.conversation.id d
