-- ===== src/Fault.antt =====
-- utils/error.js, the database's error codes, and the messages of config/system_messages.js that
-- the modelled services throw.

-- systemMessages.ERROR, by section and key; a text that a service writes out stands under the
-- service's name.
pub data Message : Type 0 where
  auth_unauthorized auth_forbidden auth_refresh_revoked auth_refresh_invalid : Message
  auth_invalid_credentials auth_already_exists auth_account_suspended : Message
  auth_google_state_invalid auth_google_oauth_failed auth_google_email_not_verified : Message
  auth_current_password_invalid auth_otp_invalid auth_reset_token_invalid
        auth_verify_token_invalid :
      Message
  event_not_found event_unauthorized event_not_draft event_not_published : Message
  event_cannot_cancel_draft event_already_cancelled : Message
  checkin_not_authorized checkin_scan_in_progress checkin_not_found : Message
  checkin_undo_not_authorized checkin_undo_window_expired : Message
  checkin_invalid_qr checkin_qr_expired checkin_qr_revoked checkin_event_mismatch : Message
  checkin_registration_not_confirmed checkin_duplicate checkin_success : Message
  registration_not_open registration_capacity_exceeded registration_paid_event : Message
  registration_invalid_ticket_type registration_paid_ticket_type : Message
  registration_ticket_type_full registration_duplicate : Message
  validation_name_required validation_invalid_email : Message
  staff_already_assigned staff_not_found staff_privileged : Message
  general_not_found ticket_type_has_registrations : Message
  slug_retries registration_not_found : Message
  import_event_not_found import_no_access import_ticket_type_full import_batch_not_found : Message
  import_name_required import_email_required import_email_too_long import_malformed_email : Message
  import_file_empty import_not_open import_invalid_ticket_type import_type_sold_out
        import_already_registered :
      Message
  ticket_already_exists ticket_invalid_qr ticket_expired ticket_revoked : Message
  notification_not_found export_unsupported_format : Message
  admin_cannot_deactivate_self admin_user_not_found admin_cannot_modify_self : Message
  admin_invite_invalid admin_invite_already_admin admin_user_already_exists : Message

-- What a service can throw: the subclasses of `AppError`, a plain `Error`, and the codes of the
-- Prisma client that the services test for (P2002, P2003, P2025).
pub data Fault : Type 0 where
  not_found bad_request conflict unauthorized forbidden validation plain : Message → Fault
  unique_violation foreign_key_violation record_missing : Fault
