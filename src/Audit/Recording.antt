-- ===== src/Audit/Recording.antt =====
-- The recording decorators of services/audit.py, over any inner port and any ledger.
pub mod Laws
use brokerops.Base.{ℕ, String, Option, List}
use brokerops.Base.Int.{ℤ}
use brokerops.Models.Json.{Json}
use brokerops.Models.Message.{Message}
use brokerops.Models.Milestone.{FileRef}
use brokerops.Models.Contact.{Contact, ContactCreate, CrmTask}
use brokerops.World.{Platform, Exec}
use brokerops.Ports.{AuditLog, CrmPort, FilesPort, VoicePort, SendPort}
use brokerops.Audit.{recorded}
use brokerops.Audit.Args.{
  create_contact_args, add_note_args, create_task_args, log_call_args, file_write_args, call_args,
  send_args,
}

module _ (platform : Platform) (audit : AuditLog) where
  -- RecordingCRM, whose integration is the wired vendor.
  unfoldable pub recording_crm : CrmPort → String → CrmPort
  unfolding recorded create_contact_args add_note_args create_task_args log_call_args
  recording_crm inner vendor = record {
    get_contact = inner.get_contact;
    search_contacts = inner.search_contacts;
    create_contact = λ d.
        recorded platform audit vendor "create_contact" (create_contact_args d)
          (λ (c : Contact). c.crm_id) (inner.create_contact d);
    add_note = λ id subject body.
        recorded platform audit vendor "add_note" (add_note_args id subject body) (λ n. n)
          (inner.add_note id subject body);
    create_task = λ name due id.
        recorded platform audit vendor "create_task" (create_task_args platform name due id)
          (λ (t : CrmTask). t.id) (inner.create_task name due id);
    log_call = λ id outcome note duration.
        recorded platform audit vendor "log_call" (log_call_args id outcome note duration) (λ n. n)
          (inner.log_call id outcome note duration);
  }

  -- RecordingFiles
  unfoldable pub recording_files : FilesPort → String → FilesPort
  unfolding recorded file_write_args
  recording_files inner integration = record {
    list = inner.list;
    get = inner.get;
    put = λ name content folder.
        recorded platform audit integration "put_file"
          (file_write_args platform name content folder) (λ (f : FileRef). f.file_id)
          (inner.put name content folder);
  }

  -- RecordingVoice
  unfoldable pub recording_voice : VoicePort → VoicePort
  unfolding recorded call_args
  recording_voice inner = record {
    start_outbound_call = λ contact assistant context.
        recorded platform audit "vapi" "start_outbound_call" (call_args contact assistant context)
          (λ n. n) (inner.start_outbound_call contact assistant context);
    get_call = inner.get_call;
  }

  -- RecordingEmail
  unfoldable pub recording_email : SendPort → SendPort
  unfolding recorded send_args
  recording_email inner = record {
    send = λ m.
        recorded platform audit "email" "send_email" (send_args platform m) (λ n. n) (inner.send m);
  }

  -- RecordingSMS
  unfoldable pub recording_sms : SendPort → SendPort
  unfolding recorded send_args
  recording_sms inner = record {
    send = λ m.
        recorded platform audit "twilio_sms" "send_sms" (send_args platform m) (λ n. n)
          (inner.send m);
  }
