-- ===== src/Idempotency/Ports.antt =====
-- The deduping decorators of services/idempotency.py: reads pass, each write claims its key.

use brokerops.Models.Message.{semantic_send_args}
use brokerops.Models.Milestone.{FileRef}
use brokerops.Models.Contact.{Contact, CrmTask}
use brokerops.World.{Platform}
use brokerops.Ports.{IdempotencyStore, CrmPort, FilesPort, VoicePort, SendPort}
use brokerops.Audit.Args.{
  create_contact_args, add_note_args, create_task_args, log_call_args, file_write_args, call_args,
}
use brokerops.Idempotency.{Codec, text_codec, dedupe}

module _ (platform : Platform) (store : IdempotencyStore) where
  -- IdempotentCRM
  unfoldable pub idempotent_crm : Codec Contact → Codec CrmTask → CrmPort → CrmPort
  unfolding dedupe create_contact_args add_note_args create_task_args log_call_args
  idempotent_crm contacts tasks inner = record {
    get_contact = inner.get_contact;
    search_contacts = inner.search_contacts;
    create_contact = λ d.
        dedupe platform store contacts "create_contact" (create_contact_args d)
          (inner.create_contact d);
    add_note = λ id subject body.
        dedupe platform store text_codec "add_note" (add_note_args id subject body)
          (inner.add_note id subject body);
    create_task = λ name due id.
        dedupe platform store tasks "create_task" (create_task_args platform name due id)
          (inner.create_task name due id);
    log_call = λ id outcome note duration.
        dedupe platform store text_codec "log_call" (log_call_args id outcome note duration)
          (inner.log_call id outcome note duration);
  }

  -- IdempotentFiles
  unfoldable pub idempotent_files : Codec FileRef → FilesPort → FilesPort
  unfolding dedupe file_write_args
  idempotent_files refs inner = record {
    list = inner.list;
    get = inner.get;
    put = λ name content folder.
        dedupe platform store refs "put_file" (file_write_args platform name content folder)
          (inner.put name content folder);
  }

  -- IdempotentVoice
  unfoldable pub idempotent_voice : VoicePort → VoicePort
  unfolding dedupe call_args
  idempotent_voice inner = record {
    start_outbound_call = λ contact assistant context.
        dedupe platform store text_codec "start_outbound_call" (call_args contact assistant context)
          (inner.start_outbound_call contact assistant context);
    get_call = inner.get_call;
  }

  -- IdempotentEmail
  unfoldable pub idempotent_email : SendPort → SendPort
  unfolding dedupe semantic_send_args
  idempotent_email inner = record {
    send = λ m. dedupe platform store text_codec "send_email" (semantic_send_args m) (inner.send m);
  }

  -- IdempotentSMS
  unfoldable pub idempotent_sms : SendPort → SendPort
  unfolding dedupe semantic_send_args
  idempotent_sms inner = record {
    send = λ m. dedupe platform store text_codec "send_sms" (semantic_send_args m) (inner.send m);
  }
