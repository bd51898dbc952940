-- ===== src/Audit/Args.antt =====
-- The argument snapshots of the writes, shared by the ledger and by the idempotency keys.
use brokerops.Base.{ℕ, String, Option, none, some, List}
use brokerops.Base.Int.{ℤ, pos}
use brokerops.Base.Lists.{length}
use brokerops.Models.Json.{Json, null, int, str, obj, end, field}
use brokerops.Models.Message.{Message, channel_value}
use brokerops.Models.Contact.{ContactCreate}
use brokerops.World.{Platform}

abbrev pub opt_str : Option String → Json
opt_str none = null
opt_str (some s) = str s

-- `{"draft": draft.model_dump(mode="json")}`
unfoldable pub create_contact_args : ContactCreate → Json
create_contact_args d = obj (
    field "draft"
      (obj (
        field "first_name" (str d.first_name) (
          field "last_name" (str d.last_name) (
            field "email" (opt_str d.email)
              (field "phone" (opt_str d.phone) (field "source" (str d.source) end))))))
      end)

unfoldable pub add_note_args : String → String → String → Json
add_note_args contact_id subject body = obj (
    field "contact_id" (str contact_id)
      (field "subject" (str subject) (field "body" (str body) end)))

unfoldable pub create_task_args : Platform → String → ℕ → Option String → Json
create_task_args platform name due_date contact_id = obj (
    field "name" (str name) (
      field "due_date" (str (platform.iso_date due_date))
        (field "contact_id" (opt_str contact_id) end)))

unfoldable pub log_call_args : String → String → String → ℤ → Json
log_call_args contact_id outcome note duration = obj (
    field "contact_id" (str contact_id) (
      field "outcome" (str outcome)
        (field "note" (str note) (field "duration_seconds" (int duration) end))))

-- Never the bytes of a file: only their digest and number.
unfoldable pub file_write_args : Platform → String → List ℕ → String → Json
file_write_args platform name content folder = obj (
    field "name" (str name) (
      field "folder" (str folder) (
        field "content_sha256" (str (platform.content_digest content))
          (field "size_bytes" (int (pos (length content))) end))))

unfoldable pub call_args : String → String → Json → Json
call_args contact_id assistant_id context = obj (
    field "contact_id" (str contact_id)
      (field "assistant_id" (str assistant_id) (field "context" context end)))

abbrev opt_time : Platform → Option ℕ → Json
opt_time platform none = null
opt_time platform (some t) = str (platform.iso_datetime t)

-- The message without its status, provider id, time of sending and body.
unfoldable pub send_args : Platform → Message → Json
unfolding channel_value
send_args platform m = obj (
    field "id" (str m.id) (
      field "tenant_id" (str m.tenant_id) (
        field "channel" (str (channel_value m.channel)) (
          field "recipient" (str m.recipient) (
            field "subject" (str m.subject) (
              field "template_ref" (str m.template_ref) (
                field "contact_id" (str m.contact_id) (
                  field "listing_key" (str m.listing_key) (
                    field "transaction_id" (str m.transaction_id)
                      (field "created_at" (opt_time platform m.created_at) end))))))))))
