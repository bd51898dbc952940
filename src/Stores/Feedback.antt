-- ===== src/Stores/Feedback.antt =====
-- InMemoryFeedbackStore.
use brokerops.Base.{String, Option, List, ◌==◌}
use brokerops.Base.Lists.{keep}
use brokerops.Base.Dict.{lookup, insert, values}
use brokerops.Models.Records.{CallRecord, ShowingFeedback}
use brokerops.World.{Exec, ok, gets, modify}
use brokerops.Ports.{FeedbackStore}

unfoldable pub save_call_record : CallRecord → Exec (Unit {0})
unfolding insert
save_call_record r =
    modify (λ w. record w { call_records = insert r.vapi_call_id r w.call_records })

unfoldable pub get_call_record : String → Exec (Option CallRecord)
unfolding lookup
get_call_record id = gets (λ w. lookup id w.call_records)

unfoldable pub upsert_feedback : ShowingFeedback → Exec String
unfolding insert
upsert_feedback f w = (ok f.id, record w { feedback = insert f.id f w.feedback })

unfoldable pub get_feedback : String → Exec (Option ShowingFeedback)
unfolding lookup
get_feedback id = gets (λ w. lookup id w.feedback)

unfoldable pub list_feedback : String → Exec (List ShowingFeedback)
unfolding values
list_feedback key =
    gets (λ w. keep (λ (f : ShowingFeedback). f.listing_key == key) (values w.feedback))

abbrev pub feedback_store : FeedbackStore
feedback_store = record {
  save_call_record = save_call_record;
  get_call_record = get_call_record;
  upsert_feedback = upsert_feedback;
  get_feedback = get_feedback;
  list_feedback = list_feedback;
}
