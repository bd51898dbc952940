-- ===== src/Stores/Documents.antt =====
-- InMemoryDocumentStore.
use brokerops.Base.{String, Bool, Option, List, ◌==◌, leb, is_some, if◌then◌else◌}
use brokerops.Base.Lists.{keep}
use brokerops.Base.Dict.{lookup, insert, values}
use brokerops.Base.Sort.{sort_by}
use brokerops.Models.Milestone.{Document}
use brokerops.World.{Exec, ok, err, document_already_exists, gets}
use brokerops.Ports.{DocumentStore}

unfoldable pub add : Document → Exec (Unit {0})
unfolding lookup insert
add d w =
    if is_some (lookup d.id w.documents)
    then (err (document_already_exists d.id), w)
    else (ok tt, record w { documents = insert d.id d w.documents })

unfoldable pub get : String → Exec (Option Document)
unfolding lookup
get id = gets (λ w. lookup id w.documents)

unfoldable pub oldest_first : Document → Document → Bool
oldest_first a b = leb a.created_at b.created_at

unfoldable pub list_for_transaction : String → Exec (List Document)
unfolding values oldest_first sort_by
list_for_transaction transaction_id = gets (λ w.
    sort_by oldest_first
      (keep (λ (d : Document). d.transaction_id == transaction_id) (values w.documents)))

abbrev pub document_store : DocumentStore
document_store = record { add = add; get = get; list_for_transaction = list_for_transaction }
