-- ===== src/Comms/Sending/Account.antt =====
-- A provider that takes messages, and the account of what it took against the stored rows.
use brokerops.Base.{
  ℕ, ◌+◌, String, ◌≡◌, Bool, true, false, Option, none, some, List, [], ◌∷◌, ◌++◌, arith, eq_iff,
  ◌==◌, if◌then◌else◌,
}
use brokerops.Base.Dict.{Dict, lookup, insert, lookup-insert}
use brokerops.Models.Json.{Json, str}
use brokerops.Models.Message.{Message, is_sent}
use brokerops.Models.Drafting.{DraftContext, DraftedMessage}
use brokerops.World.{World, Effect, Result, ok, err}
use brokerops.Ports.{SendPort, DraftingPort}
use brokerops.Comms.Sending.{send_tool}

-- A message that the provider took.
unfoldable pub acceptance : Message → Effect
unfolding send_tool
acceptance m = record { run = ""; tool = send_tool m.channel; args = str m.id }

-- A provider: it takes a message or fails as it will, and what it took is what left the system.
unfoldable pub provider : (Message → World → Result String) → SendPort
unfolding acceptance
provider answer = record {
  send = λ m w. elim (answer m w) [
    | ok p ↦ (ok p, record w { effects = w.effects ++ acceptance m ∷ [] })
    | err e ↦ (err e, w)
  ];
}

-- A drafting backend: it drafts or fails as it will, and writes no row.
abbrev pub backend : (DraftContext → World → Result DraftedMessage) → DraftingPort
backend writes = record { draft = λ c w. (writes c w, w) }

abbrev names : String → Json → Bool
names id (str s) = s == id
names id _ = false

-- How often the provider took a message of this id.
unfoldable pub accepted : String → List Effect → ℕ
accepted id [] = 0
accepted id (e ∷ es) = (if names id e.args then 1 else 0) + accepted id es

pub accepted-append :
    (id : String) (es : List Effect) (e : Effect)
    → accepted id (es ++ e ∷ []) ≡ accepted id es + (if names id e.args then 1 else 0)
unfolding accepted
accepted-append id [] e = omega arith
accepted-append id (x ∷ es) e = omega (arith, accepted-append id es e)

-- 1 for a row that counts as sent.
abbrev pub sent_count : Option Message → ℕ
sent_count none = 0
sent_count (some m) = if is_sent m.status then 1 else 0

-- The provider took the message as often as its row says, once or never, and each row is at its id.
abbrev pub IsAccounted : String → Dict Message → List Effect → Type 0
IsAccounted k ms es =
    (accepted k es ≡ sent_count (lookup k ms))
    × ((j : String) (m : Message) → lookup j ms ≡ some m → m.id ≡ j)

insert-keyed :
    (ms : Dict Message) (m : Message)
    → ((j : String) (n : Message) → lookup j ms ≡ some n → n.id ≡ j)
    → (j : String) (n : Message) → lookup j (insert m.id m ms) ≡ some n
    → n.id ≡ j
insert-keyed ms m h j n e = ground (arith, h j n, lookup-insert m.id j m ms, eq_iff m.id j)

pub insert-IsAccounted :
    (k : String) (ms : Dict Message) (es : List Effect) (m : Message)
    → IsAccounted k ms es
    → (m.id ≡ k → accepted k es ≡ sent_count (some m))
    → IsAccounted k (insert m.id m ms) es
insert-IsAccounted k ms es m h c =
    (ground (arith, h.0, c, lookup-insert m.id k m ms, eq_iff m.id k), insert-keyed ms m h.1)

pub accept-IsAccounted :
    (k : String) (ms : Dict Message) (es : List Effect) (m : Message) (e : Effect)
    → IsAccounted k ms es
    → is_sent m.status ≡ true
    → e.args ≡ str m.id
    → (m.id ≡ k → accepted k es ≡ 0)
    → IsAccounted k (insert m.id m ms) (es ++ e ∷ [])
accept-IsAccounted k ms es m e h s a c = (
  ground (arith, h.0, c, lookup-insert m.id k m ms, eq_iff m.id k, accepted-append k es e, s, a),
  insert-keyed ms m h.1,
)
