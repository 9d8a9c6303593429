-- ===== src/Node/Store/Tests.antt =====
-- Runs of the store on two messages.
use dsh_link.Common.{◌≡◌, refl, true, false, Option, none, some, List, [], ◌∷◌, Text, codes}
use dsh_link.Node.Store.{Message, State, Store, is_read, ids_of, import_messages}
use dsh_link.Node.Store.Laws.{Distinct, import_messages_once}
use dsh_link.Node.Store.Reading.{Shared, marks, delivers, interleave, interleave_keeps_read}

abbrev message : Text → Message
message id = record {
  id = id;
  ts = codes "2026-01-01T00:00:00Z";
  thread = codes "t";
  from_name = codes "a";
  to = codes "b";
  via = [];
}

abbrev disk : State
disk = record { read = (codes "m1", codes "2026") ∷ []; delivery = [] }

abbrev store : Store
store = record { inbox = message (codes "m1") ∷ []; outbox = []; disk = disk; memory = none }

abbrev records : List Message
records = message (codes "m2") ∷ message (codes "m1") ∷ message (codes "m2") ∷ []

import_messages_once_example :
    let imported = (import_messages (codes "sync") records store).0 in
    Distinct (ids_of imported.inbox) × ((import_messages (codes "pull") records imported).1 ≡ [])
import_messages_once_example =
    import_messages_once (codes "sync") (codes "pull") records store (refl, tt)

abbrev shared : Shared
shared = record { first = store; second_memory = none }

interleave_keeps_read_example :
    is_read
      (interleave
        ((true, marks (codes "2027") (codes "m2" ∷ []))
          ∷ (false, delivers (codes "2028") (codes "m3") (codes "dropped"))
          ∷ [])
        shared).first.disk
      (codes "m1")
    ≡ true
unfolding dsh_link.Common.Dict.lookup dsh_link.Common.text_eq
interleave_keeps_read_example =
    interleave_keeps_read
      ((true, marks (codes "2027") (codes "m2" ∷ []))
        ∷ (false, delivers (codes "2028") (codes "m3") (codes "dropped"))
        ∷ [])
      shared (codes "m1") (refl, tt) tt tt (refl, (tt, tt)) refl
