-- ===== src/Node/Mcp/Tests.antt =====
-- A batch of a call, a notice and a value that is no object.
use dsh_link.Common.{ℕ, suc, ◌≡◌, Option, none, some, List, [], ◌∷◌, map, Text, codes}
use dsh_link.Common.Int.{pos}
use dsh_link.Common.Values.{num}
use dsh_link.Node.Mcp.{Message, ToolResult, done_tool, handle_batch}
use dsh_link.Node.Mcp.Laws.{answered_ids, map-handle_batch}

abbrev message : Option ℕ → Text → Message ℕ
message id method = record {
  id = elim id [ none ↦ none | some n ↦ some (num (pos n)) ];
  method = method;
  protocol_version = none;
  tool = some (codes "link_help");
  arguments = 5;
}

abbrev count : Text → ℕ → ℕ → ℕ × ToolResult ℕ
count name arguments w = (suc w, done_tool arguments)

abbrev messages : List (Option (Message ℕ))
messages =
    some (message (some 1) (codes "tools/call"))
    ∷ some (message none (codes "notifications/initialized"))
    ∷ none
    ∷ []

map-handle_batch_example : map (λ r. r.id) (handle_batch count messages 0).1 ≡ answered_ids messages
map-handle_batch_example = map-handle_batch count messages 0
