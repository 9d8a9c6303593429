-- ===== src/Node/Mcp.antt =====
-- src/mcp.mjs and src/server.mjs: JSON-RPC over `/mcp`. The tools are a parameter, and what is sent
-- back is described by what it holds.
pub mod Laws
mod Tests
use dsh_link.Common.{
  ℕ, Bool, true, false, not, ◌||◌, Option, none, some, List, [], ◌∷◌, Text, text_eq, ◌==◌,
}
use dsh_link.Common.{if◌then◌else◌, any, codes, is_some}
use dsh_link.Common.Int.{ℤ, negsuc}
use dsh_link.Common.Values.{Value}

-- A message that is an object: `none` for an id that is missing or null, the tool and the version that
-- its parameters name, where they are texts.
pub record Message (A : Type 0) : Type 0 where
  pub id : Option Value
  pub method : Text
  pub protocol_version : Option Text
  pub tool : Option Text
  pub arguments : A

-- What a tool does: its result, the error `unknown_tool`, or another error.
pub data ToolResult (R : Type 0) : Type 0 where
  done_tool : R → ToolResult R
  unknown_tool failed_tool : ToolResult R

-- What `ok` and `fail` are called with.
pub data Reply (R : Type 0) : Type 0 where
  initialized : Text → Reply R
  pong tools no_resources no_prompts tool_error : Reply R
  tool_result : R → Reply R
  failure : ℤ → Reply R

-- A response, with the id that it answers; `none` for null.
pub record Response (R : Type 0) : Type 0 where
  pub id : Option Value
  pub reply : Reply R

-- `MCP_PROTOCOL_VERSIONS`
abbrev pub versions : List Text
versions =
    codes "2025-11-25"
    ∷ codes "2025-06-18"
    ∷ codes "2025-03-26"
    ∷ codes "2024-11-05"
    ∷ codes "2024-10-07"
    ∷ []

abbrev pub agreed_version : Option Text → Text
agreed_version none = codes "2025-06-18"
agreed_version (some v) = if any (λ w. w == v) versions then v else codes "2025-06-18"

-- The methods that are not answered.
abbrev pub is_notice : Text → Bool
is_notice method =
    method == codes "notifications/initialized"
    || method == codes "notifications/cancelled"
    || method == codes "notifications/roots/list_changed"

module _ {R W : Type 0} where
  abbrev pub called : W × ToolResult R → W × Option (Reply R)
  called (w, done_tool r) = (w, some (tool_result r))
  called (w, unknown_tool) = (w, some (failure (negsuc 32601)))
  called (w, failed_tool) = (w, some tool_error)

  abbrev pub wanted : Option Value → W × Option (Reply R) → W × Option (Response R)
  wanted none (w, reply) = (w, none)
  wanted (some id) (w, none) = (w, none)
  wanted (some id) (w, some reply) = (w, some (record { id = some id; reply = reply }))

module _ {R : Type 0} where
  abbrev pub with_response : Option (Response R) → List (Response R) → List (Response R)
  with_response none responses = responses
  with_response (some r) responses = r ∷ responses

module _ {A R W : Type 0} where
  -- The reply to a method, before it is known whether it is wanted.
  unfoldable pub reply_to : (Text → A → W → W × ToolResult R) → Message A → W → W × Option (Reply R)
  unfolding text_eq
  reply_to call_tool m w =
      if m.method == codes "initialize"
      then (w, some (initialized (agreed_version m.protocol_version)))
      else if is_notice m.method
      then (w, none)
      else if m.method == codes "ping"
      then (w, some pong)
      else if m.method == codes "tools/list"
      then (w, some tools)
      else if m.method == codes "tools/call"
      then elim m.tool [
        | none ↦ (w, some (failure (negsuc 32601)))
        | some name ↦ called (call_tool name m.arguments w)
      ]
      else if m.method == codes "resources/list"
      then (w, some no_resources)
      else if m.method == codes "prompts/list"
      then (w, some no_prompts)
      else (w, some (failure (negsuc 32600)))

  -- `handleMcpMessage`; `none` is a message that is no object.
  unfoldable pub handle_mcp_message :
      (Text → A → W → W × ToolResult R) → Option (Message A) → W → W × Option (Response R)
  unfolding reply_to
  handle_mcp_message call_tool none w =
      (w, some (record { id = none; reply = failure (negsuc 32599) }))
  handle_mcp_message call_tool (some m) w = wanted m.id (reply_to call_tool m w)

  -- The loop over the messages of `POST /mcp`.
  unfoldable pub handle_batch :
      (Text → A → W → W × ToolResult R) → List (Option (Message A)) → W → W × List (Response R)
  unfolding handle_mcp_message
  handle_batch call_tool [] w = (w, [])
  handle_batch call_tool (m ∷ messages) w =
      let (w1, response) = handle_mcp_message call_tool m w in
      let (w2, responses) = handle_batch call_tool messages w1 in
      (w2, with_response response responses)

-- What `POST /mcp` sends: 202 with nothing, one response, or a list where a list was sent.
pub data Sent (R : Type 0) : Type 0 where
  nothing : Sent R
  single : Response R → Sent R
  batch : List (Response R) → Sent R

module _ {R : Type 0} where
  abbrev pub sent_of : Bool → List (Response R) → Sent R
  sent_of is_list [] = nothing
  sent_of is_list (r ∷ responses) = if is_list then batch (r ∷ responses) else single r

module _ {A R W : Type 0} where
  -- `POST /mcp`, of a list or of one message.
  unfoldable pub post_mcp :
      (Text → A → W → W × ToolResult R) → Bool → List (Option (Message A)) → W → W × Sent R
  unfolding handle_batch
  post_mcp call_tool is_list messages w =
      let (w', responses) = handle_batch call_tool messages w in (w', sent_of is_list responses)
