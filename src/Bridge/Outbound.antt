-- ===== src/Bridge/Outbound.antt =====
-- integrations/dsh-link-bridge: `sentMessageFromResult` of lib/routes.js, and `recordOutbound` of
-- lib/index.js. What a text block holds as JSON is a parameter: the `message` of the object that
-- stands behind the first blank line and brace, if it can be read.
mod Tests
use dsh_link.Common.{
  ℕ, suc, ◌+◌, ◌≡◌, ◌≢◌, ◌≤◌, ◌∙◌, refl, Bool, true, false, not, ◌&&◌, ◌||◌, Option, none, some,
  List, [], ◌∷◌, ◌++◌, Text,
}
use dsh_link.Common.{
  is_empty, if◌then◌else◌, or_text, trim, after_prefix, is_some, codes, arith, length,
}
use dsh_link.Common.Int.{ℤ}
use dsh_link.Common.Dict.{insert}
use dsh_link.Common.Values.{Value, str}
use dsh_link.Bridge.Routes.{
  as_text, is_send_tool, RawRoutes, normalize_route_policy, Route, Table, register_route,
}

-- The properties of a message record that are read.
pub record Posted : Type 0 where
  pub id : Value
  pub thread : Value

-- A tool result: whether it is an error, the message of its structured content, its text blocks.
pub record ToolResult : Type 0 where
  pub is_error : Bool
  pub structured : Option Posted
  pub blocks : List Value

pub record Sent : Type 0 where
  pub id : Text
  pub thread : Text

-- The text behind the first blank line that a brace follows, with the brace.
unfoldable pub behind_gap : Text → Option Text
unfolding after_prefix
behind_gap [] = none
behind_gap (c ∷ s) =
    let later = behind_gap s in
    elim (after_prefix (10 ∷ 10 ∷ b'{' ∷ []) (c ∷ s)) as (λ o. Option Text) [
      | none ↦ later
      | some rest ↦ some (codes "{" ++ rest)
    ]

abbrev first_of : Option Posted → Option Posted → Option Posted
first_of none later = later
first_of (some m) later = some m

abbrev id_of : Option Posted → Text
id_of none = []
id_of (some m) = trim (as_text m.id)

abbrev thread_of : Option Posted → Text
thread_of none = []
thread_of (some m) = trim (as_text m.thread)

module _ (json_message : Text → Option Posted) where
  abbrev in_block : Option Text → Option Posted
  in_block none = none
  in_block (some json) = json_message json

  -- The loop over the blocks.
  unfoldable pub in_blocks : List Value → Option Posted
  unfolding behind_gap
  in_blocks [] = none
  in_blocks (block ∷ blocks) = first_of (in_block (behind_gap (as_text block))) (in_blocks blocks)

  -- `sentMessageFromResult`, with the `thread` argument of the call.
  unfoldable pub sent_message_from_result : ToolResult → Value → Option Sent
  unfolding in_blocks trim
  sent_message_from_result result argument =
      let message = first_of result.structured (in_blocks result.blocks) in
      let id = id_of message in
      let thread = or_text (or_text (thread_of message) (trim (as_text argument))) id in
      if is_empty thread then none else some (record { id = id; thread = thread })

  abbrev registered : Option Sent → Text → ℤ → Option RawRoutes → Table → Table
  registered none session now policy table = table
  registered (some sent) session now policy table =
      elim (register_route (some table) (str sent.thread) (str sent.id) (str session) now
        policy).0 [ none ↦ table | some table' ↦ table' ]

  -- `recordOutbound`: the table of routes behind one tool call of a session.
  unfoldable pub record_outbound :
      Option RawRoutes → Value → Text → Value → ToolResult → ℤ → Table → Table
  unfolding is_send_tool sent_message_from_result register_route normalize_route_policy
  record_outbound policy tool session argument result now table =
      if not (normalize_route_policy policy).enabled
        || not (is_send_tool tool)
        || result.is_error
        || is_empty session
      then table
      else registered (sent_message_from_result result argument) session now policy table
