-- ===== src/Node/Server/Routes.antt =====
-- src/server.mjs: `compileRoute` and the table of the routes.
use dsh_link.Common.{
  Bool, true, false, Option, none, some, List, [], ◌∷◌, ◌++◌, map, Text, text_eq, ◌==◌,
}
use dsh_link.Common.{is_empty, if◌then◌else◌, codes, split, eqb}

-- A segment of a pattern.
pub data Segment : Type 0 where
  literal : Text → Segment
  param : Text → Segment

abbrev pub compile_segment : Text → Segment
compile_segment [] = literal []
compile_segment (c ∷ s) = if eqb c b':' then param s else literal (c ∷ s)

-- `compileRoute`
unfoldable pub compile_route : Text → List Segment
unfolding split
compile_route pattern = map compile_segment (split b'/' pattern)

abbrev pub Params : Type 0
Params = List (Text × Text)

abbrev pub with_param : Text → Text → Option Params → Option Params
with_param name value none = none
with_param name value (some params) = some ((name, value) ∷ params)

-- The match of the pattern with the segments of a path; a slash may stand at the end.
unfoldable pub match_path : List Segment → List Text → Option Params
match_path [] [] = some []
match_path [] (s ∷ []) = if is_empty s then some [] else none
match_path [] (s ∷ (t ∷ ss)) = none
match_path (p ∷ ps) [] = none
match_path (literal l ∷ ps) (s ∷ ss) = let rest = match_path ps ss in if l == s then rest else none
match_path (param name ∷ ps) (s ∷ ss) =
    let rest = match_path ps ss in if is_empty s then none else with_param name s rest

-- The handlers, by their routes.
pub data Handler : Type 0 where
  on_healthz on_info on_peers on_status on_post_message on_messages on_message on_mark_messages
        on_mark_message on_outbox on_files on_stat on_hash on_download on_upload on_audit
        on_workspaces on_sessions on_session on_transcript on_capabilities on_call on_call_result
        on_bridge_status on_bridge_commands on_bridge_result on_bridge_heartbeat on_post_mcp
        on_get_mcp on_delete_mcp :
      Handler

-- The handlers that call `requireLoopback`.
abbrev pub is_bridge : Handler → Bool
is_bridge on_bridge_status = true
is_bridge on_bridge_commands = true
is_bridge on_bridge_result = true
is_bridge on_bridge_heartbeat = true
is_bridge _ = false

pub record Route : Type 0 where
  pub method : Text
  pub pattern : Text
  pub handler : Handler

abbrev get : Text → Handler → Route
get pattern handler = record { method = codes "GET"; pattern = pattern; handler = handler }

abbrev post : Text → Handler → Route
post pattern handler = record { method = codes "POST"; pattern = pattern; handler = handler }

abbrev api : Text → Text
api rest = codes "/api/v1" ++ rest

-- The calls of `add`, in their order.
abbrev pub routes : List Route
routes =
    get (codes "/healthz") on_healthz
    ∷ get (api (codes "/info")) on_info
    ∷ get (api (codes "/peers")) on_peers
    ∷ get (api (codes "/status")) on_status
    ∷ post (api (codes "/messages")) on_post_message
    ∷ get (api (codes "/messages")) on_messages
    ∷ get (api (codes "/messages/:id")) on_message
    ∷ post (api (codes "/messages/read")) on_mark_messages
    ∷ post (api (codes "/messages/:id/read")) on_mark_message
    ∷ get (api (codes "/outbox")) on_outbox
    ∷ get (api (codes "/files")) on_files
    ∷ get (api (codes "/files/stat")) on_stat
    ∷ get (api (codes "/files/hash")) on_hash
    ∷ get (api (codes "/files/download")) on_download
    ∷ post (api (codes "/files/upload")) on_upload
    ∷ get (api (codes "/audit")) on_audit
    ∷ get (api (codes "/dsh/workspaces")) on_workspaces
    ∷ get (api (codes "/dsh/sessions")) on_sessions
    ∷ get (api (codes "/dsh/sessions/:id")) on_session
    ∷ get (api (codes "/dsh/sessions/:id/transcript")) on_transcript
    ∷ get (api (codes "/dsh/capabilities")) on_capabilities
    ∷ post (api (codes "/dsh/call")) on_call
    ∷ get (api (codes "/dsh/call/:id")) on_call_result
    ∷ get (api (codes "/bridge/status")) on_bridge_status
    ∷ get (api (codes "/bridge/commands")) on_bridge_commands
    ∷ post (api (codes "/bridge/commands/:id/result")) on_bridge_result
    ∷ post (api (codes "/bridge/heartbeat")) on_bridge_heartbeat
    ∷ post (codes "/mcp") on_post_mcp
    ∷ get (codes "/mcp") on_get_mcp
    ∷ record { method = codes "DELETE"; pattern = codes "/mcp"; handler = on_delete_mcp }
    ∷ []

abbrev pub on_path : Route → Text → Text → Option Params
on_path route method pathname =
    if route.method == method
    then match_path (compile_route route.pattern) (split b'/' pathname)
    else none

module _ (decode : Text → Option Text) where
  abbrev pub with_decoded : Text → Option Text → Option Params → Option Params
  with_decoded name none params = none
  with_decoded name (some value) params = with_param name value params

  -- The parameters of the path, decoded; `none` where one cannot be.
  unfoldable pub decode_params : Params → Option Params
  decode_params [] = some []
  decode_params ((name, value) ∷ params) = with_decoded name (decode value) (decode_params params)

  -- The first route that matches, with its parameters.
  unfoldable pub find_route : Text → Text → List Route → Option (Route × Option Params)
  unfolding compile_route match_path split decode_params
  find_route method pathname [] = none
  find_route method pathname (route ∷ more) = elim (on_path route method pathname) [
    | some params ↦ some (route, decode_params params)
    | none ↦ find_route method pathname more
  ]
