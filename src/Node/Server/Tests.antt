-- ===== src/Node/Server/Tests.antt =====
-- Runs of the server.
use dsh_link.Common.{
  ℕ, ◌+◌, ◌≡◌, ◌≤◌, ◌⊎◌, refl, Bool, true, false, Option, none, some, List, [], ◌∷◌, ◌++◌, Text,
  codes, text_eq, length, filter, is_some, arith, split,
}
use dsh_link.Common.Int.{pos}
use dsh_link.Common.Values.{Value, num, str, bool}
use dsh_link.Node.Readers.{read_int}
use dsh_link.Node.Auth.{AuthConfig}
use dsh_link.Node.Capabilities.{RawSection, RawConfig, normalize_capability_config}
use dsh_link.Node.Queue.{Queue, command_at}
use dsh_link.Node.Queue.Waiting.{Waited, wait, wait_ends, IsAnswerTo, timeout_of}
use dsh_link.Node.Server.Routes.{Handler, Params, find_route, on_path, routes}
use dsh_link.Node.Server.{with_token, Request, Context, Served, Result, ok, handle, replied}
use dsh_link.Node.Server.Guard.{Reached, handle-Reached}
use dsh_link.Node.Server.Unambiguous.{length-on_path}
use dsh_link.Node.Server.Ranges.{IsFair, part, parse_range, download_range, download_range-IsFair}
use dsh_link.Node.Server.Calls.{Called, call_refused, of_peer, on_dsh_call, on_dsh_call_denied}

abbrev hash : Text → Text
hash s = codes "h" ++ s

abbrev keep : Text → Option Text
keep s = some s

abbrev config : AuthConfig
config = record {
  trust_localhost = false;
  tokens = record { id = codes "1"; label = codes "lab"; hash = codes "habc"; token = [] } ∷ [];
}

abbrev request : Text → Text → Request
request pathname token = record {
  method = codes "GET";
  pathname = codes "/api/v1/" ++ pathname;
  caller = record {
    remote_address = codes "10.0.0.7";
    authorization = codes "Bearer " ++ token;
    alternative = [];
  };
}

-- Handlers that count their runs.
abbrev count : Handler → Context → ℕ → ℕ × Result Params
count h ctx n = (dsh_link.Common.suc n, ok ctx.params)

abbrev idle : Served ℕ
idle = record { failures = []; world = 0 }

message_read :
    handle count hash keep 5 config (request (codes "messages/m1/") (codes "abc")) idle
    ≡ (record idle { world = 1 }, replied ((codes "id", codes "m1") ∷ []))
unfolding handle text_eq dsh_link.Common.trim_end dsh_link.Common.trim_start
    dsh_link.Common.is_space
message_read = refl

handle-Reached_example :
    Reached count hash config
      (request (codes "bridge/status") (codes "abc"))
      (find_route keep (codes "GET") (codes "/api/v1/bridge/status") routes)
      0
      (handle count hash keep 5 config (request (codes "bridge/status") (codes "abc")) idle).0.world
handle-Reached_example =
    handle-Reached count hash config (request (codes "bridge/status") (codes "abc")) keep 5 idle

length-on_path_example :
    length (filter (λ r. is_some (on_path r (codes "GET") (codes "/api/v1/files/stat"))) routes) ≤ 1
length-on_path_example = length-on_path (codes "GET") (codes "/api/v1/files/stat")

-- The first byte is behind the end of the file.
behind_end :
    download_range 3 (codes "bytes=5-9") ≡ part (pos 5) (pos 2) (dsh_link.Common.Int.negsuc 1)
unfolding download_range dsh_link.Common.trim_end dsh_link.Common.trim_start
    dsh_link.Common.is_space
behind_end = refl

download_range-IsFair_example :
    IsFair 10 (parse_range (codes " bytes=2-30")) (download_range 10 (codes " bytes=2-30"))
download_range-IsFair_example = download_range-IsFair 10 (codes " bytes=2-30")

abbrev chunks : List Text
chunks = codes "ab" ∷ codes "c" ∷ []

abbrev raw : RawConfig
raw = record {
  top = record {
    enabled = some (bool true);
    methods = some (some []);
    peers = none;
    max_wait_seconds = none;
    command_ttl_seconds = none;
    max_pending = none;
    claim_stale_seconds = none;
    max_result_bytes = none;
  };
  capabilities = none;
}

abbrev queue : Queue
queue = record { policy = normalize_capability_config raw; files = []; claims = [] }

abbrev still : ℕ → Queue → Queue
still pause q = q

abbrev elsewhere : Text → Value → ℕ → Called
elsewhere peer method seconds = of_peer peer

wait_ends_example :
    (out : Waited) × (wait still (some 200) (str (codes "cmd_1")) (num (pos 300)) 5 queue
      ≡ some out)
    × IsAnswerTo
        (some 200)
        (dsh_link.Node.Queue.safe_id (str (codes "cmd_1")))
        (5 + timeout_of (num (pos 300)) queue)
        out
wait_ends_example = wait_ends still (some 200) (str (codes "cmd_1")) (num (pos 300)) 5 queue

on_dsh_call_denied_example :
    on_dsh_call still none true elsewhere
      (codes "desk")
      raw
      (codes "cmd_1")
      5
      (codes "10.0.0.7")
      (with_token (record { id = codes "1"; label = codes "lab" }))
      []
      (str (codes "sessions.list"))
      (num (pos 0))
      queue
    ≡ some (queue, call_refused 403 (codes "capability_denied"))
unfolding dsh_link.Node.Capabilities.authorize_call normalize_capability_config
    dsh_link.Node.Readers.flag_bool text_eq dsh_link.Common.trim dsh_link.Common.trim_end
    dsh_link.Common.trim_start dsh_link.Common.is_space dsh_link.Node.Names.slug_name
on_dsh_call_denied_example =
    on_dsh_call_denied still none true elsewhere (codes "desk") raw (codes "cmd_1") 5
      (codes "10.0.0.7") (with_token (record { id = codes "1"; label = codes "lab" })) []
      (str (codes "sessions.list")) (num (pos 0)) queue refl refl
