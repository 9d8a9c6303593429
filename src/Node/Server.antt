-- ===== src/Node/Server.antt =====
-- src/server.mjs: the routes of the HTTP interface and the way from a request to its handler. The
-- handlers, SHA-256 and `decodeURIComponent` are parameters; the address of a request is read and the
-- configuration reloaded before.
pub mod Routes
pub mod Ranges
pub mod Bodies
pub mod Unambiguous
pub mod Guard
pub mod Calls
pub mod Messages
pub mod Bridge
mod Tests
use dsh_link.Common.{
  ℕ, Bool, true, false, not, ◌&&◌, ◌||◌, Option, none, some, List, [], ◌∷◌, ◌++◌, Text, text_eq,
  ◌==◌,
}
use dsh_link.Common.{is_empty, if◌then◌else◌, codes, eqb}
use dsh_link.Common.Dict.{Dict}
use dsh_link.Node.Auth.{
  AuthConfig, Caller, Failures, Match, Verdict, by_token, by_localhost, refused, authorize,
}
use dsh_link.Node.Server.Routes.{Handler, Route, Params, find_route, routes}

-- Who makes a request that is let in.
pub data Via : Type 0 where
  with_token : Match → Via
  from_localhost : Via
  openly : Via

-- What is thrown: an error of the program, with its status and code, or another one.
pub data Failure : Type 0 where
  link_error : ℕ → Text → Failure
  other_error : Failure

pub data Result {ℓ} (A : Type ℓ) : Type ℓ where
  ok : A → Result A
  err : Failure → Result A

-- A response: the reply of a handler, or the status and the code of an error.
pub data Response {ℓ} (P : Type ℓ) : Type ℓ where
  replied : P → Response P
  rejected : ℕ → Text → Response P

-- `sendError`
unfoldable pub send_error {ℓ} : {P : Type ℓ} → Failure → Response P
send_error (link_error status code) = rejected (if eqb status 2 then 400 else status) code
send_error other_error = rejected 500 (codes "internal_error")

abbrev pub response_of {ℓ} : {P : Type ℓ} → Result P → Response P
response_of (ok p) = replied p
response_of (err e) = send_error e

pub record Request : Type 0 where
  pub method : Text
  pub pathname : Text
  pub caller : Caller

-- What a handler is given, beside the query and the body of the request.
pub record Context : Type 0 where
  pub params : Params
  pub via : Via

-- `OPEN_PATHS`
abbrev pub is_open : Text → Bool
is_open pathname = pathname == codes "/healthz"

abbrev pub is_bridge_only : Via → Bool
is_bridge_only (with_token who) = false
is_bridge_only from_localhost = true
is_bridge_only openly = true

-- The state of the server: the failures by address, and what the handlers change.
pub record Served (W : Type 0) : Type 0 where
  pub failures : Dict Failures
  pub world : W

module _ {W P : Type 0} (handler : Handler → Context → W → W × Result P) where
  -- `requireLoopback`, before a handler of the bridge.
  unfoldable pub guarded : Handler → Context → W → W × Result P
  guarded h ctx w =
      if Routes.is_bridge h && not (is_bridge_only ctx.via)
      then (w, err (link_error 403 (codes "bridge_loopback_only")))
      else handler h ctx w

  abbrev pub serve : Handler → Params → Via → Served W → Served W × Response P
  serve h params via state =
      let (w, result) = guarded h (record { params = params; via = via }) state.world in
      (record state { world = w }, response_of result)

  -- What follows the verdict.
  abbrev pub admitted :
      Handler → Params → Served W → Dict Failures × Verdict → Served W × Response P
  admitted h params state (failures, by_token who) =
      serve h params (with_token who) (record state { failures = failures })
  admitted h params state (failures, by_localhost) =
      serve h params from_localhost (record state { failures = failures })
  admitted h params state (failures, refused n throttled) = (
    record state { failures = failures },
    if throttled
        then rejected 429 (codes "too_many_failures")
        else rejected 401 (codes "unauthorized"),
  )

  abbrev pub routed :
      (Text → Text)
      → ℕ
      → AuthConfig
      → Request
      → Option (Route × Option Params)
      → Served W
      → Served W × Response P
  routed sha256_hex now cfg req none state = (state, rejected 404 (codes "not_found"))
  routed sha256_hex now cfg req (some (route, none)) state = (state, send_error other_error)
  routed sha256_hex now cfg req (some (route, some params)) state =
      if is_open req.pathname
      then serve route.handler params openly state
      else admitted route.handler params state
          (authorize sha256_hex now cfg req.caller state.failures)

  -- `handle`
  unfoldable pub handle :
      (Text → Text)
      → (Text → Option Text)
      → ℕ
      → AuthConfig
      → Request
      → Served W
      → Served W × Response P
  unfolding guarded authorize find_route send_error
  handle sha256_hex decode now cfg req state =
      routed sha256_hex now cfg req (find_route decode req.method req.pathname routes) state
