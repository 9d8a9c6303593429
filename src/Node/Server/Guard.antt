-- ===== src/Node/Server/Guard.antt =====
-- src/server.mjs: which requests reach a handler.
use dsh_link.Common.{ℕ, ◌≡◌, refl, true, false, not, ◌&&◌, ◌⊎◌, Option, none, some, Text, text_eq}
use dsh_link.Common.{any, Bool-cases, inl, inr, arith}
use dsh_link.Common.Dict.{Dict}
use dsh_link.Node.Auth.{
  AuthConfig, Failures, Match, Verdict, by_token, by_localhost, refused, authorize, presented_token,
  is_local,
}
use dsh_link.Node.Auth.Laws.{is_behind, Justified, authorize-Justified}
use dsh_link.Node.Server.Routes.{Handler, Route, Params, find_route, routes, is_bridge}
use dsh_link.Node.Server.{
  Via, with_token, from_localhost, openly, Result, Request, Context, Served, is_open,
  is_bridge_only, guarded, serve, admitted, routed, handle,
}

module _ {W P : Type 0} (handler : Handler → Context → W → W × Result P) where
  module _ (sha256_hex : Text → Text) (cfg : AuthConfig) (req : Request) where
    -- Who may run a handler.
    abbrev pub Entitled : Handler → Via → Type 0
    Entitled h (with_token who) =
        (any (is_behind sha256_hex (presented_token req.caller) who) cfg.tokens ≡ true)
        × (is_bridge h ≡ false)
    Entitled h from_localhost = (cfg.trust_localhost ≡ true) × (is_local req.caller ≡ true)
    Entitled h openly = is_open req.pathname ≡ true

    -- Nothing changed, or the handler ran for a caller that may run it.
    abbrev pub Ran : Handler → Params → W → W → Type 0
    Ran h params before after =
        (after ≡ before)
        ⊎ ((via : Via) × (after ≡ (handler h (record { params = params; via = via }) before).0)
            × Entitled h via)

    serve-Ran :
        (h : Handler) (params : Params) (via : Via) (state : Served W)
        → (is_bridge h ≡ false ⊎ is_bridge_only via ≡ true → Entitled h via)
        → Ran h params state.world (serve handler h params via state).0.world
    unfolding guarded
    serve-Ran h params via state may = elim (Bool-cases (is_bridge h && not (is_bridge_only via))) [
      | inl e ↦ rw e (inl refl)
      | inr e ↦ rw e (inr (via, refl, may (ground arith)))
    ]

    not_bridge :
        (h : Handler) (who : Match)
        → is_bridge h ≡ false ⊎ is_bridge_only (with_token who) ≡ true
        → is_bridge h ≡ false
    not_bridge h who (inl e) = e
    not_bridge h who (inr e) = absurd (ground arith)

    admitted-Ran :
        (h : Handler) (params : Params) (state : Served W) (out : Dict Failures × Verdict)
        → Justified sha256_hex cfg req.caller out.1
        → Ran h params state.world (admitted handler h params state out).0.world
    admitted-Ran h params state (failures, by_token who) j =
        serve-Ran h params (with_token who) (record state { failures = failures })
          (λ e. (j, not_bridge h who e))
    admitted-Ran h params state (failures, by_localhost) j =
        serve-Ran h params from_localhost (record state { failures = failures }) (λ e. j)
    admitted-Ran h params state (failures, refused n throttled) j = inl refl

    -- What a request may do to what the handlers change.
    abbrev pub Reached : Option (Route × Option Params) → W → W → Type 0
    Reached none before after = after ≡ before
    Reached (some (route, none)) before after = after ≡ before
    Reached (some (route, some params)) before after = Ran route.handler params before after

    routed-Reached :
        (now : ℕ) (found : Option (Route × Option Params)) (state : Served W)
        → Reached found state.world (routed handler sha256_hex now cfg req found state).0.world
    routed-Reached now none state = refl
    routed-Reached now (some (route, none)) state = refl
    routed-Reached now (some (route, some params)) state =
        elim (Bool-cases (is_open req.pathname)) [
          | inl e ↦ rw e (serve-Ran route.handler params openly state (λ h. e))
          | inr e ↦ rw e (
              admitted-Ran route.handler params state
                (authorize sha256_hex now cfg req.caller state.failures)
                (authorize-Justified sha256_hex now cfg req.caller state.failures))
        ]

    -- A request changes nothing that the handlers change, or the handler of its route ran, and then the
    -- caller presented a token that opens an entry of the configuration, and the route is not one of
    -- the bridge; or local callers are trusted and its address is local; or the path is `/healthz`.
    pub handle-Reached :
        (decode : Text → Option Text) (now : ℕ) (state : Served W)
        → Reached
            (find_route decode req.method req.pathname routes)
            state.world
            (handle handler sha256_hex decode now cfg req state).0.world
    unfolding handle
    handle-Reached decode now state =
        routed-Reached now (find_route decode req.method req.pathname routes) state
