-- ===== src/Bridge/Routes/Policy.antt =====
-- routes.js: `normalizeRoutePolicy` and `isSendTool`.
use dsh_link.Common.{ℕ, min, max, Bool, true, false, not, ◌||◌, Option, none}
use dsh_link.Common.{some, [], ◌∷◌, Text, text_eq, trim}
use dsh_link.Common.{codes, after_prefix, or_default, is_some}
use dsh_link.Common.Int.{ℤ, pos, pos_part}
use dsh_link.Common.Values.{Value, str, is_false, to_number}
use mathlib.Core.List.{reverse}

-- `asText`
abbrev pub as_text : Value → Text
as_text (str s) = s
as_text _ = []

-- `asNumber`
abbrev pub as_number : Value → ℤ → ℤ
as_number v fallback = or_default (to_number v) fallback

pub record RoutePolicy : Type 0 where
  pub enabled : Bool
  pub ttl_seconds : ℕ
  pub max : ℕ

pub record RawRoutes : Type 0 where
  pub enabled : Value
  pub ttl_seconds : Value
  pub max : Value

-- `normalizeRoutePolicy`, with `ROUTE_DEFAULTS` put in.
unfoldable pub normalize_route_policy : Option RawRoutes → RoutePolicy
unfolding to_number
normalize_route_policy none = record { enabled = true; ttl_seconds = 86400; max = 200 }
normalize_route_policy (some raw) = record {
  enabled = not (is_false raw.enabled);
  ttl_seconds = max 60 (pos_part (as_number raw.ttl_seconds (pos 86400)));
  max = max 1 (min 2000 (pos_part (as_number raw.max (pos 200))));
}

abbrev pub ends_with_tool : Text → Text → Bool
ends_with_tool word name = elim (after_prefix (reverse word) (reverse name)) [
  | none ↦ false
  | some [] ↦ true
  | some (c ∷ before) ↦ is_some (after_prefix (codes "__") (c ∷ before))
]

-- `isSendTool`
unfoldable pub is_send_tool : Value → Bool
unfolding after_prefix trim
is_send_tool name =
    ends_with_tool (codes "link_send_message") (trim (as_text name))
    || ends_with_tool (codes "link_reply") (trim (as_text name))
