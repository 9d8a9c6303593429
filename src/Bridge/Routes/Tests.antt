-- ===== src/Bridge/Routes/Tests.antt =====
-- routes.js: tests on concrete inputs, and the theorems at inputs that meet their hypotheses.
use dsh_link.Common.{◌≡◌, refl, true, false, none, some, [], ◌∷◌}
use dsh_link.Common.{codes, arith, text_eq, trim, trim_start, trim_end}
use dsh_link.Common.{is_space}
use dsh_link.Common.Int.{pos, ◌+ℤ◌}
use dsh_link.Common.Dict.{lookup, insert}
use dsh_link.Common.Values.{undefined, num, str, to_number}
use dsh_link.Bridge.Routes.{
  RawRoutes, normalize_route_policy, Route, Table, register_route, Inbound, by_thread, Hit,
  is_send_tool, route_for, enforce_cap, as_text, registered,
}
use dsh_link.Bridge.Routes.Laws.{route_for-register_route}
use dsh_link.Bridge.Routes.Matching.{route_for_sound, Source}

send_tools :
    (is_send_tool (str (codes "mcp__dshlink__link_reply")) ≡ true)
    × (is_send_tool (str (codes "unlink_reply")) ≡ false)
unfolding is_send_tool trim trim_start trim_end is_space
send_tools = (refl, refl)

abbrev asked : Table
asked =
    (
      codes "t1",
      some (record {
        thread = str (codes "t1");
        session_id = str (codes "s1");
        message_ids = some (codes "m1" ∷ []);
        created_at = num (pos 0);
        last_at = num (pos 1000);
        hits = num (pos 0);
      }),
    )
    ∷ []

abbrev reply : Inbound
reply = record { thread = str (codes "t2"); reply_to = str (codes "m1") }

route_for-register_route_example :
    (route_for
      (register_route (some asked) (str (codes "t2")) undefined (str (codes "s2")) (pos 5) none).0
      (some reply)
      (pos 10)
      none).1
    ≡ some (record { session_id = codes "s2"; key = codes "t2"; matched = by_thread })
unfolding trim trim_start trim_end is_space insert text_eq normalize_route_policy
route_for-register_route_example =
    route_for-register_route asked (str (codes "t2")) undefined (str (codes "s2")) (pos 5) (pos 10)
      none reply refl (λ e. cc) (λ e. cc) refl (omega arith) (omega arith)

abbrev reply_hit : Hit
reply_hit = record {
  session_id = codes "s1";
  key = codes "t1";
  matched = dsh_link.Bridge.Routes.by_reply;
}

reply_test : (route_for (some asked) (some reply) (pos 2000) none).1 ≡ some reply_hit
unfolding route_for trim trim_start trim_end is_space text_eq normalize_route_policy to_number
    lookup ◌+ℤ◌ dsh_link.Bridge.Routes.answers
reply_test = refl

route_for_sound_example : Source (normalize_route_policy none) (pos 2000) reply reply_hit asked
route_for_sound_example = route_for_sound asked reply (pos 2000) none reply_hit reply_test
