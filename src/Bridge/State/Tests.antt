-- ===== src/Bridge/State/Tests.antt =====
-- index.js: the theorems on a restart at inputs that meet their hypotheses.
use dsh_link.Common.{◌≡◌, refl, Option, none, some, List, [], ◌∷◌, Text, codes, text_eq}
use dsh_link.Common.Int.{pos}
use dsh_link.Common.Dict.{lookup}
use dsh_link.Common.Values.{undefined, num, str, bool}
use dsh_link.Bridge.Topics.Pool.{Pool}
use dsh_link.Bridge.Topics.Plan.{plan_session}
use dsh_link.Bridge.Routes.{normalize_route_policy, Inbound, route_for}
use dsh_link.Bridge.State.{Runtime, save, load, fresh_runtime}
use dsh_link.Bridge.State.Restart.{
  decision, restart_pool, plan_session-restart_pool, route_for-load-save,
}

abbrev two_topics : Pool
two_topics =
    (
      codes "topic:a",
      some (record {
        session_id = str (codes "s1");
        wakes = num (pos 3);
        created_at = num (pos 0);
        last_used_at = num (pos 1000);
        label = undefined;
        archived = bool dsh_link.Common.false;
        archived_at = undefined;
      }),
    )
    ∷ (codes "topic:b", none)
    ∷ []

plan_session-restart_pool_example :
    decision (
      plan_session
        (pos 0)
        (some (restart_pool two_topics))
        (str (codes "topic:a"))
        (num (pos 2000))
        none
        none)
    ≡ decision
        (plan_session (pos 0) (some two_topics) (str (codes "topic:a")) (num (pos 2000)) none none)
unfolding lookup text_eq
plan_session-restart_pool_example =
    plan_session-restart_pool (pos 0) two_topics (str (codes "topic:a")) (num (pos 2000)) none none
      (refl, (refl, tt)) ((pos 0, pos 1000, refl, refl), tt)

abbrev asked : Runtime
asked = record fresh_runtime {
  routes =
      (
        codes "t1",
        some (record {
          thread = str (codes "t1");
          session_id = str (codes "s1");
          message_ids = some (codes "m1" ∷ []);
          created_at = num (pos 99999000);
          last_at = num (pos 99999000);
          hits = num (pos 0);
        }),
      )
      ∷ [];
}

abbrev answer : Inbound
answer = record { thread = str (codes "t1"); reply_to = str (codes "m1") }

-- Before the restart the same message would be routed.
route_for-load-save_example :
    (route_for
      (some (load (save (pos 99999500) none asked) fresh_runtime).routes)
      (some answer)
      (pos 99999900)
      none).1
    ≡ none
unfolding normalize_route_policy
route_for-load-save_example =
    route_for-load-save asked (pos 99999500) (pos 99999900) none answer refl
