-- ===== src/Bridge/Topics/Tests.antt =====
-- topics.js: tests on concrete inputs, and the theorems at inputs that meet their hypotheses.
use dsh_link.Common.{ℕ, ◌≡◌, ◌↔◌, refl}
use dsh_link.Common.{Option, none, some, [], ◌∷◌, Text, codes}
use dsh_link.Common.{text_eq, trim, trim_start, trim_end, is_space}
use dsh_link.Common.Int.{pos}
use dsh_link.Common.Values.{undefined, num, str}
use dsh_link.Bridge.Topics.Readers.{as_text, as_number}
use dsh_link.Bridge.Topics.Policy.{RawPolicy, normalize_topic_policy, topic_defaults}
use dsh_link.Bridge.Topics.Policy.{raw_of}
use dsh_link.Bridge.Topics.Pool.{Entry, Pool, entry_at, Use}
use dsh_link.Bridge.Topics.Plan.{
  Probe, Archived, create, keep, plan_session, session_exists, idle_reset,
}
use dsh_link.Bridge.Topics.Plan.Laws.{IsUsable, plan_session-keep_iff}
use dsh_link.Bridge.Topics.Subject.{normalize_subject, after_subject_prefix, strip_rounds}
use dsh_link.Bridge.Topics.Keys.{known, Message}

-- An entry used at a time, in milliseconds.
abbrev entry_used : ℕ → Text → Entry
entry_used at id = record {
  session_id = str id;
  wakes = num (pos 3);
  created_at = num (pos 0);
  last_used_at = num (pos at);
  label = str (codes "PEER: plan");
  archived = undefined;
  archived_at = undefined;
}

abbrev one_topic : Pool
one_topic = (codes "topic:a", some (entry_used 1000 (codes "s1"))) ∷ []

abbrev policy_of : ℕ → Option RawPolicy
policy_of most = some (raw_of (record topic_defaults { max_pool_size = most }))

keep_test :
    plan_session (pos 0) (some one_topic) (str (codes "topic:a")) (num (pos 2000)) none none
    ≡ record {
      action = keep;
      session_id = some (codes "s1");
      reason = dsh_link.Bridge.Topics.Plan.reuse;
      archive = [];
      entry = some (entry_used 1000 (codes "s1"));
    }
unfolding plan_session session_exists as_text normalize_topic_policy text_eq
keep_test = refl

-- Nothing of the idle time is left after six hours.
idle_test :
    (plan_session
      (pos 0)
      (some one_topic)
      (str (codes "topic:a"))
      (num (pos 21601001))
      none
      none).archive
    ≡ record { key = codes "topic:a"; session_id = codes "s1"; reason = idle_reset } ∷ []
unfolding plan_session session_exists as_text normalize_topic_policy text_eq
idle_test = refl

plan_session-keep_iff_example :
    (plan_session
        (pos 0)
        (some one_topic)
        (str (codes "topic:a"))
        (num (pos 2000))
        none
        none).action
      ≡ keep
    ↔ ((e : Entry) × (entry_at one_topic (as_text (str (codes "topic:a"))) ≡ some e)
        × IsUsable (normalize_topic_policy none) (as_number (num (pos 2000)) (pos 0)) none e)
plan_session-keep_iff_example =
    plan_session-keep_iff (pos 0) (some one_topic) (str (codes "topic:a")) (num (pos 2000)) none
      none

subject_test : normalize_subject (str (codes "Re: Fwd: RE[2]: 答复：x")) ≡ codes "x"
unfolding normalize_subject after_subject_prefix strip_rounds trim trim_start trim_end is_space
    as_text
subject_test = refl

abbrev ping : Use
ping = record {
  session_id = str (codes "s1");
  label = undefined;
  now = num (pos 2000);
  messages = num (pos 5);
}

abbrev sample : Message
sample = record {
  id = str (codes "msg_1");
  thread = undefined;
  subject = undefined;
  body = str (codes "hello");
  from = known (str (codes "PEER")) undefined;
}
