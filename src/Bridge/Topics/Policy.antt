-- ===== src/Bridge/Topics/Policy.antt =====
-- topics.js: `TOPIC_DEFAULTS` and `normalizeTopicPolicy`.
use dsh_link.Common.{
  ℕ, ◌≡◌, refl, Option, none, some, Text, text_eq, codes, trim, trim_start, trim_end, is_space,
  to_lower,
}
use dsh_link.Common.{◌==◌, if◌then◌else◌}
use dsh_link.Common.Int.{pos}
use dsh_link.Common.Values.{Value, num, str}
use dsh_link.Bridge.Topics.Readers.{as_text, non_negative}

pub data Strategy : Type 0 where
  auto thread subject : Strategy

pub record TopicPolicy : Type 0 where
  pub strategy : Strategy
  pub max_session_wakes : ℕ
  pub max_session_age_seconds : ℕ
  pub topic_idle_reset_seconds : ℕ
  pub archive_idle_seconds : ℕ
  pub max_pool_size : ℕ

-- The configuration as it arrives: an absent property is `undefined`.
pub record RawPolicy : Type 0 where
  pub strategy : Value
  pub max_session_wakes : Value
  pub max_session_age_seconds : Value
  pub topic_idle_reset_seconds : Value
  pub archive_idle_seconds : Value
  pub max_pool_size : Value

abbrev pub topic_defaults : TopicPolicy
topic_defaults = record {
  strategy = auto;
  max_session_wakes = 12;
  max_session_age_seconds = 43200;
  topic_idle_reset_seconds = 21600;
  archive_idle_seconds = 86400;
  max_pool_size = 20;
}

-- The spelling of a strategy in the configuration.
abbrev pub strategy_text : Strategy → Text
strategy_text auto = codes "auto"
strategy_text thread = codes "thread"
strategy_text subject = codes "subject"

-- `STRATEGIES.has(s) ? s : 'auto'`
unfoldable pub read_strategy : Text → Strategy
read_strategy s =
    if s == codes "auto"
    then auto
    else if s == codes "thread"
    then thread
    else if s == codes "subject"
    then subject
    else topic_defaults.strategy

abbrev read_policy : RawPolicy → TopicPolicy
read_policy raw = record {
  strategy = read_strategy (to_lower (trim (as_text raw.strategy)));
  max_session_wakes = non_negative raw.max_session_wakes topic_defaults.max_session_wakes;
  max_session_age_seconds =
      non_negative raw.max_session_age_seconds topic_defaults.max_session_age_seconds;
  topic_idle_reset_seconds =
      non_negative raw.topic_idle_reset_seconds topic_defaults.topic_idle_reset_seconds;
  archive_idle_seconds = non_negative raw.archive_idle_seconds topic_defaults.archive_idle_seconds;
  max_pool_size = non_negative raw.max_pool_size topic_defaults.max_pool_size;
}

-- `normalizeTopicPolicy`; `none` is a value that is no plain object.
unfoldable pub normalize_topic_policy : Option RawPolicy → TopicPolicy
unfolding read_strategy
normalize_topic_policy none = topic_defaults
normalize_topic_policy (some raw) = read_policy raw

-- A normalized policy, passed where a raw configuration is expected.
abbrev pub raw_of : TopicPolicy → RawPolicy
raw_of p = record {
  strategy = str (strategy_text p.strategy);
  max_session_wakes = num (pos p.max_session_wakes);
  max_session_age_seconds = num (pos p.max_session_age_seconds);
  topic_idle_reset_seconds = num (pos p.topic_idle_reset_seconds);
  archive_idle_seconds = num (pos p.archive_idle_seconds);
  max_pool_size = num (pos p.max_pool_size);
}

strategy_lem :
    (s : Strategy) → read_strategy (to_lower (trim (as_text (str (strategy_text s))))) ≡ s
unfolding read_strategy to_lower trim trim_end trim_start is_space as_text text_eq
strategy_lem auto = refl
strategy_lem thread = refl
strategy_lem subject = refl

-- Normalizing a normalized policy changes nothing, so every function may normalize again what its
-- caller has normalized.
pub normalize_topic_policy-raw_of : (p : TopicPolicy) → normalize_topic_policy (some (raw_of p)) ≡ p
unfolding normalize_topic_policy non_negative
normalize_topic_policy-raw_of p = λ i. record {
  strategy = strategy_lem p.strategy i;
  max_session_wakes = p.max_session_wakes;
  max_session_age_seconds = p.max_session_age_seconds;
  topic_idle_reset_seconds = p.topic_idle_reset_seconds;
  archive_idle_seconds = p.archive_idle_seconds;
  max_pool_size = p.max_pool_size;
}
