-- ===== src/Node/Queue/Stats.antt =====
-- src/capabilities.mjs: `readById`, and `stats` of the queue.
use dsh_link.Common.{
  ℕ, ◌+◌, ◌≡◌, Bool, Option, none, some, [], ◌∷◌, Text, if◌then◌else◌, ltb, length, arith,
}
use dsh_link.Common.Dict.{Dict}
use dsh_link.Common.Values.{Value}
use dsh_link.Node.Queue.{
  Status, pending, claimed, done, failed, expired, Command, Queue, command_at, safe_id,
  list_records,
}

-- `readById`
unfoldable pub read_by_id : Queue → Value → Option Command
unfolding safe_id command_at
read_by_id q id = elim (safe_id id) [ none ↦ none | some name ↦ command_at q name ]

pub record Stats : Type 0 where
  pub pending_count : ℕ
  pub claimed_count : ℕ
  pub done_count : ℕ
  pub failed_count : ℕ
  pub expired_count : ℕ
  pub oldest_pending_at : Option ℕ

abbrev earlier : Option ℕ → Option ℕ → Option ℕ
earlier none o = o
earlier (some at) none = some at
earlier (some at) (some at') = some (if ltb at at' then at else at')

abbrev counted : Status → Option ℕ → Stats → Stats
counted pending at s = record s {
  pending_count = s.pending_count + 1;
  oldest_pending_at = earlier at s.oldest_pending_at;
}
counted claimed at s = record s { claimed_count = s.claimed_count + 1 }
counted done at s = record s { done_count = s.done_count + 1 }
counted failed at s = record s { failed_count = s.failed_count + 1 }
counted expired at s = record s { expired_count = s.expired_count + 1 }

-- The loop of `stats`.
unfoldable pub stats_loop : Dict Command → Stats → Stats
stats_loop [] s = s
stats_loop ((name, c) ∷ listed) s = stats_loop listed (counted c.status c.created_at s)

-- `stats`
unfoldable pub stats : (Text → Text → Bool) → Queue → Stats
unfolding stats_loop list_records
stats id_le q = stats_loop (list_records id_le q) (record {
  pending_count = 0;
  claimed_count = 0;
  done_count = 0;
  failed_count = 0;
  expired_count = 0;
  oldest_pending_at = none;
})

abbrev total : Stats → ℕ
total s = s.pending_count + s.claimed_count + s.done_count + s.failed_count + s.expired_count

total-counted :
    (status : Status) (at : Option ℕ) (s : Stats) → total (counted status at s) ≡ total s + 1
total-counted pending at s = omega arith
total-counted claimed at s = omega arith
total-counted done at s = omega arith
total-counted failed at s = omega arith
total-counted expired at s = omega arith

-- Every listed command is counted once.
stats_loop-total :
    (listed : Dict Command) (s : Stats) → total (stats_loop listed s) ≡ total s + length listed
unfolding stats_loop
stats_loop-total [] s = omega arith
stats_loop-total ((name, c) ∷ listed) s = omega (
  arith,
  stats_loop-total listed (counted c.status c.created_at s),
  total-counted c.status c.created_at s,
)
