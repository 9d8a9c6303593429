-- ===== src/Node/Server/Bridge.antt =====
-- src/ops.mjs and src/server.mjs: what a bridge asks of the command queue, and the summary of a command.
-- The body of a request is read before.
use dsh_link.Common.{ℕ, min, max, Bool, true, false, Option, none, some, List, Text, text_eq}
use dsh_link.Common.{if◌then◌else◌, codes, or_default}
use dsh_link.Common.Dict.{Dict, lookup}
use dsh_link.Common.Int.{pos, pos_part}
use dsh_link.Common.Values.{Value, num, is_false, number_or}
use dsh_link.Node.Readers.{to_int}
use dsh_link.Node.Queue.{
  Status, done, Command, Payload, Queue, Result, ok, err, claim, complete, success, failure,
}
use dsh_link.Node.Queue.Stats.{read_by_id}
use dsh_link.Node.Server.Messages.{number_at}

-- What `summarizeCommand` keeps of a command.
pub record Summary : Type 0 where
  pub command_id : Text
  pub method : Value
  pub status : Status
  pub is_ok : Bool
  pub created_at : Option ℕ
  pub finished_at : Option ℕ
  pub result : Option Payload
  pub error : Option Text

abbrev pub is_done : Status → Bool
is_done done = true
is_done _ = false

-- `summarizeCommand`
unfoldable pub summarize_command : Command → Summary
summarize_command c = record {
  command_id = c.id;
  method = c.method;
  status = c.status;
  is_ok = is_done c.status;
  created_at = c.created_at;
  finished_at = c.finished_at;
  result = c.result;
  error = c.error;
}

-- `dshCallResult` on this node, of an id that is not empty; `none` for one that is not known.
unfoldable pub dsh_call_result : Queue → Value → Option Summary
unfolding read_by_id summarize_command
dsh_call_result q id = elim (read_by_id q id) [ none ↦ none | some c ↦ some (summarize_command c) ]

module _ (id_le : Text → Text → Bool) where
  -- `claimCommands`
  unfoldable pub claim_commands : Queue → Value → Text → ℕ → Queue × List Command
  unfolding claim number_or
  claim_commands q limit bridge now =
      claim id_le q (num (pos (max 1 (min (pos_part (number_or limit (pos 5))) 25)))) bridge now

  -- `GET /bridge/commands`
  unfoldable pub on_bridge_commands : Queue → Dict Text → ℕ → Queue × List Command
  unfolding claim_commands to_int lookup
  on_bridge_commands q query now =
      claim_commands q (num (pos (to_int (number_at query (codes "limit")) 5 1 25)))
        (or_default (lookup (codes "bridge") query) (codes "bridge")) now

-- What a bridge posts: `ok`, the JSON text of the result, and the error.
pub record Posted : Type 0 where
  pub is_ok : Value
  pub result : List ℕ
  pub error : Option Text

abbrev summary_of : Queue × Result Command → Queue × Result Summary
summary_of (q, err e) = (q, err e)
summary_of (q, ok c) = (q, ok (summarize_command c))

-- `completeCommand`, of an id that is not empty.
unfoldable pub complete_command : Queue → Value → Posted → ℕ → Queue × Result Summary
unfolding complete summarize_command
complete_command q id posted now =
    let outcome =
      if is_false posted.is_ok
      then failure (or_default posted.error (codes "the bridge reported a failure"))
      else success posted.result in
    summary_of (complete q id outcome now)
