-- ===== src/Node/Queue/Records.antt =====
-- src/capabilities.mjs: the records of a command queue, their reading, and `clampResult`.
use dsh_link.Common.{
  ℕ, suc, ◌-◌, Bool, true, false, not, ◌&&◌, ◌||◌, Option, none, some, List, [], ◌∷◌, Text,
}
use dsh_link.Common.{text_eq, ◌==◌, leb, if◌then◌else◌, length, take, trim, is_empty, is_digit, eqb}
use dsh_link.Common.Dict.{Dict, lookup}
use dsh_link.Common.Values.{Value, str}
use dsh_link.Node.Capabilities.{Policy, Verdict}

pub data Status : Type 0 where
  pending claimed done failed expired : Status

-- `TERMINAL_STATUS.has(s)`
abbrev pub is_terminal : Status → Bool
is_terminal pending = false
is_terminal claimed = false
is_terminal _ = true

-- A result as it is stored: the bytes of its JSON text, or the envelope of a clipped one.
pub data Payload : Type 0 where
  whole : List ℕ → Payload
  clipped : ℕ → List ℕ → Payload

pub record Command : Type 0 where
  pub id : Text
  pub method : Value
  pub created_at : Option ℕ
  pub status : Status
  pub claimed_by : Option Text
  pub claimed_at : Option ℕ
  pub attempts : ℕ
  pub finished_at : Option ℕ
  pub result : Option Payload
  pub error : Option Text

-- A claim file: its owner and its modification time, which is the lease.
pub record Claim : Type 0 where
  pub owner : Text
  pub at : ℕ

pub record Queue : Type 0 where
  pub policy : Policy
  pub files : Dict (Option Command)
  pub claims : Dict Claim

abbrev pub flat : Option (Option Command) → Option Command
flat none = none
flat (some c) = c

-- `readJsonFile(fileFor(id))`
unfoldable pub command_at : Queue → Text → Option Command
unfolding lookup
command_at q id = flat (lookup id q.files)

-- The files that `listRecords` takes for commands: those whose id is the name of the file.
unfoldable pub records : Dict (Option Command) → Dict Command
records [] = []
records ((name, none) ∷ files) = records files
records ((name, some c) ∷ files) =
    let rest = records files in if c.id == name then (name, c) ∷ rest else rest

abbrev pub is_active : Command → Bool
is_active c = not (is_terminal c.status)

-- How many records have not ended.
unfoldable pub count_active : Dict Command → ℕ
count_active [] = 0
count_active ((name, c) ∷ d) = let rest = count_active d in if is_active c then suc rest else rest

-- `safeId`
abbrev pub is_id_unit : ℕ → Bool
is_id_unit c =
    (leb b'A' c && leb c b'Z')
    || (leb b'a' c && leb c b'z')
    || is_digit c
    || eqb c b'_'
    || eqb c b'-'

unfoldable pub all_id_units : Text → Bool
all_id_units [] = true
all_id_units (c ∷ s) = is_id_unit c && all_id_units s

unfoldable pub safe_id : Value → Option Text
unfolding all_id_units trim
safe_id (str s) =
    let t = trim s in
    if not (is_empty t) && (leb (length t) 128 && all_id_units t) then some t else none
safe_id _ = none

-- `clampResult` on the bytes of the JSON text.
unfoldable pub clamp_result : List ℕ → ℕ → Payload
clamp_result json max_bytes =
    if leb (length json) max_bytes
    then whole json
    else clipped (length json) (take (max_bytes - 160) json)

pub data Refusal : Type 0 where
  refused : ℕ → Verdict → Refusal
  too_many : ℕ → Refusal
  bad_id unknown_command : Refusal

pub data Result {ℓ} (A : Type ℓ) : Type ℓ where
  ok : A → Result A
  err : Refusal → Result A

abbrev pub new_command : Text → Value → ℕ → Command
new_command id method now = record {
  id = id;
  method = method;
  created_at = some now;
  status = pending;
  claimed_by = none;
  claimed_at = none;
  attempts = 0;
  finished_at = none;
  result = none;
  error = none;
}
