-- ===== src/Bridge/Topics/Pool.antt =====
-- topics.js: the entries of the topic pool, and `recordUse`.
use dsh_link.Common.{ℕ, ◌+◌, Bool, false, Option, none, some, [], Text}
use dsh_link.Common.{text_eq, ◌==◌, if◌then◌else◌, or_text}
use dsh_link.Common.Int.{ℤ, pos}
use dsh_link.Common.Dict.{Dict, lookup, insert}
use dsh_link.Common.Values.{Value, undefined, num, str, bool}
use dsh_link.Bridge.Topics.Readers.{as_text, as_number, as_count}

-- The properties of a pool entry that the code reads. The pool is read back from `state.json`, so
-- a property may hold anything; an absent one is `undefined`.
pub record Entry : Type 0 where
  pub session_id : Value
  pub wakes : Value
  pub created_at : Value
  pub last_used_at : Value
  pub label : Value
  pub archived : Value
  pub archived_at : Value

-- What the pool holds under a key: `none` is a value that is no plain object.
abbrev pub Pool : Type 0
Pool = Dict (Option Entry)

-- `asRecord(store[key])`
abbrev pub flat : Option (Option Entry) → Option Entry
flat none = none
flat (some e) = e

unfoldable pub entry_at : Pool → Text → Option Entry
unfolding lookup
entry_at pool key = flat (lookup key pool)

-- The last argument of `recordUse`.
pub record Use : Type 0 where
  pub session_id : Value
  pub label : Value
  pub now : Value
  pub messages : Value

-- `Math.max(0, Math.floor(asNumber(messages, 1)))`, where `undefined` takes the default 1.
abbrev pub message_count : Value → ℕ
message_count undefined = 1
message_count (num n) = as_count (num n)
message_count _ = 1

-- Does the topic go on with the session that it has?
abbrev pub continuing : Option Entry → Text → Bool
continuing none id = false
continuing (some previous) id = as_text previous.session_id == id

abbrev wakes_of : Option Entry → ℕ
wakes_of none = 0
wakes_of (some previous) = as_count previous.wakes

abbrev created_of : Option Entry → ℤ → ℤ
created_of none at = at
created_of (some previous) at = as_number previous.created_at at

abbrev label_of : Option Entry → Text
label_of none = []
label_of (some previous) = as_text previous.label

-- The entry that `recordUse` builds over the previous one. `clock` is `Date.now()`.
unfoldable pub used_entry : ℤ → Option Entry → Use → Entry
used_entry clock previous u =
    let at = as_number u.now clock in
    let id = as_text u.session_id in
    let go_on = continuing previous id in
    record {
      session_id = str id;
      wakes = num (pos ((if go_on then wakes_of previous else 0) + message_count u.messages));
      created_at = num (if go_on then created_of previous at else at);
      last_used_at = num at;
      label = str (or_text (as_text u.label) (label_of previous));
      archived = bool false;
      archived_at = undefined;
    }

-- `recordUse`; a pool that is no object, `none`, is left alone.
unfoldable pub record_use : ℤ → Option Pool → Value → Use → Option Pool × Entry
unfolding used_entry entry_at
record_use clock none key u = (none, used_entry clock none u)
record_use clock (some store) key u =
    let entry = used_entry clock (entry_at store (as_text key)) u in
    (some (insert (as_text key) (some entry) store), entry)
