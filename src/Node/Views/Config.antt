-- ===== src/Node/Views/Config.antt =====
-- src/dshview.mjs: `normalizeDshViewConfig`.
use dsh_link.Common.{ℕ, ◌≤◌, Bool, false, not, List, [], map, Text, arith}
use dsh_link.Common.{is_empty, if◌then◌else◌, filter, trim, split}
use dsh_link.Common.Values.{Value, str}
use dsh_link.Node.Readers.{to_int, to_int_bounds, flag_bool}

-- A value that may be a list of values, each of which `String` makes a text.
pub data RawList : Type 0 where
  items : List Text → RawList
  single : Value → RawList

pub record RawView : Type 0 where
  pub enabled : Value
  pub home : Value
  pub expose_workspaces : Value
  pub expose_transcripts : Value
  pub transcript_max_chars : Value
  pub transcript_max_messages : Value
  pub exclude_workspaces : RawList

pub record ViewSettings : Type 0 where
  pub enabled : Bool
  pub home : Text
  pub expose_workspaces : Bool
  pub expose_transcripts : Bool
  pub transcript_max_chars : ℕ
  pub transcript_max_messages : ℕ
  pub exclude_workspaces : List Text

abbrev listed : RawList → List Text
listed (items values) = values
listed (single (str s)) = if is_empty (trim s) then [] else split b',' s
listed (single v) = []

-- `normalizeExcludeList`
unfoldable pub normalize_exclude_list : RawList → List Text
unfolding trim split filter
normalize_exclude_list value = filter (λ s. not (is_empty s)) (map trim (listed value))

abbrev trimmed_text : Value → Text
trimmed_text (str s) = trim s
trimmed_text v = []

-- `normalizeDshViewConfig`
unfoldable pub normalize_dsh_view_config : RawView → ViewSettings
unfolding flag_bool to_int normalize_exclude_list trim
normalize_dsh_view_config src = record {
  enabled = flag_bool src.enabled false;
  home = trimmed_text src.home;
  expose_workspaces = flag_bool src.expose_workspaces false;
  expose_transcripts = flag_bool src.expose_transcripts false;
  transcript_max_chars = to_int src.transcript_max_chars 8000 200 1000000;
  transcript_max_messages = to_int src.transcript_max_messages 200 1 10000;
  exclude_workspaces = normalize_exclude_list src.exclude_workspaces;
}

-- The settings are within their bounds whatever is given.
normalize_dsh_view_config_bounds :
    (src : RawView)
    → let s = normalize_dsh_view_config src in
      (200 ≤ s.transcript_max_chars)
      × (s.transcript_max_chars ≤ 1000000)
      × (1 ≤ s.transcript_max_messages)
      × (s.transcript_max_messages ≤ 10000)
unfolding normalize_dsh_view_config
normalize_dsh_view_config_bounds src =
    let (a, b) =
      to_int_bounds src.transcript_max_chars 8000 200 1000000 (omega arith) (omega arith) in
    let (c, d) =
      to_int_bounds src.transcript_max_messages 200 1 10000 (omega arith) (omega arith) in
    (a, b, c, d)
