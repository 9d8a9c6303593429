-- ===== src/Node/Capabilities/Methods.antt =====
-- src/capabilities.mjs: the known methods and `methodList`.
use dsh_link.Common.{
  ◌++◌, Bool, true, false, not, ◌&&◌, Option, none, some, List, [], ◌∷◌, Text, codes, text_eq, ◌==◌,
}
use dsh_link.Common.{trim, is_empty, if◌then◌else◌}
use dsh_link.Common.Dict.{Dict, lookup}
use dsh_link.Common.Values.{Value, str}

pub data Kind : Type 0 where
  read action : Kind

-- `CAPABILITY_METHODS`, without the descriptions.
abbrev pub capability_methods : Dict Kind
capability_methods =
    (codes "workspaces.list", read)
    ∷ (codes "sessions.list", read)
    ∷ (codes "sessions.read", read)
    ∷ (codes "sessions.create", action)
    ∷ (codes "sessions.prompt", action)
    ∷ (codes "sessions.rename", action)
    ∷ (codes "sessions.archive", action)
    ∷ (codes "bridge.status", read)
    ∷ []

unfoldable pub method_kind : Text → Option Kind
unfolding lookup
method_kind name = lookup name capability_methods

-- `CAPABILITY_DEFAULTS.methods`
abbrev pub default_methods : List Text
default_methods =
    codes "workspaces.list"
    ∷ codes "sessions.list"
    ∷ codes "sessions.read"
    ∷ codes "bridge.status"
    ∷ []

abbrev pub is_known : Text → Bool
is_known name = elim (method_kind name) [ none ↦ false | some k ↦ true ]

abbrev pub includes : List Text → Text → Bool
includes [] name = false
includes (x ∷ xs) name = if x == name then true else includes xs name

abbrev pub trimmed : Value → Text
trimmed (str s) = trim s
trimmed _ = []

-- What one entry adds to the list.
unfoldable pub push_method : List Text → Text → List Text
unfolding method_kind
push_method out name =
    if not (is_empty name) && (is_known name && not (includes out name))
    then out ++ name ∷ []
    else out

-- The loop of `methodList`, over what was pushed before.
unfoldable pub method_list_onto : List Text → List Value → List Text
unfolding push_method
method_list_onto out [] = out
method_list_onto out (entry ∷ value) = method_list_onto (push_method out (trimmed entry)) value

-- `methodList`; `none` as an argument is a value that is no array.
unfoldable pub method_list : Option (List Value) → Option (List Text)
unfolding method_list_onto
method_list none = none
method_list (some value) = some (method_list_onto [] value)
