-- ===== src/Node/Reload.antt =====
-- src/reload.mjs: the watcher of the configuration file of a running node. A value of the configuration
-- is abstract; the file is its signature (modification time and size) with what loading it gives, and it
-- does not change within one check. One check runs at a time.
pub mod Laws
mod Tests
use dsh_link.Common.{
  ℕ, ◌+◌, Bool, true, false, not, ◌&&◌, ◌||◌, Option, none, some, List, [], ◌∷◌, Text, text_eq,
  ◌==◌,
}
use dsh_link.Common.{if◌then◌else◌, codes, ltb, is_some}
use dsh_link.Common.Dict.{Dict, lookup, insert, erase}

module _ {V : Type 0} where
  -- The loop over the keys of the new configuration.
  unfoldable pub copy_keys : Dict V → Dict V → Dict V
  copy_keys [] target = target
  copy_keys ((key, v) ∷ next) target =
      let rest = copy_keys next target in
      let copied = copy_keys next (insert key v target) in
      if key == codes "configPath" then rest else copied

  -- The loop over the keys of the old one, as they stand.
  unfoldable pub drop_keys : Dict V → Dict V → Dict V → Dict V
  drop_keys next [] target = target
  drop_keys next ((key, v) ∷ listed) target =
      let kept = drop_keys next listed target in
      let dropped = drop_keys next listed (erase key target) in
      if key == codes "configPath" || is_some (lookup key next) then kept else dropped

  -- `applyConfigInto`
  unfoldable pub apply_config_into : Dict V → Dict V → Dict V
  unfolding copy_keys drop_keys
  apply_config_into target next = let copied = copy_keys next target in drop_keys next copied copied

-- The file: `none` for no signature where it cannot be read, and for a configuration that cannot be
-- loaded.
pub record File (V : Type 0) : Type 0 where
  pub signature : Option Text
  pub content : Option (Dict V)

pub record Watcher (V : Type 0) : Type 0 where
  pub cfg : Dict V
  pub signature : Option Text
  pub last_check : ℕ
  pub reloads : ℕ
  pub has_error : Bool

-- What `check` tells.
pub data Checked : Type 0 where
  throttled unreadable unchanged reloaded failed : Checked

abbrev pub same_signature : Text → Option Text → Bool
same_signature current none = false
same_signature current (some s) = current == s

module _ {V : Type 0} where
  abbrev pub loaded : Text → Watcher V → Option (Dict V) → Watcher V × Checked
  loaded current w none = (record w { signature = some current; has_error = true }, failed)
  loaded current w (some next) = (
    record w {
      signature = some current;
      cfg = apply_config_into w.cfg next;
      reloads = w.reloads + 1;
      has_error = false;
    },
    reloaded,
  )

  abbrev pub looked_at : File V → Watcher V → Watcher V × Checked
  looked_at file w = elim file.signature [
    | none ↦ (record w { has_error = true }, unreadable)
    | some current ↦
        if same_signature current w.signature then (w, unchanged) else loaded current w file.content
  ]

  -- `check`, at a time.
  unfoldable pub check : ℕ → Bool → ℕ → File V → Watcher V → Watcher V × Checked
  unfolding apply_config_into
  check interval force now file w =
      if not force && ltb now (w.last_check + interval)
      then (w, throttled)
      else looked_at file (record w { last_check = now })
