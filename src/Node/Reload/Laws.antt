-- ===== src/Node/Reload/Laws.antt =====
-- src/reload.mjs: a running node has the configuration that its file has.
use dsh_link.Common.{
  ℕ, ◌≡◌, ◌∙◌, refl, subst, Bool, true, false, not, ◌&&◌, ◌||◌, Option, none, some, List, [], ◌∷◌,
  Text, text_eq, ◌==◌, codes, ◌+◌,
}
use dsh_link.Common.{if◌then◌else◌, is_some, ltb, Bool-cases, inl, inr, arith, All}
use dsh_link.Common.Dict.{Dict, lookup, insert, erase, lookup-insert, lookup-erase, NodupKeys}
use dsh_link.Node.Reload.{
  copy_keys, drop_keys, apply_config_into, File, Watcher, same_signature, loaded, looked_at, check,
}

abbrev is_kept : Text → Bool
is_kept key = key == codes "configPath"

same_signature-some :
    (current : Text) (o : Option Text) → same_signature current o ≡ true → o ≡ some current
same_signature-some current none h = absurd (ground arith)
same_signature-some current (some s) h = ground arith

module _ {V : Type 0} where
  abbrev or_else : Option V → Option V → Option V
  or_else none b = b
  or_else (some a) b = some a

  lookup-copy_keys :
      (next target : Dict V) (k : Text)
      → NodupKeys next
      → lookup k (copy_keys next target)
        ≡ (if is_kept k then lookup k target else or_else (lookup k next) (lookup k target))
  unfolding copy_keys lookup
  lookup-copy_keys [] target k u = ground arith
  lookup-copy_keys ((key, v) ∷ next) target k (fresh, u) = elim (Bool-cases (is_kept key)) [
    | inl e ↦ rw e (lookup-copy_keys next target k u ∙ ground arith)
    | inr e ↦ rw e (
        lookup-copy_keys next (insert key v target) k u
        ∙ ground (arith, lookup-insert k key v target))
  ]

  lookup-drop_keys :
      (next listed target : Dict V) (k : Text)
      → lookup k (drop_keys next listed target) ≡ (
          if is_kept k || is_some (lookup k next) || not (is_some (lookup k listed))
          then lookup k target
          else none)
  unfolding drop_keys lookup
  lookup-drop_keys next [] target k = ground arith
  lookup-drop_keys next ((key, v) ∷ listed) target k = ground (
    arith,
    lookup-drop_keys next listed target k,
    lookup-drop_keys next listed (erase key target) k,
    lookup-erase k key target,
  )

  -- After `applyConfigInto` each key has the value of the new configuration, and none where this has
  -- none, but for `configPath`, which stays as it was; where no key stands twice in the new one.
  lookup-apply_config_into :
      (target next : Dict V) (k : Text)
      → NodupKeys next
      → lookup k (apply_config_into target next)
        ≡ (if is_kept k then lookup k target else lookup k next)
  unfolding apply_config_into
  lookup-apply_config_into target next k u =
      let copied = copy_keys next target in
      lookup-drop_keys next copied copied k ∙ rw (lookup-copy_keys next target k u) (ground arith)

  -- What the node has is, but for `configPath`, what the file has.
  abbrev pub IsSame : Dict V → Dict V → Type 0
  IsSame a b = (k : Text) → (k == codes "configPath") ≡ false → lookup k a ≡ lookup k b

  module _ (content_of : Text → Dict V) where
    -- The file is loaded, and its signature tells what it holds.
    abbrev pub IsLoadable : File V → Type 0
    IsLoadable file =
        (s : Text)
        → file.signature ≡ some s
        → (file.content ≡ some (content_of s)) × NodupKeys (content_of s)

    abbrev pub IsInSync : Watcher V → Type 0
    IsInSync w = (s : Text) → w.signature ≡ some s → IsSame w.cfg (content_of s)

    loaded-IsSame :
        (current : Text) (w : Watcher V)
        → NodupKeys (content_of current)
        → IsSame (loaded current w (some (content_of current))).0.cfg (content_of current)
    loaded-IsSame current w u k h =
        lookup-apply_config_into w.cfg (content_of current) k u ∙ rw h refl

    loaded-all :
        (current : Text) (w : Watcher V)
        → NodupKeys (content_of current)
        → (s : Text) → some current ≡ some s
        → IsSame (loaded current w (some (content_of current))).0.cfg (content_of s)
    loaded-all current w u s h =
        let same : current ≡ s = ground arith in
        subst (λ x. IsSame (loaded current w (some (content_of current))).0.cfg (content_of x)) same
          (loaded-IsSame current w u)

    looked_at-signed :
        (signature : Option Text) (file : File V) (w : Watcher V)
        → file.signature ≡ signature
        → IsLoadable file
        → IsInSync w
        → IsInSync (looked_at file w).0
          × ((s : Text) → signature ≡ some s → IsSame (looked_at file w).0.cfg (content_of s))
    looked_at-signed none file w e l i = rw e (i, λ s h. absurd (ground arith))
    looked_at-signed (some current) file w e l i =
        let (c, u) = l current e in
        elim (Bool-cases (same_signature current w.signature)) [
          | inl g ↦ rw (e, g) (i, λ s h. i s (same_signature-some current w.signature g ∙ h))
          | inr g ↦ rw (e, g, c) (loaded-all current w u, loaded-all current w u)
        ]

    check-IsInSync :
        (interval : ℕ) (force : Bool) (now : ℕ) (file : File V) (w : Watcher V)
        → IsLoadable file
        → IsInSync w
        → IsInSync (check interval force now file w).0
    unfolding check
    check-IsInSync interval force now file w l i =
        elim (Bool-cases (not force && ltb now (w.last_check + interval))) [
          | inl e ↦ rw e i
          | inr e ↦
              rw e
                ((looked_at-signed file.signature file (record w { last_check = now }) refl l i).0)
        ]

    -- Checks one after the other, each at its time with the file as it is then.
    unfoldable pub run : ℕ → List (ℕ × File V) → Watcher V → Watcher V
    unfolding check
    run interval [] w = w
    run interval ((now, file) ∷ checks) w = run interval checks (check interval false now file w).0

    run-IsInSync :
        (interval : ℕ) (checks : List (ℕ × File V)) (w : Watcher V)
        → All (λ c. IsLoadable c.1) checks
        → IsInSync w
        → IsInSync (run interval checks w)
    unfolding run
    run-IsInSync interval [] w l i = i
    run-IsInSync interval ((now, file) ∷ checks) w (l, ls) i =
        run-IsInSync interval checks (check interval false now file w).0 ls
          (check-IsInSync interval false now file w l i)

    -- After any checks, a check that is forced or not throttled leaves the node with the configuration
    -- of the file as it is, but for `configPath`; where the node began with what its file held, every
    -- file could be loaded and had no key twice, and the signature tells what a file holds.
    pub check-run :
        (interval : ℕ) (checks : List (ℕ × File V)) (w : Watcher V) (force : Bool) (now : ℕ)
        (file : File V) (s : Text)
        → All (λ c. IsLoadable c.1) checks
        → IsInSync w
        → IsLoadable file
        → file.signature ≡ some s
        → (not force && ltb now ((run interval checks w).last_check + interval)) ≡ false
        → IsSame (check interval force now file (run interval checks w)).0.cfg (content_of s)
    unfolding check
    check-run interval checks w force now file s ls i l h e =
        let w' : Watcher V = record (run interval checks w) { last_check = now } in
        rw e (
          (looked_at-signed file.signature file w' refl l (run-IsInSync interval checks w ls i)).1 s
            h)
