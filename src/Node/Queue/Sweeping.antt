-- ===== src/Node/Queue/Sweeping.antt =====
-- src/capabilities.mjs: after `sweep` no command is both unfinished and too old.
use dsh_link.Common.{
  ℕ, ◌≡◌, ◌∙◌, refl, Bool, true, ◌||◌, Option, none, some, [], ◌∷◌, Text, text_eq, text_dec, arith,
}
use dsh_link.Common.{Option-cases, Bool-cases, ◌⊎◌, inl, inr, All}
use dsh_link.Common.Dict.{Dict, lookup, NodupKeys, lookup-insert}
use dsh_link.Common.Sort.{lookup-sort_dict, All-sort_dict}
use dsh_link.Node.Queue.{
  is_terminal, Command, Queue, flat, command_at, records, given_up, is_young, sweep_loop, by_id,
  list_records, sweep,
}
use dsh_link.Node.Queue.Laws.{IsWellFormed, expire, records-All}

-- The command has ended, is young, or is not there.
abbrev pub IsSettled : Text → ℕ → Queue → Type 0
IsSettled k now q =
    (c : Command)
    → command_at q k ≡ some c
    → (is_terminal c.status ≡ true) ⊎ (is_young q now c.created_at ≡ true)

expire-IsSettled :
    (now : ℕ) (c : Command) (q : Queue) (k : Text)
    → IsSettled k now q
    → IsSettled k now (expire now c q)
unfolding command_at
expire-IsSettled now c q k h d found =
    ground (arith, lookup-insert k c.id (some (given_up now c)) q.files, h d)

sweep_loop-IsSettled :
    (now : ℕ) (listed : Dict Command) (q : Queue) (k : Text)
    → IsSettled k now q
    → IsSettled k now (sweep_loop now listed q).0
unfolding sweep_loop
sweep_loop-IsSettled now [] q k h = h
sweep_loop-IsSettled now ((name, c) ∷ listed) q k h =
    elim (Bool-cases (is_terminal c.status || is_young q now c.created_at)) [
      | inl skip ↦ rw skip (sweep_loop-IsSettled now listed q k h)
      | inr old ↦
          rw old (sweep_loop-IsSettled now listed (expire now c q) k (expire-IsSettled now c q k h))
    ]

-- A listed record is settled by its round.
sweep_loop_settles :
    (now : ℕ) (listed : Dict Command) (q : Queue) (k : Text) (c : Command)
    → All (λ e. e.1.id ≡ e.0) listed
    → command_at q k ≡ some c
    → lookup k listed ≡ some c
    → IsSettled k now (sweep_loop now listed q).0
unfolding sweep_loop
sweep_loop_settles now [] q k c _ found h = unfold lookup in cc
sweep_loop_settles now ((name, d) ∷ listed) q k c (n, ns) found h = elim (text_dec name k) [
  | yes here ↦
      let same : d ≡ c = unfold lookup in ground arith in
      elim (Bool-cases (is_terminal d.status || is_young q now d.created_at)) [
        | inl skip ↦ rw skip (sweep_loop-IsSettled now listed q k (λ c' found'. ground arith))
        | inr old ↦ rw old (
            sweep_loop-IsSettled now listed (expire now d q) k (λ c' found'.
              unfold command_at in
              ground (arith, lookup-insert k d.id (some (given_up now d)) q.files)))
      ]
  | no other ↦
      let later : lookup k listed ≡ some c = unfold lookup in ground arith in
      elim (Bool-cases (is_terminal d.status || is_young q now d.created_at)) [
        | inl skip ↦ rw skip (sweep_loop_settles now listed q k c ns found later)
        | inr old ↦ rw old (
            sweep_loop_settles now listed (expire now d q) k c ns
              (unfold command_at in
                ground (arith, lookup-insert k d.id (some (given_up now d)) q.files))
              later)
      ]
]

abbrev FilesNamed : Dict (Option Command) → Type 0
FilesNamed files = (k : Text) (c : Command) → lookup k files ≡ some (some c) → c.id ≡ k

lookup-records :
    (k : Text) (files : Dict (Option Command))
    → NodupKeys files
    → FilesNamed files
    → lookup k (records files) ≡ flat (lookup k files)
unfolding records lookup
lookup-records k [] u n = refl
lookup-records k ((name, none) ∷ files) (fresh, u) n = ground (
  arith,
  lookup-records k files u (λ j c h. n j c (ground arith)),
  lookup-records name files u (λ j c h. n j c (ground arith)),
)
lookup-records k ((name, some c) ∷ files) (fresh, u) n =
    ground (arith, lookup-records k files u (λ j d h. n j d (ground arith)), n name c)

records-NodupKeys :
    (files : Dict (Option Command)) → NodupKeys files → FilesNamed files → NodupKeys (records files)
unfolding records lookup
records-NodupKeys [] u n = tt
records-NodupKeys ((name, none) ∷ files) (fresh, u) n =
    records-NodupKeys files u (λ j c h. n j c (ground arith))
records-NodupKeys ((name, some c) ∷ files) (fresh, u) n =
    let tail : FilesNamed files = λ j d h. n j d (ground arith) in
    ground (arith, records-NodupKeys files u tail, lookup-records name files u tail)

-- After a sweep every command of the directory, listed or not, has ended or is younger than
-- `commandTtlSeconds`, where the directory is in order.
pub sweep_settles :
    (id_le : Text → Text → Bool) (q : Queue) (now : ℕ) (k : Text) (c : Command)
    → IsWellFormed q
    → command_at (sweep id_le q now).0 k ≡ some c
    → (is_terminal c.status ≡ true) ⊎ (is_young (sweep id_le q now).0 now c.created_at ≡ true)
unfolding sweep
sweep_settles id_le q now k c w =
    let n : FilesNamed q.files = λ j d h. w.named j d (unfold command_at in rw h) in
    elim (Option-cases (command_at q k)) [
      | inl absent ↦ sweep_loop-IsSettled now (list_records id_le q) q k (λ d found. ground arith) c
      | inr (d, found) ↦
          sweep_loop_settles now (list_records id_le q) q k d
            (unfold list_records in
              All-sort_dict (by_id id_le) (λ e. e.1.id ≡ e.0) (records q.files)
                (records-All (λ e. e.1.id ≡ e.0) q.files w.distinct (λ j e h i. i)))
            found
            (unfold list_records command_at in
              lookup-sort_dict (by_id id_le) k (records q.files)
                (records-NodupKeys q.files w.distinct n)
              ∙ lookup-records k q.files w.distinct n
              ∙ found)
            c
    ]
