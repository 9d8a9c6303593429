-- ===== src/Node/Store/Jsonl.antt =====
-- src/store.mjs: the files of records, one JSON text on a line, and the counts of the store. The parser
-- and the printer of JSON are parameters.
use mathlib.Core.List.{append_assoc, append-nil, reverse}
use dsh_link.Common.{
  ℕ, ◌+◌, ◌≡◌, ◌∙◌, refl, sym, ap, Bool, true, false, not, ◌&&◌, ◌||◌, Option, none, some, List, [],
  ◌∷◌, ◌++◌, map, Text, text_eq, ◌==◌, arith,
}
use dsh_link.Common.{
  is_empty, if◌then◌else◌, any, filter, length, trim, split, split_onto, has_unit, eqb, Bool-cases,
  inl, inr, or_default,
}
use dsh_link.Node.Store.{Message, State, Store, load_state, is_read, pending_outbox}

split_onto-append :
    (cur s t : Text) → split_onto 10 cur (s ++ (10 ∷ t)) ≡ split_onto 10 cur s ++ split_onto 10 [] t
unfolding split_onto
split_onto-append cur [] t = refl
split_onto-append cur (c ∷ s) t = elim (Bool-cases (eqb c 10)) [
  | inl e ↦ rw e (ap (λ lines. reverse cur ∷ lines) (split_onto-append [] s t))
  | inr e ↦ rw e (split_onto-append (c ∷ cur) s t)
]

module _ {R : Type 0} (parse : Text → Option R) (print : R → Text) where
  abbrev with_record : Option R → List R → List R
  with_record none records = records
  with_record (some r) records = r ∷ records

  -- The loop over the lines; a line that is no record is passed over.
  unfoldable pub parsed_lines : List Text → List R
  unfolding trim
  parsed_lines [] = []
  parsed_lines (line ∷ lines) =
      let rest = parsed_lines lines in
      let t = trim line in if is_empty t then rest else with_record (parse t) rest

  -- `_readJsonl`, of the text of the file.
  unfoldable pub read_jsonl : Text → List R
  unfolding parsed_lines split
  read_jsonl text = parsed_lines (split 10 text)

  -- `_appendJsonl`
  unfoldable pub append_jsonl : R → Text → Text
  append_jsonl r text = text ++ (print r ++ (10 ∷ []))

  with_record-append :
      (o : Option R) (xs ys : List R) → with_record o (xs ++ ys) ≡ with_record o xs ++ ys
  with_record-append none xs ys = refl
  with_record-append (some r) xs ys = refl

  parsed_lines-append :
      (xs ys : List Text) → parsed_lines (xs ++ ys) ≡ parsed_lines xs ++ parsed_lines ys
  unfolding parsed_lines
  parsed_lines-append [] ys = refl
  parsed_lines-append (x ∷ xs) ys = elim (Bool-cases (is_empty (trim x))) [
    | inl e ↦ rw e (parsed_lines-append xs ys)
    | inr e ↦ rw e (
        ap (with_record (parse (trim x))) (parsed_lines-append xs ys)
        ∙ with_record-append (parse (trim x)) (parsed_lines xs) (parsed_lines ys))
  ]

  read_nothing : read_jsonl [] ≡ []
  unfolding read_jsonl parsed_lines split split_onto trim dsh_link.Common.trim_end
      dsh_link.Common.trim_start
  read_nothing = refl

  -- The lines of two texts with a line break between them are read one after the other.
  read_jsonl-append : (s t : Text) → read_jsonl (s ++ (10 ∷ t)) ≡ read_jsonl s ++ read_jsonl t
  unfolding read_jsonl split
  read_jsonl-append s t =
      ap parsed_lines (split_onto-append [] s t)
      ∙ parsed_lines-append (split_onto 10 [] s) (split_onto 10 [] t)

  read_jsonl-end : (s : Text) → read_jsonl (s ++ (10 ∷ [])) ≡ read_jsonl s
  read_jsonl-end s =
      read_jsonl-append s [] ∙ ap (λ r. read_jsonl s ++ r) read_nothing ∙ append-nil (read_jsonl s)

  -- A record that is appended to a file that ends in a line break is read behind the others, where the
  -- text of the record alone is read as that record.
  read_jsonl-append_jsonl :
      (r : R) (body : Text)
      → read_jsonl (print r) ≡ r ∷ []
      → read_jsonl (append_jsonl r (body ++ (10 ∷ []))) ≡ read_jsonl (body ++ (10 ∷ [])) ++ (r ∷ [])
  unfolding append_jsonl
  read_jsonl-append_jsonl r body again =
      ap read_jsonl (append_assoc body (10 ∷ []) (print r ++ (10 ∷ [])))
      ∙ read_jsonl-append body (print r ++ (10 ∷ []))
      ∙ rw (read_jsonl-end (print r), read_jsonl-end body, again) refl

-- The counts of the store.
pub record StoreStats : Type 0 where
  pub inbox : ℕ
  pub inbox_unread : ℕ
  pub outbox : ℕ
  pub outbox_pending : ℕ
  pub threads : ℕ

abbrev pub count_unread : State → List Message → ℕ
count_unread state ms = length (filter (λ m. not (is_read state m.id)) ms)

-- The threads that are named, each once.
unfoldable pub distinct_threads : List Message → List Text
distinct_threads [] = []
distinct_threads (m ∷ ms) =
    let rest = distinct_threads ms in
    if is_empty m.thread || any (λ t. t == m.thread) rest then rest else m.thread ∷ rest

-- `stats`
unfoldable pub stats : Store → Store × StoreStats
unfolding load_state filter distinct_threads pending_outbox
stats store =
    let (loaded, state) = load_state store in
    (
      loaded,
      record {
        inbox = length store.inbox;
        inbox_unread = count_unread state store.inbox;
        outbox = length store.outbox;
        outbox_pending = length (pending_outbox store).1;
        threads = length (distinct_threads store.inbox);
      },
    )
