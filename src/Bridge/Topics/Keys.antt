-- ===== src/Bridge/Topics/Keys.antt =====
-- topics.js: `topicKeyFor` and `topicLabel`.
use dsh_link.Common.{ℕ, ◌≤◌, ◌≡◌, ap, false, Option, none, some, List, [], ◌∷◌, ◌++◌}
use dsh_link.Common.{Text, codes, trim, is_empty, or_text, if◌then◌else◌, take, length, ltb, arith}
use dsh_link.Common.{split, collapse_onto, length-take, length-append, Bool-cases, inl, inr}
use dsh_link.Common.Values.{Value, str}
use dsh_link.Bridge.Topics.Readers.{as_text}
use dsh_link.Bridge.Topics.Policy.{Strategy, subject, RawPolicy, normalize_topic_policy}
use dsh_link.Bridge.Topics.Subject.{normalize_subject, after_subject_prefix, strip_rounds}
use dsh_link.Bridge.Topics.Subject.Laws.{normalize_subject-reply}

-- The `from` field: an object with a name and a node id, or any other value.
pub data Sender : Type 0 where
  known : Value → Value → Sender
  other : Value → Sender

-- The properties of an inbound message that the topic policy reads.
pub record Message : Type 0 where
  pub id : Value
  pub thread : Value
  pub subject : Value
  pub body : Value
  pub from : Sender

-- `peerNameOf`
unfoldable pub peer_name_of : Option Message → Text
peer_name_of none = []
peer_name_of (some m) = elim m.from [
  | known name node_id ↦ or_text (as_text name) (as_text node_id)
  | other v ↦ as_text v
]

abbrev field : (Message → Value) → Option Message → Value
field get none = str []
field get (some m) = get m

-- `slice(0, max)`
abbrev pub slice_to : ℕ → Text → Text
slice_to most s = if ltb most (length s) then take most s else s

-- `topicPartOf`
unfoldable pub topic_part_of : Text → Text
topic_part_of text = slice_to 120 (trim (collapse_onto false text))

-- `firstLineOf`. A carriage return at the end of a line is a space, which `trim` removes.
unfoldable pub first_line : List Text → Text
first_line [] = []
first_line (line ∷ lines) = or_text (trim line) (first_line lines)

unfoldable pub first_line_of : Value → Text
unfolding first_line
first_line_of body = first_line (split 10 (as_text body))

abbrev topic_or_id : Text → Text → Text → Text
topic_or_id peer text id =
    if is_empty text
    then codes "msg:" ++ or_text id (codes "unknown")
    else codes "topic:" ++ (peer ++ (b'/' ∷ topic_part_of text))

-- The branches of `topicKeyFor`, on the peer's name, the thread, the subject and the id.
unfoldable pub key_under : Strategy → Text → Text → Text → Text → Text
key_under subject peer thread_text text id = topic_or_id peer text id
key_under _ peer thread_text text id =
    if is_empty thread_text then topic_or_id peer text id else codes "thread:" ++ thread_text

-- `topicKeyFor`; `none` is a message that is no object.
unfoldable pub topic_key_for : Option Message → Option RawPolicy → Text
unfolding key_under
topic_key_for m policy =
    key_under (normalize_topic_policy policy).strategy (peer_name_of m)
      (trim (as_text (field (λ x. x.thread) m))) (normalize_subject (field (λ x. x.subject) m))
      (trim (as_text (field (λ x. x.id) m)))

-- The last line of `topicLabel`.
clip_label : Text → Text
clip_label head = if ltb 60 (length head) then take 60 head ++ codes "…" else head

length-clip_label : (head : Text) → length (clip_label head) ≤ 61
unfolding clip_label
length-clip_label head = elim (Bool-cases (ltb 60 (length head))) [
  | inl long ↦
      rw long (omega (arith, length-append (take 60 head) (codes "…"), length-take 60 head))
  | inr short ↦ rw short (ground arith)
]

label_text : Message → Text
label_text m =
    let source = or_text (normalize_subject m.subject) (first_line_of m.body) in
    or_text (or_text (trim (collapse_onto false source)) (as_text m.id)) (codes "untitled")

label_head : Message → Text
unfolding label_text
label_head m =
    let peer = peer_name_of (some m) in
    if is_empty peer then label_text m else peer ++ (codes ": " ++ label_text m)

-- `topicLabel`
unfoldable pub topic_label : Option Message → Text
unfolding clip_label label_head
topic_label none = []
topic_label (some m) = clip_label (label_head m)

-- A label has at most 61 characters, the ellipsis included.
pub length-topic_label : (m : Option Message) → length (topic_label m) ≤ 61
unfolding topic_label
length-topic_label none = omega arith
length-topic_label (some m) = length-clip_label (label_head m)

-- A reply, whose subject is "Re: " and the subject of a message, and which has the same sender,
-- thread and id field as that message, has the topic key of the message, under every policy, where
-- fifteen rounds of stripping leave no marker at the head of the subject.
pub topic_key_for-reply :
    (m : Message) (s : Text) (policy : Option RawPolicy)
    → after_subject_prefix (strip_rounds 15 (trim s)) ≡ none
    → topic_key_for (some (record m { subject = str (codes "Re: " ++ s) })) policy
      ≡ topic_key_for (some (record m { subject = str s })) policy
unfolding topic_key_for peer_name_of key_under
topic_key_for-reply m s policy h =
    ap
      (λ t.
        key_under (normalize_topic_policy policy).strategy (peer_name_of (some m))
          (trim (as_text m.thread)) t (trim (as_text m.id)))
      (normalize_subject-reply s h)
