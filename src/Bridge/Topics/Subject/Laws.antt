-- ===== src/Bridge/Topics/Subject/Laws.antt =====
-- topics.js: a reply has the subject of the message that it answers.
use dsh_link.Common.{ℕ, zero, suc, ◌≡◌, ◌∙◌, refl, sym, none, some, [], ◌∷◌, ◌++◌, Text}
use dsh_link.Common.{codes, trim, trim_start, trim_end, is_space, Option-cases, inl, inr}
use dsh_link.Common.Trim.{trim_start_idempotent, trim_end_idempotent, trim_start-trim_end}
use dsh_link.Common.Values.{str}
use dsh_link.Bridge.Topics.Readers.{as_text}
use dsh_link.Bridge.Topics.Subject.{after_subject_prefix, strip_rounds, normalize_subject}

-- A round more changes nothing where no marker is left.
strip_rounds-suc :
    (n : ℕ) (text : Text)
    → after_subject_prefix (strip_rounds n text) ≡ none
    → strip_rounds (suc n) text ≡ strip_rounds n text
unfolding strip_rounds
strip_rounds-suc zero text h = rw (h, strip_rounds)
strip_rounds-suc (suc n) text h = elim (Option-cases (after_subject_prefix text)) [
  | inl e ↦ rw (e, strip_rounds)
  | inr (next, e) ↦
      rw (e, strip_rounds) (strip_rounds-suc n (trim next) (rw (e, strip_rounds) at h))
]

-- "Re: " in front of a text is the marker that is found, and the text is what is left.
after_subject_prefix-reply :
    (s t : Text)
    → trim_end s ≡ t
    → after_subject_prefix (trim (codes "Re: " ++ s)) ≡ some (trim_start t)
unfolding after_subject_prefix trim trim_start trim_end is_space
after_subject_prefix-reply s [] e = rw e
after_subject_prefix-reply s (c ∷ t) e = rw e

strip_rounds-reply :
    (n : ℕ) (s : Text) → strip_rounds (suc n) (trim (codes "Re: " ++ s)) ≡ strip_rounds n (trim s)
unfolding strip_rounds trim
strip_rounds-reply n s =
    rw (after_subject_prefix-reply s (trim_end s) refl, strip_rounds)
      (rw (
        trim_start_idempotent (trim_end s),
        trim_start-trim_end s,
        trim_end_idempotent (trim_start s),
      ))

-- "Re: " in front of a subject does not change its normal form, where fifteen rounds of stripping
-- leave no marker at the head of the subject.
pub normalize_subject-reply :
    (s : Text)
    → after_subject_prefix (strip_rounds 15 (trim s)) ≡ none
    → normalize_subject (str (codes "Re: " ++ s)) ≡ normalize_subject (str s)
unfolding normalize_subject as_text
normalize_subject-reply s h = strip_rounds-reply 15 s ∙ sym (strip_rounds-suc 15 (trim s) h)
