-- ===== src/Bridge/Topics/Plan/Laws.antt =====
-- topics.js: when `planSession` keeps a session, and what it asks to archive.
use dsh_link.Common.{◌*◌, ◌<◌, ◌≡◌, ◌≢◌, ◌↔◌, ap, true, false}
use dsh_link.Common.{
  Option, none, some, List, [], ◌∷◌, Text, or_default, arith, Option-cases, inl, inr,
}
use dsh_link.Common.Int.{ℤ, GapLe}
use dsh_link.Common.Values.{Value, is_true}
use dsh_link.Bridge.Topics.Readers.{as_text, as_number, as_count}
use dsh_link.Bridge.Topics.Policy.{TopicPolicy, RawPolicy, normalize_topic_policy}
use dsh_link.Bridge.Topics.Pool.{Entry, Pool, entry_at}
use dsh_link.Bridge.Topics.Plan.{
  create, keep, Archived, Plan, Probe, session_exists, plan_entry, plan_session, reuse,
}

-- What a session must satisfy to be kept, said without the tests of the code.
pub record IsUsable (settings : TopicPolicy) (at : ℤ) (exists : Option (Text → Probe)) (e : Entry)
    : Type 0 where
  pub not_archived : is_true e.archived ≡ false
  pub named : as_text e.session_id ≢ []
  pub live : session_exists exists (as_text e.session_id) ≡ true
  pub awake : GapLe at (as_number e.last_used_at at) (settings.topic_idle_reset_seconds * 1000)
  pub in_budget : as_count e.wakes < settings.max_session_wakes
  pub young : GapLe at (as_number e.created_at at) (settings.max_session_age_seconds * 1000)

module _ (settings : TopicPolicy) (at : ℤ) (key : Text) (exists : Option (Text → Probe)) where
  plan_entry_sound :
      (e : Entry)
      → (plan_entry settings at key exists e).action ≡ keep
      → IsUsable settings at exists e
  unfolding plan_entry
  plan_entry_sound e h = ground arith

  plan_entry_complete :
      (e : Entry)
      → IsUsable settings at exists e
      → (plan_entry settings at key exists e).action ≡ keep
  unfolding plan_entry
  plan_entry_complete e u = ground arith

  -- What a plan over one entry may archive.
  plan_entry_archive :
      (e : Entry) {a : Archived} {more : List Archived}
      → (plan_entry settings at key exists e).archive ≡ a ∷ more
      → (a.key ≡ key)
        × (a.session_id ≡ as_text e.session_id)
        × (a.session_id ≢ [])
        × (session_exists exists a.session_id ≡ true)
        × (is_true e.archived ≡ false)
        × (more ≡ [])
        × ((plan_entry settings at key exists e).action ≡ create)
        × ((plan_entry settings at key exists e).reason ≡ a.reason)
  unfolding plan_entry
  plan_entry_archive e h = ground arith

  plan_entry-keep :
      (e : Entry)
      → (plan_entry settings at key exists e).action ≡ keep
      → plan_entry settings at key exists e ≡ record {
        action = keep;
        session_id = some (as_text e.session_id);
        reason = reuse;
        archive = [];
        entry = some e;
      }
  unfolding plan_entry
  plan_entry-keep e h = ground arith

  plan_entry-create :
      (e : Entry)
      → (plan_entry settings at key exists e).action ≡ create
      → (plan_entry settings at key exists e).session_id ≡ none
  unfolding plan_entry
  plan_entry-create e h = ground arith

module _ (clock : ℤ) (pool : Option Pool) (key now : Value) (policy : Option RawPolicy)
    (exists : Option (Text → Probe)) where
  abbrev pub plan : Plan
  plan = plan_session clock pool key now policy exists

  abbrev settings : TopicPolicy
  settings = normalize_topic_policy policy

  abbrev stored : Option Entry
  stored = entry_at (or_default pool []) (as_text key)

  abbrev Usable : Entry → Type 0
  Usable = IsUsable (normalize_topic_policy policy) (as_number now clock) exists

  keep_sound : plan.action ≡ keep → (e : Entry) × (stored ≡ some e) × Usable e
  unfolding plan_session
  keep_sound h = elim (Option-cases stored) [
    | inl absent ↦ absurd (cc (rw (absent, plan_session) at h))
    | inr (e, found) ↦
        (e, found, plan_entry_sound _ _ (as_text key) exists e (rw (found, plan_session) at h))
  ]

  keep_complete : (e : Entry) × (stored ≡ some e) × Usable e → plan.action ≡ keep
  unfolding plan_session
  keep_complete (e, found, u) =
      rw (found, plan_session) (plan_entry_complete _ _ (as_text key) exists e u)

  -- A plan keeps a session exactly when the pool has an entry under the key that is not archived,
  -- names a session, the probe does not deny that session, the topic has not slept longer than
  -- `topicIdleResetSeconds`, the session has served fewer wakes than `maxSessionWakes`, and it is
  -- not older than `maxSessionAgeSeconds`.
  pub plan_session-keep_iff : (plan_session clock pool key now policy exists).action ≡ keep ↔ (
      (e : Entry) × (entry_at (or_default pool []) (as_text key) ≡ some e)
      × IsUsable (normalize_topic_policy policy) (as_number now clock) exists e)
  plan_session-keep_iff = (keep_sound, keep_complete)

  -- The first archived session, where there is one, is the one that the entry under the key names,
  -- it is not empty, the probe does not deny it, the entry was not archived yet; it is the only
  -- one, and the plan opens a new session for the reason that the record gives.
  pub plan_session_archive :
      {a : Archived} {more : List Archived}
      → (plan_session clock pool key now policy exists).archive ≡ a ∷ more
      → (e : Entry) × (entry_at (or_default pool []) (as_text key) ≡ some e)
        × (a.key ≡ as_text key)
        × (a.session_id ≡ as_text e.session_id)
        × (a.session_id ≢ [])
        × (session_exists exists a.session_id ≡ true)
        × (is_true e.archived ≡ false)
        × (more ≡ [])
        × ((plan_session clock pool key now policy exists).action ≡ create)
        × ((plan_session clock pool key now policy exists).reason ≡ a.reason)
  unfolding plan_session
  plan_session_archive h = elim (Option-cases stored) [
    | inl absent ↦ absurd (cc (rw (absent, plan_session) at h))
    | inr (e, found) ↦
        let facts =
          plan_entry_archive settings (as_number now clock) (as_text key) exists e
            (rw (found, plan_session) at h) in
        (
          e,
          found,
          facts.0,
          facts.1,
          facts.2,
          facts.3,
          facts.4,
          facts.5,
          rw (found, plan_session) facts.6,
          rw (found, plan_session) facts.7,
        )
  ]

  -- A kept session is the one that the entry names, and nothing is archived with it.
  pub plan_session-keep :
      (e : Entry)
      → entry_at (or_default pool []) (as_text key) ≡ some e
      → plan.action ≡ keep
      → (plan.session_id ≡ some (as_text e.session_id)) × (plan.archive ≡ [])
  unfolding plan_session
  plan_session-keep e found h =
      let whole =
        plan_entry-keep settings (as_number now clock) (as_text key) exists e
          (rw (found, plan_session) at h) in
      rw (found, plan_session)
        (ap (λ (p : Plan). p.session_id) whole, ap (λ (p : Plan). p.archive) whole)
