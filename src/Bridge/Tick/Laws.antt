-- ===== src/Bridge/Tick/Laws.antt =====
-- index.js: what one `tick` may do to the sessions, the counters and the watermark.
use dsh_link.Common.{ℕ, ◌+◌, ◌≤◌, ◌≡◌, ◌∙◌, refl, Option, none, some, [], ◌∷◌, ◌++◌, Text, arith}
use dsh_link.Common.{Bool-cases, inl, inr, ◌⊎◌, codes}
use dsh_link.Common.Int.{pos}
use dsh_link.Bridge.Topics.Keys.{topic_label}
use dsh_link.Bridge.Routes.{Hit, route_for}
use dsh_link.Bridge.Wake.{Mark}
use dsh_link.Bridge.Sessions.{
  Call, prompt_session, Reply, returned, threw, Bridge, Settings, Host, is_dead, ensure_session_for,
}
use dsh_link.Bridge.Sessions.Opening.{ensure_session_for-IsAside}
use dsh_link.Bridge.Sessions.Laws.{prompts, creations, prompts-snoc, creations-snoc, IsAside}
use dsh_link.Bridge.Tick.{
  Incoming, Ending, finished, failed, id_text, mark_of, inbound_of, or_table, is_missing_error,
  after_prompt, prompt, counted, by_topic, choose, wake,
}

-- What a part of a tick may do, where `mark` is that of the newest message.
pub record Course (mark : Mark) (b b' : Bridge) (ending : Ending) : Type 0 where
  pub prompted : prompts b'.calls ≤ prompts b.calls + 1
  pub created : creations b'.calls ≤ creations b.calls + 1
  pub errors : b'.errors ≡ b.errors
  pub watermark :
      (b'.runtime.watermark ≡ b.runtime.watermark)
      ⊎ ((b'.runtime.watermark ≡ mark) × (ending ≡ finished))
  pub notified :
      ((b'.notified ≡ b.notified) × (b'.runtime.last_notify_at ≡ b.runtime.last_notify_at))
      ⊎ ((prompts b'.calls ≡ prompts b.calls + 1)
          × (b'.runtime.watermark ≡ mark)
          × (ending ≡ finished))

pub IsAside-Course :
    (mark : Mark) (b b' : Bridge) (ending : Ending) → IsAside 1 b b' → Course mark b b' ending
IsAside-Course mark b b' ending p = record {
  prompted = omega (arith, p.prompted);
  created = p.created;
  errors = p.errors;
  watermark = inl p.watermark;
  notified = inl (p.notified, p.last_notify_at);
}

-- A first part that leaves everything alone, and opens no session.
pub Course-behind :
    (mark : Mark) (a b c : Bridge) (ending : Ending)
    → IsAside 0 a b
    → Course mark b c ending
    → Course mark a c ending
Course-behind mark a b c ending p q = record {
  prompted = omega (arith, p.prompted, q.prompted);
  created = omega (arith, p.created, q.created);
  errors = q.errors ∙ p.errors;
  watermark = elim q.watermark [ inl e ↦ inl (e ∙ p.watermark) | inr e ↦ inr e ];
  notified = elim q.notified [
    | inl (e, f) ↦ inl (e ∙ p.notified, f ∙ p.last_notify_at)
    | inr (e, f, g) ↦ inr (omega (arith, e, p.prompted), f, g)
  ];
}

after_prompt-Course :
    (now : ℕ) (newest : Incoming) (count : ℕ) (thread id : Text) (a b : Bridge) (request : Text)
    (r : Reply)
    → IsAside 1 a b
    → let b' : Bridge = record b { calls = b.calls ++ prompt_session id request ∷ [] } in
      let out = after_prompt now newest count thread id (b', r) in
      Course (mark_of newest) a out.0 out.1
after_prompt-Course now newest count thread id a b request (returned _) p =
    let c : Call = prompt_session id request in
    record {
      prompted = omega (arith, p.prompted, prompts-snoc b.calls c);
      created = omega (arith, p.created, creations-snoc b.calls c);
      errors = p.errors;
      watermark = inr (refl, refl);
      notified = inr (omega (arith, p.prompted, prompts-snoc b.calls c), refl, refl);
    }
after_prompt-Course now newest count thread id a b request (threw e) p =
    let c : Call = prompt_session id request in
    elim (Bool-cases (is_missing_error e)) [
      | inl m ↦ rw m (record {
        prompted = omega (arith, p.prompted, prompts-snoc b.calls c);
        created = omega (arith, p.created, creations-snoc b.calls c);
        errors = p.errors;
        watermark = inl p.watermark;
        notified = inl (p.notified, p.last_notify_at);
      })
      | inr m ↦ rw m (record {
        prompted = omega (arith, p.prompted, prompts-snoc b.calls c);
        created = omega (arith, p.created, creations-snoc b.calls c);
        errors = p.errors;
        watermark = inl p.watermark;
        notified = inl (p.notified, p.last_notify_at);
      })
    ]

prompt-Course :
    (host : Host) (now : ℕ) (newest : Incoming) (count : ℕ) (thread : Text) (a b : Bridge)
    (r : Reply)
    → IsAside 1 a b
    → let out = prompt host now newest count thread (b, r) in Course (mark_of newest) a out.0 out.1
prompt-Course host now newest count thread a b (threw e) p =
    IsAside-Course (mark_of newest) a b (failed e) p
prompt-Course host now newest count thread a b (returned id) p =
    let request : Text = codes "link-bridge:" ++ id ++ codes ":" ++ id_text newest.message.id in
    let b1 : Bridge = record b { runtime = record b.runtime { session_id = id } } in
    let q : IsAside 1 a b1 = record {
      prompted = p.prompted;
      created = p.created;
      watermark = p.watermark;
      last_notify_at = p.last_notify_at;
      notified = p.notified;
      errors = p.errors;
    } in
    after_prompt-Course now newest count thread id a b1 request
      (host (b.calls ++ prompt_session id request ∷ [])) q

counted-IsAside :
    (s : Settings) (now count : ℕ) (key label : Text) (a b : Bridge) (r : Reply)
    → IsAside 1 a b
    → IsAside 1 a (counted s now count key label (b, r)).0
counted-IsAside s now count key label a b (threw e) p = p
counted-IsAside s now count key label a b (returned id) p = record {
  prompted = p.prompted;
  created = p.created;
  watermark = p.watermark;
  last_notify_at = p.last_notify_at;
  notified = p.notified;
  errors = p.errors;
}

by_topic-IsAside :
    (host : Host) (s : Settings) (now count : ℕ) (key label : Text) (b : Bridge)
    → IsAside 1 b (by_topic host s now count key label b).0
by_topic-IsAside host s now count key label b =
    let (b', r) = ensure_session_for host s now key label b in
    counted-IsAside s now count key label b b' r (ensure_session_for-IsAside host s now key label b)

choose-IsAside :
    (host : Host) (s : Settings) (now count : ℕ) (key label : Text) (hit : Option Hit) (b : Bridge)
    → IsAside 1 b (choose host s now count key label hit b).0
choose-IsAside host s now count key label none b = by_topic-IsAside host s now count key label b
choose-IsAside host s now count key label (some hit) b =
    elim (Bool-cases (is_dead b hit.session_id)) [
      | inl e ↦ rw e (by_topic-IsAside host s now count key label b)
      | inr e ↦ rw e (record {
        prompted = refl;
        created = omega arith;
        watermark = refl;
        last_notify_at = refl;
        notified = refl;
        errors = refl;
      })
    ]

pub wake-Course :
    (host : Host) (s : Settings) (now : ℕ) (newest : Incoming) (count : ℕ) (key : Text) (b : Bridge)
    → let out = wake host s now newest count key b in Course (mark_of newest) b out.0 out.1
unfolding wake
wake-Course host s now newest count key b =
    let (table, hit) =
      route_for (some b.runtime.routes) (some (inbound_of newest)) (pos now) s.routes in
    let routed : Bridge = record b { runtime = record b.runtime { routes = or_table table } } in
    let label = topic_label (some newest.message) in
    let (b', r) = choose host s now count key label hit routed in
    let p = choose-IsAside host s now count key label hit routed in
    let q : IsAside 1 b b' = record {
      prompted = p.prompted;
      created = p.created;
      watermark = p.watermark;
      last_notify_at = p.last_notify_at;
      notified = p.notified;
      errors = p.errors;
    } in
    prompt-Course host now newest count key b b' r q
