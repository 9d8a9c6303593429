-- ===== src/Bridge/Routes/Matching.antt =====
-- routes.js: `routeFor` answers from a live route of the table.
use dsh_link.Common.{◌≡◌, ◌≢◌, ◌⊎◌, inl, inr, refl, true, false}
use dsh_link.Common.{Option, none, some, [], ◌∷◌, Text, text_eq, arith}
use dsh_link.Common.{trim, or_default, Bool-cases}
use dsh_link.Common.Int.{ℤ}
use dsh_link.Common.Dict.{lookup}
use dsh_link.Bridge.Routes.{
  RoutePolicy, RawRoutes, normalize_route_policy, Route, Table, route_at, owner, as_text, expired,
  includes, Inbound, Hit, answers, route_by_reply, route_for_reply, is_direct, route_for,
}

-- The route stands in the table under the key.
abbrev pub Listed : Text → Route → Table → Type 0
Listed k r [] = ⊥
Listed k r ((j, s) ∷ table) = ((j ≡ k) × (s ≡ some r)) ⊎ Listed k r table

pub Listed-route_at :
    (k : Text) (r : Route) (table : Table) → route_at table k ≡ some r → Listed k r table
unfolding route_at lookup
Listed-route_at k r [] h = cc
Listed-route_at k r ((j, s) ∷ table) h = ground (arith, Listed-route_at k r table)

-- Why a route may answer a message.
abbrev pub Answers : Inbound → Text → Route → Type 0
Answers m k r =
    (trim (as_text m.thread) ≡ k)
    ⊎ (includes (or_default r.message_ids []) (trim (as_text m.reply_to)) ≡ true)

-- Where an answer comes from.
pub record Source (settings : RoutePolicy) (now : ℤ) (m : Inbound) (hit : Hit) (table : Table)
    : Type 0 where
  pub key : Text
  pub route : Route
  pub listed : Listed key route table
  pub owned : hit.session_id ≡ owner route
  pub named : owner route ≢ []
  pub live : expired (some route) settings now ≡ false
  pub reason : Answers m key route

module _ (settings : RoutePolicy) (now : ℤ) (m : Inbound) (hit : Hit) where
  Source-cons :
      {table : Table} (slot : Text × Option Route)
      → Source settings now m hit table
      → Source settings now m hit (slot ∷ table)
  Source-cons slot s = record {
    key = s.key;
    route = s.route;
    listed = inr s.listed;
    owned = s.owned;
    named = s.named;
    live = s.live;
    reason = s.reason;
  }

  Source-head :
      (j : Text) (r : Route) (table : Table)
      → answers settings now (trim (as_text m.reply_to)) (some r) ≡ true
      → hit.session_id ≡ owner r
      → Source settings now m hit ((j, some r) ∷ table)
  unfolding answers
  Source-head j r table h e = record {
    key = j;
    route = r;
    listed = inl (refl, refl);
    owned = e;
    named = λ empty. ground (arith);
    live = ground arith;
    reason = inr (ground arith);
  }

  route_by_reply_sound :
      (table : Table)
      → (route_by_reply settings now (trim (as_text m.reply_to)) table).1 ≡ some hit
      → Source settings now m hit table
  unfolding route_by_reply
  route_by_reply_sound [] h = cc
  route_by_reply_sound ((j, none) ∷ table) h =
      Source-cons (j, none) (route_by_reply_sound table (unfold answers in h))
  route_by_reply_sound ((j, some r) ∷ table) h =
      elim (Bool-cases (answers settings now (trim (as_text m.reply_to)) (some r))) [
        | inl e ↦ Source-head j r table e (ground arith)
        | inr e ↦ Source-cons (j, some r) (route_by_reply_sound table (rw e at h))
      ]

pub is_direct_sound :
    (settings : RoutePolicy) (now : ℤ) (thread : Text) (o : Option Route)
    → is_direct settings now thread o ≡ true
    → (r : Route) × (o ≡ some r) × (owner r ≢ []) × (expired (some r) settings now ≡ false)
is_direct_sound settings now thread none h = absurd (ground arith)
is_direct_sound settings now thread (some r) h = (r, refl, (λ empty. ground arith), ground arith)

-- A message is routed only to the session of a route in the table that names one, that has not
-- expired, and that stands under the message's thread or holds the id that the message replies to.
pub route_for_sound :
    (table : Table) (m : Inbound) (now : ℤ) (policy : Option RawRoutes) (hit : Hit)
    → (route_for (some table) (some m) now policy).1 ≡ some hit
    → Source (normalize_route_policy policy) now m hit table
unfolding route_for route_for_reply
route_for_sound table m now policy hit h =
    let settings = normalize_route_policy policy in
    let thread = trim (as_text m.thread) in
    elim (Bool-cases settings.enabled) [
      | inr off ↦ ground arith
      | inl on ↦ elim (Bool-cases (is_direct settings now thread (route_at table thread))) [
        | inl e ↦
            let (r, found, named, live) =
              is_direct_sound settings now thread (route_at table thread) e in
            record {
              key = thread;
              route = r;
              listed = Listed-route_at thread r table found;
              owned = ground arith;
              named = named;
              live = live;
              reason = inl refl;
            }
        | inr e ↦ route_by_reply_sound settings now m hit table (ground arith)
      ]
    ]
