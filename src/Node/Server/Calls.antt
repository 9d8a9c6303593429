-- ===== src/Node/Server/Calls.antt =====
-- src/server.mjs and src/ops.mjs: a call of a capability, from the request to the command queue. The
-- calls of other nodes are a parameter, as is what others do with the queue while the call waits.
use dsh_link.Common.{
  ℕ, zero, ◌*◌, min, ◌≡◌, refl, subst, ◌∙◌, Bool, true, false, not, ◌&&◌, ◌||◌, Option, none, some,
  [], Text, text_eq, ◌==◌,
}
use dsh_link.Common.{is_empty, if◌then◌else◌, codes, eqb, or_default, Bool-cases, inl, inr, arith}
use dsh_link.Common.Int.{pos, pos_part}
use dsh_link.Common.Values.{Value, undefined, null, nan, bool, num, str, to_number}
use dsh_link.Node.Capabilities.{RawConfig, authorize_call}
use dsh_link.Node.Queue.{Command, Queue, Refusal, Result, ok, err, enqueue, is_allowed}
use dsh_link.Node.Queue.Waiting.{Waited, wait}
use dsh_link.Node.Server.{Via, with_token, from_localhost, openly}

-- What a call gives: an error with its status, the answer of another node, or the state of its command,
-- with the seconds that it was waited for.
pub data Called : Type 0 where
  call_refused : ℕ → Text → Called
  queue_refused : Refusal → Called
  of_peer : Text → Called
  queued : Command → Called
  unfinished : Command → ℕ → Called
  summary : Command → Called

-- `Math.max(0, Math.min(Number(v) || 0, high))`
abbrev pub clamped : ℕ → Value → ℕ
clamped high v = min (pos_part (or_default (to_number v) (pos 0))) high

-- `v ?? other`
abbrev pub or_else : Value → Value → Value
or_else undefined other = other
or_else null other = other
or_else v other = v

-- `!v`
abbrev pub is_falsy : Value → Bool
is_falsy undefined = true
is_falsy null = true
is_falsy nan = true
is_falsy (bool b) = not b
is_falsy (num (pos zero)) = true
is_falsy (str []) = true
is_falsy _ = false

-- The seconds to wait: those that are given, those of the configuration, or 30; at most so many.
abbrev pub seconds_of : RawConfig → ℕ → Value → ℕ
seconds_of cfg high wait_seconds =
    clamped high (
      or_else wait_seconds (or_else (or_default cfg.top.max_wait_seconds undefined) (num (pos 30))))

abbrev called_of : Command → ℕ → Option Command → Called
called_of c seconds none = unfinished c seconds
called_of c seconds (some finished) = summary finished

abbrev after_wait : Command → ℕ → Option Waited → Option (Queue × Called)
after_wait c seconds none = none
after_wait c seconds (some out) = some (out.queue, called_of c seconds out.given)

module _ (others : ℕ → Queue → Queue) (closing : Option ℕ) (has_commands : Bool) where
  abbrev pub waiting : ℕ → ℕ → Queue × Result Command → Option (Queue × Called)
  waiting now seconds (q, err e) = some (q, queue_refused e)
  waiting now seconds (q, ok c) =
      let later =
        after_wait c seconds (wait others closing (str c.id) (num (pos (seconds * 1000))) now q) in
      if eqb seconds 0 then some (q, queued c) else later

  -- `dshCallLocal`, for an origin.
  unfoldable pub dsh_call_local :
      RawConfig → Text → ℕ → Value → Value → Text → Queue → Option (Queue × Called)
  unfolding authorize_call enqueue wait to_number
  dsh_call_local cfg id now method wait_seconds origin q =
      if is_falsy method
      then some (q, call_refused 400 (codes "bad_request"))
      else if not has_commands
      then some (q, call_refused 503 (codes "capabilities_unavailable"))
      else if is_allowed (authorize_call cfg origin method)
      then waiting now (seconds_of cfg 180 wait_seconds) (enqueue q id now origin method)
      else some (q, call_refused 403 (codes "capability_denied"))

if_false {ℓ} : {A : Type ℓ} (x y : A) (b : Bool) → b ≡ false → (if b then x else y) ≡ y
if_false x y b h = rw h refl

abbrev pub is_self : Text → Text → Bool
is_self name peer = is_empty peer || peer == name || peer == codes "self" || peer == codes "local"

-- The `peer` of the `origin` of a request.
abbrev pub origin_of : Text → Via → Text
origin_of ip (with_token who) = who.label
origin_of ip from_localhost = ip
origin_of ip openly = ip

-- `target`: the empty text for this node.
abbrev pub target_of : Text → Text → Text
target_of name peer =
    if not (is_empty peer) && not (peer == name) && not (peer == codes "self") then peer else []

module _ (others : ℕ → Queue → Queue) (closing : Option ℕ) (has_commands : Bool)
    (call_peer : Text → Value → ℕ → Called) where
  -- `dshCall`
  unfoldable pub dsh_call :
      Text → RawConfig → Text → ℕ → Text → Value → Value → Queue → Option (Queue × Called)
  unfolding dsh_call_local
  dsh_call name cfg id now peer method wait_seconds q =
      if is_falsy method
      then some (q, call_refused 400 (codes "bad_request"))
      else if is_self name peer
      then dsh_call_local others closing has_commands cfg id now method wait_seconds name q
      else some (q, call_peer peer method (seconds_of cfg 120 wait_seconds))

  -- The handler of `POST /api/v1/dsh/call`.
  unfoldable pub on_dsh_call :
      Text
      → RawConfig
      → Text
      → ℕ
      → Text
      → Via
      → Text
      → Value
      → Value
      → Queue
      → Option (Queue × Called)
  unfolding dsh_call
  on_dsh_call name cfg id now ip via peer method wait_seconds q =
      let target = target_of name peer in
      if is_empty target
      then dsh_call_local others closing has_commands cfg id now method wait_seconds
          (origin_of ip via) q
      else dsh_call name cfg id now target method wait_seconds q

  -- Under whose name a call on this node is judged: the caller's, but this node's own where the peer of
  -- the request is the word `local`.
  abbrev pub judged_as : Text → Text → Via → Text → Text
  judged_as name ip via peer =
      if target_of name peer == codes "local" then name else origin_of ip via

  target_of-here :
      (name peer : Text)
      → is_self name peer ≡ true
      → (target_of name peer == codes "local") ≡ false
      → target_of name peer ≡ []
  target_of-here name peer s e = ground arith

  target_of-local :
      (name peer : Text)
      → (target_of name peer == codes "local") ≡ true
      → (is_empty (target_of name peer) ≡ false) × (is_self name (target_of name peer) ≡ true)
  target_of-local name peer e = (ground arith, ground arith)

  -- How a call is refused that the policy does not allow: for its method, for the channel that this
  -- node lacks, or by the policy.
  abbrev pub refused_as : Value → Called
  refused_as method =
      if is_falsy method
      then call_refused 400 (codes "bad_request")
      else if not has_commands
      then call_refused 503 (codes "capabilities_unavailable")
      else call_refused 403 (codes "capability_denied")

  dsh_call_local-denied :
      (cfg : RawConfig) (id : Text) (now : ℕ) (method wait_seconds : Value) (origin : Text)
      (q : Queue)
      → is_allowed (authorize_call cfg origin method) ≡ false
      → dsh_call_local others closing has_commands cfg id now method wait_seconds origin q
        ≡ some (q, refused_as method)
  unfolding dsh_call_local
  dsh_call_local-denied cfg id now method wait_seconds origin q d =
      elim (Bool-cases (is_falsy method)) [
        | inl e ↦ rw e refl
        | inr e ↦ elim (Bool-cases has_commands) [
          | inl h ↦ rw (e, h, d) refl
          | inr h ↦ rw (e, h) refl
        ]
      ]

  dsh_call-denied :
      (name : Text) (cfg : RawConfig) (id : Text) (now : ℕ) (peer : Text)
      (method wait_seconds : Value) (q : Queue)
      → is_self name peer ≡ true
      → is_allowed (authorize_call cfg name method) ≡ false
      → dsh_call name cfg id now peer method wait_seconds q ≡ some (q, refused_as method)
  unfolding dsh_call
  dsh_call-denied name cfg id now peer method wait_seconds q s d =
      elim (Bool-cases (is_falsy method)) [
        | inl e ↦ rw e refl
        | inr e ↦
            if_false _ _ (is_falsy method) e
            ∙ rw s (dsh_call_local-denied cfg id now method wait_seconds name q d)
      ]

  -- A call that names this node and that the policy does not allow to the name under which it is judged
  -- leaves the queue as it was and is refused: with 400 where it names no method, else with 503 where
  -- this node has no command channel, else with 403. That name is the label of the caller's token or
  -- its address; but where the peer of the request is the word `local`, and this is not the name of the
  -- node, it is the name of this node, whoever calls.
  pub on_dsh_call_denied :
      (name : Text) (cfg : RawConfig) (id : Text) (now : ℕ) (ip : Text) (via : Via) (peer : Text)
      (method wait_seconds : Value) (q : Queue)
      → is_self name peer ≡ true
      → is_allowed (authorize_call cfg (judged_as name ip via peer) method) ≡ false
      → on_dsh_call name cfg id now ip via peer method wait_seconds q ≡ some (q, refused_as method)
  unfolding on_dsh_call
  on_dsh_call_denied name cfg id now ip via peer method wait_seconds q s d =
      let denied : Text → Type 0 = λ x. is_allowed (authorize_call cfg x method) ≡ false in
      elim (Bool-cases (target_of name peer == codes "local")) [
        | inl e ↦
            let (full, own) = target_of-local name peer e in
            let under : judged_as name ip via peer ≡ name = rw e refl in
            if_false _ _ (is_empty (target_of name peer)) full
            ∙ dsh_call-denied name cfg id now (target_of name peer) method wait_seconds q own
                (subst denied under d)
        | inr e ↦
            let origin = origin_of ip via in
            let under : judged_as name ip via peer ≡ origin = rw e refl in
            rw (target_of-here name peer s e)
              (dsh_call_local-denied cfg id now method wait_seconds origin q (subst denied under d))
      ]
