-- ===== src/Node/Mcp/Laws.antt =====
-- src/mcp.mjs and src/server.mjs: which messages are answered, and in which order.
use dsh_link.Common.{
  ◌≡◌, ◌∙◌, refl, sym, ap, subst, true, false, not, ◌&&◌, Option, none, some, List, [], ◌∷◌, map,
  Text, text_eq, ◌==◌, codes,
}
use dsh_link.Common.{if◌then◌else◌, is_some, Option-cases, inl, inr, arith}
use dsh_link.Common.Values.{Value}
use dsh_link.Node.Mcp.{
  Message, ToolResult, done_tool, unknown_tool, failed_tool, Reply, Response, is_notice, called,
  reply_to, wanted, handle_mcp_message, with_response, handle_batch,
}

-- The ids that are answered: of what is no object, null; else of each message with an id, but of those
-- notices that are never answered.
abbrev pub answered_ids : {A : Type 0} → List (Option (Message A)) → List (Option Value)
answered_ids [] = []
answered_ids (none ∷ messages) = none ∷ answered_ids messages
answered_ids (some m ∷ messages) =
    let rest = answered_ids messages in
    if is_some m.id && not (is_notice m.method) then m.id ∷ rest else rest

is_notice-initialize :
    (method : Text) → (method == codes "initialize") ≡ true → is_notice method ≡ false
is_notice-initialize method h =
    let same : method ≡ codes "initialize" = ground arith in
    subst (λ x. is_notice x ≡ false) (sym same) (unfold text_eq in refl)

module _ {A R W : Type 0} (call_tool : Text → A → W → W × ToolResult R) where
  is_some-called : (out : W × ToolResult R) → is_some (called out).1 ≡ true
  is_some-called (w, done_tool r) = refl
  is_some-called (w, unknown_tool) = refl
  is_some-called (w, failed_tool) = refl

  is_some-reply_to :
      (m : Message A) (w : W) → is_some (reply_to call_tool m w).1 ≡ not (is_notice m.method)
  unfolding reply_to
  is_some-reply_to m w = elim (Option-cases m.tool) [
    | inl e ↦ ground (arith, is_notice-initialize m.method)
    | inr (name, e) ↦
        ground (arith, is_notice-initialize m.method, is_some-called (call_tool name m.arguments w))
  ]

  map-wanted :
      (id : Option Value) (out : W × Option (Reply R)) (rest : List (Response R))
      → map (λ r. r.id) (with_response (wanted id out).1 rest)
        ≡ (if is_some id && is_some out.1 then id ∷ map (λ r. r.id) rest else map (λ r. r.id) rest)
  map-wanted none (w, reply) rest = refl
  map-wanted (some id) (w, none) rest = refl
  map-wanted (some id) (w, some reply) rest = refl

  -- Whatever the tools do, the responses to a batch are one for each message with an id that is no
  -- notice, and one for each message that is no object, in the order of the messages and under their
  -- ids, and there are no others.
  pub map-handle_batch :
      (messages : List (Option (Message A))) (w : W)
      → map (λ r. r.id) (handle_batch call_tool messages w).1 ≡ answered_ids messages
  unfolding handle_batch handle_mcp_message
  map-handle_batch [] w = refl
  map-handle_batch (none ∷ messages) w = ap (λ ids. none ∷ ids) (map-handle_batch messages w)
  map-handle_batch (some m ∷ messages) w =
      let out = reply_to call_tool m w in
      let next = (wanted m.id out).0 in
      let rest = (handle_batch call_tool messages next).1 in
      map-wanted m.id out rest ∙ rw (is_some-reply_to m w, map-handle_batch messages next) refl
