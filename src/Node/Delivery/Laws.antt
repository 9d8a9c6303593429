-- ===== src/Node/Delivery/Laws.antt =====
-- src/ops.mjs: a flush over a connection that loses requests and answers.
use dsh_link.Common.{◌≡◌, true, false, Option, none, some, List, [], ◌∷◌, Text, text_eq, ◌==◌}
use dsh_link.Common.{codes}
use dsh_link.Node.Store.{Message}
use dsh_link.Node.Delivery.{LinkNode, Answer, Delivered, delivered, pending}
use dsh_link.Node.Delivery.Lossy.{Network, Grows, Holds}

-- A message that another node is said to have taken is there.
abbrev pub Arrived : Delivered → LinkNode → Message → Type 0
Arrived pending remote m = Unit
Arrived (delivered via) remote m = (via == codes "local") ≡ false → Holds remote m

-- So for each message and what became of it.
abbrev pub AllArrived : LinkNode → List Message → List Delivered → Type 0
AllArrived remote [] [] = Unit
AllArrived remote [] (o ∷ outcomes) = true ≡ false
AllArrived remote (m ∷ ms) [] = true ≡ false
AllArrived remote (m ∷ ms) (o ∷ outcomes) = Arrived o remote m × AllArrived remote ms outcomes

module _ {W : Type 0} (onward : Text → Message → W → W × Answer) where
  abbrev TookBy : Option Text → LinkNode → Message → Type 0
  TookBy none remote m = Unit
  TookBy (some via) remote m = Holds remote m

  abbrev KeptBy : Network W → Network W × Option Text → Message → Type 0
  KeptBy before (after, taken) m = Grows before.remote after.remote × TookBy taken after.remote m

  abbrev KeptTo : Network W → LinkNode × Network W × Delivered → Message → Type 0
  KeptTo before (node, after, outcome) m =
      Grows before.remote after.remote × Arrived outcome after.remote m
