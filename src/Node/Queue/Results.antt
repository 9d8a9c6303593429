-- ===== src/Node/Queue/Results.antt =====
-- src/capabilities.mjs: the size of what `clampResult` leaves.
use dsh_link.Common.{ℕ, zero, suc, ◌+◌, ◌*◌, ◌-◌, ◌<◌, ◌≡◌, refl, List, [], ◌∷◌, min}
use dsh_link.Common.{arith, length, take, if◌then◌else◌, eqb, ◌||◌, All, Bool, true}
use dsh_link.Node.Queue.{Payload, whole, clipped, clamp_result}

-- A byte that a JSON text writes as two: a quote or a backslash.
abbrev is_escaped : ℕ → Bool
is_escaped b = eqb b 34 || eqb b 92

-- How many bytes the preview takes between its quotes when it is written as a JSON text.
abbrev escaped : List ℕ → ℕ
escaped [] = 0
escaped (b ∷ bytes) = (if is_escaped b then 2 else 1) + escaped bytes

-- How many bytes of JSON text a result takes: of a clipped one the preview alone.
abbrev pub stored : Payload → ℕ
stored (whole json) = length json
stored (clipped bytes preview) = escaped preview

abbrev inner : ℕ → List ℕ
inner zero = 34 ∷ []
inner (suc n) = 92 ∷ 34 ∷ inner n

-- The JSON text of a text of `n` quotes.
abbrev pub quotes : ℕ → List ℕ
quotes n = 34 ∷ inner n

abbrev AllEscaped : List ℕ → Type 0
AllEscaped = All (λ b. is_escaped b ≡ true)

inner-AllEscaped : (n : ℕ) → AllEscaped (inner n)
inner-AllEscaped zero = (refl, tt)
inner-AllEscaped (suc n) = (refl, (refl, inner-AllEscaped n))

length-inner : (n : ℕ) → length (inner n) ≡ 2 * n + 1
length-inner zero = refl
length-inner (suc n) = omega (arith, length-inner n)

escaped-take :
    (k : ℕ) (bytes : List ℕ) → AllEscaped bytes → escaped (take k bytes) ≡ 2 * min k (length bytes)
escaped-take zero bytes h = omega arith
escaped-take (suc k) [] h = omega arith
escaped-take (suc k) (b ∷ bytes) (e, h) = rw e (omega (arith, escaped-take k bytes h))

-- A clipped result can take more than `maxResultBytes`: the bytes are counted before the preview is
-- written as a JSON text, so where the limit is more than 320, the preview of a text of quotes that
-- is too long for the limit is longer than the limit.
pub clamp_result_overflows :
    (n max_bytes : ℕ)
    → 320 < max_bytes
    → max_bytes < 2 * n + 2
    → max_bytes < stored (clamp_result (quotes n) max_bytes)
unfolding clamp_result
clamp_result_overflows n max_bytes h k =
    let size = length-inner n in
    let preview = escaped-take (max_bytes - 160) (quotes n) (refl, inner-AllEscaped n) in
    ground (arith, size, preview)
