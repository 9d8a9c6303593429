-- ===== src/Node/Queue/Tests.antt =====
-- src/capabilities.mjs: tests on concrete inputs, and the theorems at inputs that meet their
-- hypotheses.
use dsh_link.Common.{
  ℕ, ◌+◌, ◌≤◌, ◌<◌, ◌≡◌, ◌≢◌, ◌↔◌, ◌⊎◌, inl, inr, refl, Bool, true, false, Option, none, some, List,
  [], ◌∷◌, Text, codes, text_eq, text_dec, arith, All, length, trim, trim_start, trim_end, is_space,
  to_lower, filter,
}
use dsh_link.Common.Dict.{lookup, insert}
use dsh_link.Common.Sort.{sort_dict}
use dsh_link.Common.Int.{pos}
use dsh_link.Common.Values.{num, str, bool}
use dsh_link.Node.Readers.{to_int, flag_bool}
use dsh_link.Node.Capabilities.{
  Policy, RawSection, RawConfig, raw_of, normalize_capability_config, allowed, authorize_call,
  scoped_peer, trimmed, default_methods,
}
use dsh_link.Node.Capabilities.Laws.{IsPermitted, authorize_call_iff}
use dsh_link.Node.Queue.{
  is_terminal, claimed, done, Command, Queue, command_at, records, count_active, clamp_result,
  new_command, enqueue, success, is_young, list_records, claim, sweep, claim_loop, claim_one,
}
use dsh_link.Node.Queue.Laws.{IsWellFormed, claim_op, complete_op, sweep_op, steps}
use dsh_link.Node.Queue.Ended.{steps-Ended}
use dsh_link.Node.Queue.Lifecycle.{Lives, phase}
use dsh_link.Node.Queue.Lifecycle.Laws.{steps-Lives}
use dsh_link.Node.Queue.Leases.{Among}
use dsh_link.Node.Queue.Exclusive.{claim_exclusive}
use dsh_link.Node.Queue.Sweeping.{sweep_settles}
use dsh_link.Node.Queue.Bounds.{enqueue_ok}
use dsh_link.Node.Queue.Results.{stored, quotes, clamp_result_overflows}

-- In file order.
abbrev id_le : Text → Text → Bool
id_le a b = true

abbrev unset : RawSection
unset = record {
  enabled = some (bool true);
  methods = none;
  peers = none;
  max_wait_seconds = none;
  command_ttl_seconds = none;
  max_pending = some (num (pos 2));
  claim_stale_seconds = none;
  max_result_bytes = none;
}

abbrev raw : RawConfig
raw = record { top = unset; capabilities = none }

reads_test : authorize_call raw [] (str (codes "sessions.list")) ≡ allowed
unfolding authorize_call normalize_capability_config flag_bool to_int trim_start trim_end trim
    is_space text_eq text_dec
reads_test = refl

authorize_call_iff_example :
    (authorize_call raw [] (str (codes "sessions.list")) ≡ allowed)
    ↔ IsPermitted
        (normalize_capability_config raw)
        (scoped_peer (normalize_capability_config raw) [])
        (trimmed (str (codes "sessions.list")))
authorize_call_iff_example = authorize_call_iff raw [] (str (codes "sessions.list"))

abbrev policy : Policy
policy = record {
  enabled = true;
  methods = default_methods;
  peers = [];
  max_wait_seconds = 30;
  command_ttl_seconds = 120;
  max_pending = 2;
  claim_stale_seconds = 60;
  max_result_bytes = 512;
}

abbrev waiting : Text → ℕ → Command
waiting id at = new_command id (str (codes "sessions.list")) at

abbrev one : Queue
one = record {
  policy = policy;
  files = (codes "c1", some (waiting (codes "c1") 1000)) ∷ [];
  claims = [];
}

one-IsWellFormed : IsWellFormed one
unfolding command_at lookup
one-IsWellFormed = record { named = λ k c h. ground arith; distinct = (refl, tt) }

abbrev held : Command
held = record (waiting (codes "c1") 1000) {
  status = claimed;
  claimed_by = some (codes "b1");
  claimed_at = some 2000;
  attempts = 1;
}

claim_test : (claim id_le one (num (pos 5)) (codes "b1") 2000).1 ≡ held ∷ []
unfolding claim claim_loop claim_one list_records records sort_dict to_int command_at lookup insert
    text_eq text_dec
claim_test = refl

claim_exclusive_example :
    All
      (λ v. v.id ≢ codes "c1")
      (claim id_le
        (steps id_le (claim id_le one (num (pos 5)) (codes "b1") 2000).0 (sweep_op 3000 ∷ []))
        (num (pos 5))
        (codes "b2")
        4000).1
claim_exclusive_example =
    claim_exclusive id_le one (num (pos 5)) (codes "b1") 2000 held (sweep_op 3000 ∷ [])
      (num (pos 5)) (codes "b2") 4000 one-IsWellFormed
      (dsh_link.Common.subst (λ out. Among held out) (dsh_link.Common.sym claim_test) (inl refl))
      (tt, tt) (inr (omega arith))

abbrev finished_one : Command
finished_one = record held { status = done; finished_at = some 2500 }

abbrev over : Queue
over = record { policy = policy; files = (codes "c1", some finished_one) ∷ []; claims = [] }

over-IsWellFormed : IsWellFormed over
unfolding command_at lookup
over-IsWellFormed = record { named = λ k c h. ground arith; distinct = (refl, tt) }

steps-Ended_example :
    command_at
      (steps id_le over (
        complete_op (str (codes "c1")) (success (1 ∷ [])) 3000
        ∷ sweep_op 900000
        ∷ claim_op (num (pos 5)) (codes "b2") 900000
        ∷ []))
      (codes "c1")
    ≡ some finished_one
unfolding command_at lookup text_eq text_dec
steps-Ended_example =
    steps-Ended id_le over (codes "c1") finished_one
      (complete_op (str (codes "c1")) (success (1 ∷ [])) 3000
        ∷ sweep_op 900000
        ∷ claim_op (num (pos 5)) (codes "b2") 900000
        ∷ [])
      over-IsWellFormed (tt, (tt, (tt, tt))) refl refl

sweep_settles_example :
    (is_terminal (waiting (codes "c1") 1000).status ≡ true)
    ⊎ (is_young (sweep id_le one 5000).0 5000 (some 1000) ≡ true)
unfolding sweep list_records records sort_dict command_at lookup text_eq text_dec
sweep_settles_example =
    sweep_settles id_le one 5000 (codes "c1") (waiting (codes "c1") 1000) one-IsWellFormed refl

enqueue_ok_example :
    (authorize_call (raw_of policy) [] (str (codes "sessions.list")) ≡ allowed)
    × (waiting (codes "c2") 3000 ≡ new_command (codes "c2") (str (codes "sessions.list")) 3000)
    × (command_at (enqueue one (codes "c2") 3000 [] (str (codes "sessions.list"))).0 (codes "c2")
        ≡ some (waiting (codes "c2") 3000))
    × (count_active
          (records (enqueue one (codes "c2") 3000 [] (str (codes "sessions.list"))).0.files)
        ≤ 2)
unfolding enqueue authorize_call normalize_capability_config flag_bool to_int trim_start trim_end
    trim is_space text_eq text_dec count_active records
enqueue_ok_example =
    enqueue_ok one (codes "c2") 3000 [] (str (codes "sessions.list")) (waiting (codes "c2") 3000)
      refl

clamp_result_overflows_example : 321 < stored (clamp_result (quotes 170) 321)
clamp_result_overflows_example = clamp_result_overflows 170 321 (omega arith) (omega arith)

steps-Lives_example : Lives (codes "c1") (phase (waiting (codes "c1") 1000)) (
    steps id_le one (
      claim_op (num (pos 5)) (codes "b1") 2000
      ∷ complete_op (str (codes "c1")) (success (1 ∷ [])) 3000
      ∷ sweep_op 900000
      ∷ []))
unfolding command_at lookup text_eq text_dec
steps-Lives_example =
    steps-Lives id_le one (codes "c1") (waiting (codes "c1") 1000)
      (claim_op (num (pos 5)) (codes "b1") 2000
        ∷ complete_op (str (codes "c1")) (success (1 ∷ [])) 3000
        ∷ sweep_op 900000
        ∷ [])
      one-IsWellFormed (tt, (tt, (tt, tt))) refl
