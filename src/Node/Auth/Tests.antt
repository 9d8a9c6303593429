-- ===== src/Node/Auth/Tests.antt =====
-- Runs of the authorisation, with a stand-in for the hash.
use dsh_link.Common.{
  ℕ, ◌+◌, ◌≡◌, refl, true, false, List, [], ◌∷◌, ◌++◌, Text, codes, text_eq, is_some, All, arith,
}
use dsh_link.Common.Dict.{Dict}
use dsh_link.Node.Auth.{
  TokenEntry, AuthConfig, Caller, Failures, refused, verify_token, create_inbound_token,
  seal_tokens, authorize,
}
use dsh_link.Node.Auth.Laws.{Justified, authorize-Justified}
use dsh_link.Node.Auth.Sealing.{IsSealed, verify_token-seal_tokens}
use dsh_link.Node.Auth.Throttle.{run, authorize-run}

abbrev hash : Text → Text
hash s = codes "h" ++ s

abbrev tokens : List TokenEntry
tokens = record { id = codes "1"; label = codes "lab"; hash = []; token = codes "abc" } ∷ []

abbrev config : AuthConfig
config = record { trust_localhost = true; tokens = tokens }

abbrev holder : Caller
holder = record {
  remote_address = codes "::ffff:10.0.0.7";
  authorization = codes "Bearer abc ";
  alternative = [];
}

abbrev stranger : Caller
stranger = record {
  remote_address = codes "::ffff:10.0.0.7";
  authorization = [];
  alternative = codes "abd";
}

authorize-Justified_example : Justified hash config holder (authorize hash 5 config holder []).1
authorize-Justified_example = authorize-Justified hash 5 config holder []

verify_token-seal_tokens_example :
    let (sealed, count) = seal_tokens hash tokens in
    (verify_token hash sealed (codes "abc") ≡ verify_token hash tokens (codes "abc"))
    × All (IsSealed hash) sealed
    × (seal_tokens hash sealed ≡ (sealed, 0))
verify_token-seal_tokens_example =
    verify_token-seal_tokens hash (codes "abc") tokens ((λ h. refl, refl), tt)

abbrev twenty_of : Failures
twenty_of = record { count = 20; first_at = 1000 }

authorize-run_example :
    (authorize hash 3000 config stranger
      (run hash config ((2000, holder) ∷ []) ((codes "10.0.0.7", twenty_of) ∷ []))).1
    ≡ refused 21 true
unfolding authorize dsh_link.Node.Auth.client_ip dsh_link.Common.Dict.lookup text_eq
    dsh_link.Common.trim_end dsh_link.Common.trim_start dsh_link.Common.is_space
    dsh_link.Node.Auth.Throttle.refusals
authorize-run_example =
    authorize-run hash config ((2000, holder) ∷ []) ((codes "10.0.0.7", twenty_of) ∷ []) twenty_of
      3000 stranger refl (omega arith, (omega arith, tt)) refl
