-- ===== src/Node/Presence/Tests.antt =====
-- A beat, looked at half a second later.
use dsh_link.Common.{none}
use dsh_link.Node.Capabilities.{RawSection, RawConfig}

abbrev empty : RawSection
empty = record {
  enabled = none;
  methods = none;
  peers = none;
  max_wait_seconds = none;
  command_ttl_seconds = none;
  max_pending = none;
  claim_stale_seconds = none;
  max_result_bytes = none;
}

abbrev cfg : RawConfig
cfg = record { top = empty; capabilities = none }
