-- ===== src/Tests/Data.antt =====
-- A record of aoms/contracts/models.py for the tests.
use cortex_mem.Prelude.{String, none, some, []}
use cortex_mem.Contracts.{MemoryRecord, fact, workspace, text, admitted}

-- an admitted fact of one workspace, without tags, claim or predecessor
abbrev pub memory : String → String → MemoryRecord
memory id content = record {
  id = id;
  kind = fact;
  content = text content;
  tags = [];
  scope = workspace;
  scope_agent_id = none;
  scope_workspace_id = some "myproject";
  created_by_agent_id = none;
  provenance = record {
    source = "chat";
    tier = none;
    record_type = none;
    details = [];
    asserted_at = none;
    derived_from = [];
  };
  created_at = 1;
  updated_at = 1;
  supersedes = none;
  metadata = [];
  claim_key = none;
  disposition = admitted;
  observation_id = none;
}
