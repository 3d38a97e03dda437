-- ===== src/Tests/Configs.antt =====
-- The configuration's theorem at a concrete input: one EVM chain, the rest left to the defaults.
use rpc_proxy.Prelude.{ℕ, [], ◌∷◌, some, ok, Option, Text, codes, ◌==◌, if◌then◌else◌, ◌≡◌}
use rpc_proxy.Head.{evm}
use rpc_proxy.Config.Defs.{Config, ChainSection}

-- What stands before the colon.
abbrev before_colon : Text → Text
before_colon [] = []
before_colon (c ∷ t) = let rest = before_colon t in if c == b':' then [] else c ∷ rest

abbrev scheme_of : Text → Option Text
scheme_of address = some (before_colon address)

abbrev one_chain : ChainSection
one_chain = record {
  name = codes "base";
  family = evm;
  chain_id = codes "0x2105";
  genesis_hash = [];
  block_time = 0;
  poll_interval = 0;
  head_request_timeout = 0;
  websocket_idle_timeout = 0;
  max_head_age = 0;
  reorg_depth = 0;
  upstreams =
      record {
        id = codes "one";
        http_url = codes "https://one.example";
        websocket_url = codes "wss://one.example";
        max_concurrency = 0;
      }
      ∷ [];
}

abbrev minimal : Config
minimal = record {
  server = record {
    listen_address = [];
    admin_address = [];
    request_timeout = 0;
    max_body_bytes = 0;
    max_batch_size = 0;
    websocket_queue_size = 0;
  };
  redis = record {
    url = codes "redis://localhost";
    key_prefix = [];
    leader_ttl = 0;
    stream_max_length = 0;
  };
  cache = record { max_entries = 0; max_bytes = 0; max_entry_bytes = 0; ttl = 0 };
  chains = one_chain ∷ [];
  clients = codes "wallet" ∷ [];
}
