-- ===== src/Config/Defs/Sections.antt =====
-- internal/config/config.go: the sections of a configuration and `applyDefaults`.
use rpc_proxy.Prelude.{
  ℕ, ◌+◌, ◌-◌, ◌*◌, ◌/◌, ◌%◌, ◌^◌, Bool, ◌||◌, List, map, leb, ◌==◌, if◌then◌else◌, Text, codes,
  is_empty,
}

-- `x <= 0` of a signed number.
abbrev pub is_nonpositive : ℕ → Bool
is_nonpositive w = w == 0 || leb (2 ^ 63) w

-- The order of signed numbers is the order of these.
abbrev pub signed : ℕ → ℕ
signed w = (w + 2 ^ 63) % 2 ^ 64

abbrev pub or_default : ℕ → ℕ → ℕ
or_default w default = if w == 0 then default else w

abbrev pub or_text : Text → Text → Text
or_text t default = if is_empty t then default else t

-- `2 * d`, wrapped.
abbrev pub double : ℕ → ℕ
double w = (2 * w) % 2 ^ 64

-- `d / 4` of a signed number, towards zero.
abbrev pub quarter : ℕ → ℕ
quarter w = if leb (2 ^ 63) w then (2 ^ 64 - (2 ^ 64 - w) / 4) % 2 ^ 64 else w / 4

-- `a - b`, wrapped.
abbrev pub minus : ℕ → ℕ → ℕ
minus a b = (a + (2 ^ 64 - b)) % 2 ^ 64

abbrev pub seconds : ℕ → ℕ
seconds n = n * 1000000000

pub record CacheSection : Type 0 where
  pub max_entries : ℕ
  pub max_bytes : ℕ
  pub max_entry_bytes : ℕ
  pub ttl : ℕ

pub record ServerSection : Type 0 where
  pub listen_address : Text
  pub admin_address : Text
  pub request_timeout : ℕ
  pub max_body_bytes : ℕ
  pub max_batch_size : ℕ
  pub websocket_queue_size : ℕ

pub record RedisSection : Type 0 where
  pub url : Text
  pub key_prefix : Text
  pub leader_ttl : ℕ
  pub stream_max_length : ℕ

pub record UpstreamSection : Type 0 where
  pub id : Text
  pub http_url : Text
  pub websocket_url : Text
  pub max_concurrency : ℕ

pub record ChainSection : Type 0 where
  pub name : Text
  pub family : Text
  pub chain_id : Text
  pub genesis_hash : Text
  pub block_time : ℕ
  pub poll_interval : ℕ
  pub head_request_timeout : ℕ
  pub websocket_idle_timeout : ℕ
  pub max_head_age : ℕ
  pub reorg_depth : ℕ
  pub upstreams : List UpstreamSection

pub record Config : Type 0 where
  pub server : ServerSection
  pub redis : RedisSection
  pub cache : CacheSection
  pub chains : List ChainSection
  pub clients : List Text

unfoldable pub default_cache : CacheSection → CacheSection
default_cache c = record {
  max_entries = or_default c.max_entries 4096;
  max_bytes = or_default c.max_bytes (64 * 2 ^ 20);
  max_entry_bytes = or_default c.max_entry_bytes (2 ^ 20);
  ttl = or_default c.ttl (seconds 300);
}

unfoldable pub default_server : ServerSection → ServerSection
default_server s = record {
  listen_address = or_text s.listen_address (codes ":8080");
  admin_address = or_text s.admin_address (codes "127.0.0.1:8081");
  request_timeout = or_default s.request_timeout (seconds 5);
  max_body_bytes = or_default s.max_body_bytes (10 * 2 ^ 20);
  max_batch_size = or_default s.max_batch_size 100;
  websocket_queue_size = or_default s.websocket_queue_size 256;
}

unfoldable pub default_redis : RedisSection → RedisSection
default_redis r = record {
  url = r.url;
  key_prefix = or_text r.key_prefix (codes "rpc-proxy");
  leader_ttl = or_default r.leader_ttl (seconds 5);
  stream_max_length = or_default r.stream_max_length 4096;
}

unfoldable pub default_upstream : UpstreamSection → UpstreamSection
default_upstream u = record u { max_concurrency = or_default u.max_concurrency 256 }

unfoldable pub default_chain : ChainSection → ChainSection
unfolding default_upstream
default_chain c =
    let block_time = or_default c.block_time (seconds 12) in
    let max_head_age = or_default c.max_head_age (double block_time) in
    record {
      name = c.name;
      family = c.family;
      chain_id = c.chain_id;
      genesis_hash = c.genesis_hash;
      block_time = block_time;
      poll_interval = or_default c.poll_interval (seconds 2);
      head_request_timeout = or_default c.head_request_timeout (seconds 2);
      websocket_idle_timeout =
          or_default c.websocket_idle_timeout (minus max_head_age (quarter max_head_age));
      max_head_age = max_head_age;
      reorg_depth = or_default c.reorg_depth 64;
      upstreams = map default_upstream c.upstreams;
    }

-- `applyDefaults`.
unfoldable pub apply_defaults : Config → Config
unfolding default_cache default_server default_redis default_chain
apply_defaults c = record {
  server = default_server c.server;
  redis = default_redis c.redis;
  cache = default_cache c.cache;
  chains = map default_chain c.chains;
  clients = c.clients;
}
