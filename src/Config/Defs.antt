-- ===== src/Config/Defs.antt =====
-- internal/config/config.go: `Config`, less the members that only name environment variables, headers
-- and the Datadog agent; `applyDefaults` and `Validate`. An `int`, an `int64` and a duration are the
-- 64 bits of their two's complement. `scheme` is what `url.ParseRequestURI` of the standard library
-- gives as the scheme of an address, none where it fails.
mod Sections
unfoldable pub use Sections.*
use rpc_proxy.Prelude.{
  ℕ, ◌+◌, ◌-◌, ◌*◌, ◌/◌, ◌%◌, ◌^◌, ◌++◌, Bool, true, false, not, ◌&&◌, ◌||◌, Option, none, some,
  List, [], ◌∷◌, map, ltb, leb, ◌==◌, if◌then◌else◌, length, Text, codes, text_eq, is_empty, Result,
  ok, err, is_ok,
}
use rpc_proxy.Quantity.{parse_evm_quantity}
use rpc_proxy.Head.{evm, solana}
use rpc_proxy.Gateway.Registry.{listed}

pub data Problem : Type 0 where
  bad_client bad_cache bad_timeout bad_server bad_redis no_redis_url bad_redis_url no_chain bad_name
        bad_family bad_chain_id no_genesis bad_timing bad_head_timeout bad_idle no_upstream
        bad_upstream_id bad_concurrency bad_http_url bad_websocket_url :
      Problem

-- The problems whose tests find them.
abbrev pub reports : List (Bool × Problem) → List Problem
reports [] = []
reports ((found, p) ∷ tests) = let rest = reports tests in if found then p ∷ rest else rest

-- `[a-z0-9_-]`.
abbrev pub is_label_byte : ℕ → Bool
is_label_byte c = (leb b'a' c && leb c b'z') || (leb b'0' c && leb c b'9') || c == b'_' || c == b'-'

unfoldable pub are_label_bytes : Text → Bool
are_label_bytes [] = true
are_label_bytes (c ∷ t) = is_label_byte c && are_label_bytes t

-- `^[a-z][a-z0-9_-]{0,63}$`.
unfoldable pub is_client_label : Text → Bool
unfolding are_label_bytes
is_client_label [] = false
is_client_label (c ∷ t) = leb b'a' c && leb c b'z' && are_label_bytes t && leb (length t) 63

abbrev pub client_tests : List Text → Text → List (Bool × Problem)
client_tests seen client =
    (
      not (is_client_label client)
          || text_eq client (codes "anonymous")
          || text_eq client (codes "unknown")
          || listed client seen,
      bad_client,
    )
    ∷ []

-- The loop over the clients.
unfoldable pub check_clients : List Text → List Text → List Problem
unfolding is_client_label
check_clients seen [] = []
check_clients seen (client ∷ clients) =
    reports (client_tests seen client) ++ check_clients (client ∷ seen) clients

module _ (scheme : Text → Option Text) where
  abbrev pub has_scheme : Text → Text → Text → Bool
  has_scheme address a b = elim (scheme address) [
    | none ↦ false
    | some s ↦ text_eq s a || text_eq s b
  ]

  abbrev pub upstream_tests : List Text → UpstreamSection → List (Bool × Problem)
  upstream_tests seen u =
      (is_empty u.id || listed u.id seen, bad_upstream_id)
      ∷ (is_nonpositive u.max_concurrency, bad_concurrency)
      ∷ (not (has_scheme u.http_url (codes "http") (codes "https")), bad_http_url)
      ∷ (
        not (is_empty u.websocket_url)
            && not (has_scheme u.websocket_url (codes "ws") (codes "wss")),
        bad_websocket_url,
      )
      ∷ []

  -- The loop over the upstreams of a chain.
  unfoldable pub check_upstreams : List Text → List UpstreamSection → List Problem
  check_upstreams seen [] = []
  check_upstreams seen (u ∷ us) =
      reports (upstream_tests seen u) ++ check_upstreams (u.id ∷ seen) us

  abbrev pub chain_tests : List Text → ChainSection → List (Bool × Problem)
  chain_tests seen c =
      (is_empty c.name || listed c.name seen, bad_name)
      ∷ (not (text_eq c.family evm) && not (text_eq c.family solana), bad_family)
      ∷ (text_eq c.family evm && not (is_ok (parse_evm_quantity c.chain_id)), bad_chain_id)
      ∷ (text_eq c.family solana && is_empty c.genesis_hash, no_genesis)
      ∷ (
        is_nonpositive c.block_time
            || is_nonpositive c.poll_interval
            || is_nonpositive c.max_head_age
            || is_nonpositive c.reorg_depth,
        bad_timing,
      )
      ∷ (is_nonpositive c.head_request_timeout, bad_head_timeout)
      ∷ (
        text_eq c.family evm
            && (is_nonpositive c.websocket_idle_timeout
                || leb (signed c.max_head_age) (signed c.websocket_idle_timeout)),
        bad_idle,
      )
      ∷ (length c.upstreams == 0, no_upstream)
      ∷ []

  -- The loop over the chains.
  unfoldable pub check_chains : List Text → List ChainSection → List Problem
  unfolding check_upstreams
  check_chains seen [] = []
  check_chains seen (c ∷ cs) =
      reports (chain_tests seen c)
      ++ check_upstreams [] c.upstreams
      ++ check_chains (c.name ∷ seen) cs

  -- The tests of the sections of the service.
  abbrev pub service_tests : Config → List (Bool × Problem)
  service_tests c =
      (
        is_nonpositive c.cache.max_entries
            || is_nonpositive c.cache.max_bytes
            || is_nonpositive c.cache.max_entry_bytes
            || ltb c.cache.max_bytes c.cache.max_entry_bytes
            || is_nonpositive c.cache.ttl,
        bad_cache,
      )
      ∷ (is_nonpositive c.server.request_timeout, bad_timeout)
      ∷ (
        is_nonpositive c.server.max_body_bytes
            || is_nonpositive c.server.max_batch_size
            || ltb 100 c.server.max_batch_size
            || is_nonpositive c.server.websocket_queue_size,
        bad_server,
      )
      ∷ (is_nonpositive c.redis.leader_ttl || is_nonpositive c.redis.stream_max_length, bad_redis)
      ∷ (is_empty c.redis.url, no_redis_url)
      ∷ (
        not (has_scheme c.redis.url (codes "redis") (codes "rediss"))
            && not (has_scheme c.redis.url (codes "unix") (codes "unix")),
        bad_redis_url,
      )
      ∷ (length c.chains == 0, no_chain)
      ∷ []

  -- `Validate`: the problems that it joins.
  unfoldable pub validate : Config → List Problem
  unfolding check_clients check_chains
  validate c = check_clients [] c.clients ++ reports (service_tests c) ++ check_chains [] c.chains

  -- The end of `Load`, once the file and the environment have been read.
  unfoldable pub complete : Config → Result (List Problem) Config
  unfolding apply_defaults validate
  complete c =
      let full = apply_defaults c in elim (validate full) [ [] ↦ ok full | p ∷ ps ↦ err (p ∷ ps) ]
