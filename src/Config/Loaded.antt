-- ===== src/Config/Loaded.antt =====
-- internal/config/config.go: what a configuration that is loaded satisfies.
use rpc_proxy.Prelude.{
  ℕ, ◌^◌, ◌≡◌, ◌≤◌, ◌<◌, ◌⊎◌, true, false, Option, List, [], ◌∷◌, map, length, All, Text, codes,
  is_empty, is_ok,
}
use rpc_proxy.Quantity.{parse_evm_quantity}
use rpc_proxy.Head.{evm, solana}
use rpc_proxy.Gateway.Registry.{listed}
use rpc_proxy.Config.Defs.{UpstreamSection, ChainSection, Config, is_client_label, has_scheme}

-- A positive signed number.
abbrev pub IsPositive : ℕ → Type 0
IsPositive w = (0 < w) × (w < 2 ^ 63)

-- No text stands twice.
abbrev pub IsDistinct : List Text → Type 0
IsDistinct [] = Unit {0}
IsDistinct (t ∷ ts) = (listed t ts ≡ false) × IsDistinct ts

-- Each text is none of those before it, nor one that has been seen.
abbrev IsFresh : List Text → List Text → Type 0
IsFresh seen [] = Unit {0}
IsFresh seen (t ∷ ts) = (listed t seen ≡ false) × IsFresh (t ∷ seen) ts

module _ (scheme : Text → Option Text) where
  pub record IsSoundUpstream (u : UpstreamSection) : Type 0 where
    pub named : is_empty u.id ≡ false
    pub some_calls : IsPositive u.max_concurrency
    pub reachable : has_scheme scheme u.http_url (codes "http") (codes "https") ≡ true

  -- An EVM chain has a chain ID that parses and a websocket timeout below the age at which its head is
  -- stale; a Solana chain has a genesis hash.
  abbrev pub IsSoundFamily : ChainSection → Type 0
  IsSoundFamily c =
      ((c.family ≡ solana) × (is_empty c.genesis_hash ≡ false))
      ⊎ ((c.family ≡ evm)
          × (is_ok (parse_evm_quantity c.chain_id) ≡ true)
          × IsPositive c.websocket_idle_timeout
          × (c.websocket_idle_timeout < c.max_head_age))

  pub record IsSoundChain (c : ChainSection) : Type 0 where
    pub named : is_empty c.name ≡ false
    pub kind : IsSoundFamily c
    pub blocks : IsPositive c.block_time
    pub polls : IsPositive c.poll_interval
    pub ages : IsPositive c.max_head_age
    pub depth : IsPositive c.reorg_depth
    pub heads : IsPositive c.head_request_timeout
    pub some_upstream : 0 < length c.upstreams
    pub sound : All IsSoundUpstream c.upstreams
    pub distinct : IsDistinct (map (λ u. u.id) c.upstreams)

  -- What the other parts rely on: limits that are positive and consistent, distinct labels of clients,
  -- and at least one chain, each sound and under a name of its own.
  pub record IsSound (c : Config) : Type 0 where
    pub entries : IsPositive c.cache.max_entries
    pub entry_bytes : IsPositive c.cache.max_entry_bytes
    pub entry_fits : c.cache.max_entry_bytes ≤ c.cache.max_bytes
    pub ttl : IsPositive c.cache.ttl
    pub timeout : IsPositive c.server.request_timeout
    pub body : IsPositive c.server.max_body_bytes
    pub batch : IsPositive c.server.max_batch_size
    pub small_batch : c.server.max_batch_size ≤ 100
    pub queue : IsPositive c.server.websocket_queue_size
    pub lease : IsPositive c.redis.leader_ttl
    pub stream : IsPositive c.redis.stream_max_length
    pub shared : is_empty c.redis.url ≡ false
    pub labels : All (λ (l : Text). is_client_label l ≡ true) c.clients
    pub clients : IsDistinct c.clients
    pub some_chain : 0 < length c.chains
    pub chains : All IsSoundChain c.chains
    pub names : IsDistinct (map (λ (x : ChainSection). x.name) c.chains)
