-- ===== src/RequestCache/Defs.antt =====
-- internal/services/requestcache/cache.go: `get`, `put` and `remove` of the response cache. The map
-- `entries` and the list `recent` are one list, the most recent entry first: the map finds the list's
-- element of a key. `json.Valid` is the parameter `is_json`. Each method holds the lock throughout.
use rpc_proxy.Prelude.{
  ℕ, zero, suc, ◌+◌, ◌-◌, Bool, not, ◌&&◌, ◌||◌, Option, none, some, List, [], ◌∷◌, ltb, leb, ◌==◌,
  if◌then◌else◌, length, Text, codes, text_eq, is_empty,
}

-- `Response`.
pub record Response : Type 0 where
  pub payload : Text
  pub upstream : Text
  pub skip_cache : Bool

-- `entry`.
pub record Entry : Type 0 where
  pub key : Text
  pub response : Response
  pub expires : ℕ
  pub size : ℕ

-- `config.CacheConfig`.
pub record CacheConfig : Type 0 where
  pub max_entries : ℕ
  pub max_bytes : ℕ
  pub max_entry_bytes : ℕ
  pub ttl : ℕ

-- `Service`, less its flights.
pub record Cache : Type 0 where
  pub recent : List Entry
  pub bytes : ℕ

-- `NewService`.
abbrev pub empty_cache : Cache
empty_cache = record { recent = []; bytes = 0 }

-- `s.entries[key]`.
unfoldable pub find : Text → List Entry → Option Entry
find key [] = none
find key (e ∷ es) = if text_eq e.key key then some e else find key es

-- The list without the element of a key.
unfoldable pub without : Text → List Entry → List Entry
without key [] = []
without key (e ∷ es) = if text_eq e.key key then es else e ∷ without key es

-- `remove`.
unfoldable pub remove : Cache → Entry → Cache
remove c e = record { recent = without e.key c.recent; bytes = c.bytes - e.size }

-- `get`.
unfoldable pub get : Cache → Text → ℕ → Option Response × Cache
get c key now = elim (find key c.recent) [
  | none ↦ (none, c)
  | some e ↦
      if not (ltb now e.expires)
      then (none, remove c e)
      else (some e.response, record c { recent = e ∷ without key c.recent })
]

-- `recent.Back()`.
unfoldable pub back : List Entry → Option Entry
back [] = none
back (e ∷ []) = some e
back (e ∷ f ∷ es) = back (f ∷ es)

-- `s.recent.Len() >= s.config.MaxEntries || s.bytes > s.config.MaxBytes-size`.
abbrev pub is_full : CacheConfig → ℕ → Cache → Bool
is_full config size c =
    leb config.max_entries (length c.recent) || ltb config.max_bytes (c.bytes + size)

-- The loop of `put`, whose rounds are at most the entries and one. Without an entry to remove, Go
-- dereferences a nil element.
unfoldable pub evict : CacheConfig → ℕ → ℕ → Cache → Option Cache
evict config size zero c = none
evict config size (suc rounds) c =
    let next : Option Cache = elim (back c.recent) [
      | none ↦ none
      | some e ↦ evict config size rounds (remove c e)
    ] in
    if is_full config size c then next else some c

-- `bytes.TrimSpace`, on the space characters of ASCII; the others are in no JSON text outside a string.
abbrev pub is_space : ℕ → Bool
is_space b = b == 32 || (leb 9 b && leb b 13)

unfoldable pub trim_front : Text → Text
trim_front [] = []
trim_front (b ∷ bs) = if is_space b then trim_front bs else b ∷ bs

unfoldable pub trim_back : Text → Text
trim_back [] = []
trim_back (b ∷ bs) = let rest = trim_back bs in if is_space b && is_empty rest then [] else b ∷ rest

abbrev pub trim_space : Text → Text
trim_space bs = trim_back (trim_front bs)

module _ (is_json : Text → Bool) where
  -- The size that a response has in the cache.
  abbrev pub size_of : Text → Response → ℕ
  size_of key r = length key + length r.payload + length r.upstream

  -- The guard of `put`.
  unfoldable pub is_storable : CacheConfig → Text → Response → Bool
  is_storable config key r = not (
      r.skip_cache
      || is_empty r.payload
      || text_eq (trim_space r.payload) (codes "null")
      || ltb config.max_entry_bytes (size_of key r)
      || not (is_json r.payload))

  abbrev pub drop_previous : Cache → Text → Cache
  drop_previous c key = elim (find key c.recent) [ none ↦ c | some e ↦ remove c e ]

  abbrev pub add : CacheConfig → Text → Response → ℕ → Cache → Cache
  add config key r now c = record {
    recent =
        (record { key = key; response = r; expires = now + config.ttl; size = size_of key r })
        ∷ c.recent;
    bytes = c.bytes + size_of key r;
  }

  -- `put`, none for a panic.
  unfoldable pub put : CacheConfig → Cache → Text → Response → ℕ → Option Cache
  put config c key r now =
      let dropped = drop_previous c key in
      if not (is_storable config key r)
      then some c
      else elim (evict config (size_of key r) (suc (length dropped.recent)) dropped) [
        | none ↦ none
        | some room ↦ some (add config key r now room)
      ]
