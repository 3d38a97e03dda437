-- ===== src/Tests/Caches.antt =====
-- The response cache with room for two entries, after three writes and a read.
use rpc_proxy.Prelude.{
  ℕ, ◌+◌, ◌≤◌, ◌<◌, ◌≡◌, refl, Bool, true, false, some, List, [], ◌∷◌, Text, codes, is_empty, not,
  arith,
}
use rpc_proxy.RequestCache.Defs.{Response, Entry, CacheConfig, Cache, empty_cache, get}
use rpc_proxy.RequestCache.Runs.{
  IsValid, IsBounded, CacheOp, getting, putting, run, Written, run-IsBounded,
}
use rpc_proxy.RequestCache.History.{get-Written}

-- The JSON texts of this test are the texts that are not empty.
abbrev is_json : Text → Bool
is_json text = not (is_empty text)

abbrev config : CacheConfig
config = record { max_entries = 2; max_bytes = 40; max_entry_bytes = 20; ttl = 10 }

config-IsValid : IsValid config
config-IsValid = record { some_entries = omega arith; entry_fits = omega arith }

abbrev answer : Text → Response
answer payload = record { payload = payload; upstream = codes "one"; skip_cache = false }

-- The entry of `b` is the oldest when that of `c` is written.
abbrev ops : List CacheOp
ops =
    putting (codes "a") (answer (codes "1")) 0
    ∷ putting (codes "b") (answer (codes "2")) 1
    ∷ getting (codes "a") 2
    ∷ putting (codes "c") (answer (codes "3")) 3
    ∷ []

abbrev entry : Text → Text → ℕ → Entry
entry key payload expires = record {
  key = key;
  response = answer payload;
  expires = expires;
  size = 5;
}

abbrev after : Cache
after = record {
  recent = entry (codes "c") (codes "3") 13 ∷ entry (codes "a") (codes "1") 10 ∷ [];
  bytes = 10;
}

three_written : run is_json config ops empty_cache ≡ some after
unfolding rpc_proxy.RequestCache.Defs.find rpc_proxy.RequestCache.Defs.without
    rpc_proxy.RequestCache.Defs.remove rpc_proxy.RequestCache.Defs.get
    rpc_proxy.RequestCache.Defs.back rpc_proxy.RequestCache.Defs.evict
    rpc_proxy.RequestCache.Defs.trim_front rpc_proxy.RequestCache.Defs.trim_back
    rpc_proxy.RequestCache.Defs.is_storable rpc_proxy.RequestCache.Defs.put
    rpc_proxy.RequestCache.Runs.step rpc_proxy.RequestCache.Runs.run rpc_proxy.Prelude.text_eq
    rpc_proxy.Prelude.lower rpc_proxy.Prelude.equal_fold
three_written = refl

run-IsBounded_example :
    (c : Cache) × (run is_json config ops empty_cache ≡ some c) × IsBounded config c
run-IsBounded_example =
    run-IsBounded is_json config ops empty_cache config-IsValid
      (record { counted = refl; distinct = tt; few = omega arith; small = omega arith })

hit : (get after (codes "a") 9).0 ≡ some (answer (codes "1"))
unfolding rpc_proxy.RequestCache.Defs.find rpc_proxy.RequestCache.Defs.without
    rpc_proxy.RequestCache.Defs.remove rpc_proxy.RequestCache.Defs.get
    rpc_proxy.RequestCache.Defs.back rpc_proxy.RequestCache.Defs.evict
    rpc_proxy.RequestCache.Defs.trim_front rpc_proxy.RequestCache.Defs.trim_back
    rpc_proxy.RequestCache.Defs.is_storable rpc_proxy.RequestCache.Defs.put
    rpc_proxy.RequestCache.Runs.step rpc_proxy.RequestCache.Runs.run rpc_proxy.Prelude.text_eq
    rpc_proxy.Prelude.lower rpc_proxy.Prelude.equal_fold
hit = refl

get-Written_example :
    (e : Entry) × Written is_json config ops e
    × (e.key ≡ codes "a")
    × (e.response ≡ answer (codes "1"))
    × (9 < e.expires)
get-Written_example =
    get-Written is_json config ops after (codes "a") 9 (answer (codes "1")) config-IsValid
      three_written hit
