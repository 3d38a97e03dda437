-- ===== src/RequestCache/Runs.antt =====
-- internal/services/requestcache/cache.go: what holds of the cache after any calls of `get` and `put`.
use rpc_proxy.Prelude.{
  ℕ, suc, ◌+◌, ◌≤◌, ◌<◌, ◌≡◌, ◌⊎◌, inl, inr, refl, sym, ap, ◌∙◌, Bool, true, Bool-cases,
  Option-cases, Option, none, some, List, [], ◌∷◌, ltb, length, Text, text_eq, text_eq_sound, arith,
}
use rpc_proxy.RequestCache.Defs.{
  Response, Entry, CacheConfig, Cache, find, without, remove, get, size_of, is_storable,
  drop_previous, add, put,
}
use rpc_proxy.RequestCache.Bounds.{
  total, IsDistinct, IsCounted, find-key, find-without, total-without, without-IsDistinct,
  remove-IsCounted, evict-lem,
}

-- The limits that configuration validation lets through.
pub record IsValid (config : CacheConfig) : Type 0 where
  pub some_entries : 0 < config.max_entries
  pub entry_fits : config.max_entry_bytes ≤ config.max_bytes

-- The counter is the sum of the sizes, no key stands twice, and both limits are kept.
pub record IsBounded (config : CacheConfig) (c : Cache) : Type 0 where
  pub counted : c.bytes ≡ total c.recent
  pub distinct : IsDistinct c.recent
  pub few : length c.recent ≤ config.max_entries
  pub small : c.bytes ≤ config.max_bytes

-- One call.
pub data CacheOp : Type 0 where
  getting : Text → ℕ → CacheOp
  putting : Text → Response → ℕ → CacheOp

pub absent-without :
    (key : Text) (es : List Entry) → IsDistinct es → find key (without key es) ≡ none
unfolding find without
absent-without key [] d = refl
absent-without key (e ∷ es) (fresh, d) = elim (Bool-cases (text_eq e.key key)) [
  | inl same ↦ rw same (ap (λ k. find k es) (sym (text_eq_sound e.key key same)) ∙ fresh)
  | inr other ↦ rw (other, other) (absent-without key es d)
]

pub get-IsBounded :
    (config : CacheConfig) (c : Cache) (key : Text) (now : ℕ)
    → IsBounded config c
    → IsBounded config (get c key now).1
unfolding get
get-IsBounded config c key now b = elim (Option-cases (find key c.recent)) [
  | inl missing ↦ rw (get, missing) b
  | inr (e, found) ↦
      let is = find-key key c.recent e found in
      let (sum, count) = total-without key c.recent e found in
      let here : find e.key c.recent ≡ some e = ap (λ k. find k c.recent) is ∙ found in
      let (k, less, smaller) =
        remove-IsCounted c e (record { counted = b.counted; distinct = b.distinct }) here in
      elim (Bool-cases (ltb now e.expires)) [
        | inr late ↦
            rw (get, found, late)
              (record {
                counted = k.counted;
                distinct = k.distinct;
                few = omega (arith, b.few, less);
                small = omega (arith, b.small, smaller);
              })
        | inl fresh ↦
            rw (get, found, fresh)
              (record {
                counted = omega (arith, b.counted, sum);
                distinct = (
                  rw is (absent-without key c.recent b.distinct),
                  without-IsDistinct key c.recent b.distinct,
                );
                few = omega (arith, b.few, count);
                small = b.small;
              })
      ]
]

module _ (is_json : Text → Bool) (config : CacheConfig) where
  -- What a call does to the cache, none for a panic.
  unfoldable pub step : CacheOp → Cache → Option Cache
  step (getting key now) c = some (get c key now).1
  step (putting key r now) c = put is_json config c key r now

  unfoldable pub run : List CacheOp → Cache → Option Cache
  run [] c = some c
  run (op ∷ ops) c = elim (step op c) [ none ↦ none | some next ↦ run ops next ]

  pub storable-size :
      (key : Text) (r : Response)
      → is_storable is_json config key r ≡ true
      → size_of is_json key r ≤ config.max_entry_bytes
  unfolding is_storable
  storable-size key r h = ground arith

  pub dropped-IsCounted :
      (c : Cache) (key : Text)
      → IsBounded config c
      → let d = drop_previous is_json c key in
        IsCounted d × (find key d.recent ≡ none) × (length d.recent ≤ length c.recent)
  unfolding remove
  dropped-IsCounted c key b = elim (Option-cases (find key c.recent)) [
    | inl missing ↦
        rw (drop_previous, missing)
          (record { counted = b.counted; distinct = b.distinct }, missing, omega arith)
    | inr (e, found) ↦
        let is = find-key key c.recent e found in
        let here : find e.key c.recent ≡ some e = ap (λ k. find k c.recent) is ∙ found in
        let (k, less, smaller) =
          remove-IsCounted c e (record { counted = b.counted; distinct = b.distinct }) here in
        rw (drop_previous, found) (k, rw is (absent-without key c.recent b.distinct), omega arith)
  ]

  pub put-IsBounded :
      (c : Cache) (key : Text) (r : Response) (now : ℕ)
      → IsValid config
      → IsBounded config c
      → (c' : Cache) × (put is_json config c key r now ≡ some c') × IsBounded config c'
  unfolding put
  put-IsBounded c key r now v b = elim (Bool-cases (is_storable is_json config key r)) [
    | inr refused ↦ (c, rw refused refl, b)
    | inl fits ↦
        let d = drop_previous is_json c key in
        let (k, absent, fewer) = dropped-IsCounted c key b in
        let (room, done, kr, free, still) =
          evict-lem (λ es. find key es ≡ none) (find-without key) config (size_of is_json key r)
            (suc (length d.recent)) d v.some_entries
            (omega (arith, storable-size key r fits, v.entry_fits)) k (omega arith) absent in
        (
          add is_json config key r now room,
          rw (fits, done) refl,
          record {
            counted = omega (arith, kr.counted);
            distinct = (still, kr.distinct);
            few = ground arith;
            small = ground arith;
          },
        )
  ]

  -- With a valid configuration, no sequence of calls panics from a cache that is within its limits, and
  -- after it the byte counter is the sum of the sizes, no key has two entries, and both limits are kept.
  pub run-IsBounded :
      (ops : List CacheOp) (c : Cache)
      → IsValid config
      → IsBounded config c
      → (c' : Cache) × (run ops c ≡ some c') × IsBounded config c'
  unfolding run step
  run-IsBounded [] c v b = (c, refl, b)
  run-IsBounded (getting key now ∷ ops) c v b =
      run-IsBounded ops (get c key now).1 v (get-IsBounded config c key now b)
  run-IsBounded (putting key r now ∷ ops) c v b =
      let (next, done, bn) = put-IsBounded c key r now v b in
      let (last, rest, bl) = run-IsBounded ops next v bn in (last, rw (run, step, done) rest, bl)

  -- An entry that one of the calls has written.
  abbrev pub Written : List CacheOp → Entry → Type 0
  Written [] e = ⊥
  Written (getting key now ∷ ops) e = Written ops e
  Written (putting key r now ∷ ops) e =
      ((e.key ≡ key)
        × (e.response ≡ r)
        × (e.expires ≡ now + config.ttl)
        × (is_storable is_json config key r ≡ true))
      ⊎ Written ops e
