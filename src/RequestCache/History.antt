-- ===== src/RequestCache/History.antt =====
-- internal/services/requestcache/cache.go: where the responses of the cache come from.
use rpc_proxy.Prelude.{
  ℕ, suc, ◌+◌, ◌<◌, ◌≡◌, ◌⊎◌, inl, inr, refl, sym, ◌∙◌, Bool, true, Bool-cases, Option-cases, some,
  List, [], ◌∷◌, ltb, length, Text, text_eq, All, All-mono, arith,
}
use rpc_proxy.RequestCache.Defs.{
  Response, Entry, CacheConfig, Cache, empty_cache, find, without, remove, get, size_of,
  is_storable, drop_previous, add, put,
}
use rpc_proxy.RequestCache.Bounds.{some_same, find-key, evict-lem}
use rpc_proxy.RequestCache.Runs.{
  IsValid, IsBounded, CacheOp, getting, putting, get-IsBounded, dropped-IsCounted, storable-size,
  put-IsBounded, step, run, Written,
}

module _ (P : Entry → Type 0) where
  find-All : (key : Text) (es : List Entry) (e : Entry) → find key es ≡ some e → All P es → P e
  unfolding find
  find-All key [] e h a = absurd (ground arith)
  find-All key (f ∷ es) e h (p, a) = elim (Bool-cases (text_eq f.key key)) [
    | inl same ↦ rw (← some_same f e (rw same at h)) p
    | inr other ↦ find-All key es e (rw other at h) a
  ]

  without-All : (key : Text) (es : List Entry) → All P es → All P (without key es)
  unfolding without
  without-All key [] a = a
  without-All key (f ∷ es) (p, a) = elim (Bool-cases (text_eq f.key key)) [
    | inl same ↦ rw same a
    | inr other ↦ rw other (p, without-All key es a)
  ]

  get-All : (c : Cache) (key : Text) (now : ℕ) → All P c.recent → All P (get c key now).1.recent
  get-All c key now a = elim (Option-cases (find key c.recent)) [
    | inl missing ↦ unfold get in rw (get, missing) a
    | inr (e, found) ↦ elim (Bool-cases (ltb now e.expires)) [
      | inl fresh ↦
          unfold get in
          rw (get, found, fresh) (find-All key c.recent e found a, without-All key c.recent a)
      | inr late ↦ unfold get remove in rw (get, found, late) (without-All e.key c.recent a)
    ]
  ]

module _ (is_json : Text → Bool) (config : CacheConfig) where
  abbrev entry_of : Text → Response → ℕ → Entry
  entry_of key r now = record {
    key = key;
    response = r;
    expires = now + config.ttl;
    size = size_of is_json key r;
  }

  put-All :
      (P : Entry → Type 0) (c : Cache) (key : Text) (r : Response) (now : ℕ)
      → IsValid config
      → IsBounded config c
      → All P c.recent
      → (is_storable is_json config key r ≡ true → P (entry_of key r now))
      → (c' : Cache) × (put is_json config c key r now ≡ some c') × All P c'.recent
  unfolding put
  put-All P c key r now v b a new = elim (Bool-cases (is_storable is_json config key r)) [
    | inr refused ↦ (c, rw refused refl, a)
    | inl fits ↦
        let d = drop_previous is_json c key in
        let (k, absent, fewer) = dropped-IsCounted is_json config c key b in
        let (room, done, kr, free, still) =
          evict-lem (All P) (without-All P) config (size_of is_json key r) (suc (length d.recent)) d
            v.some_entries (omega (arith, storable-size is_json config key r fits, v.entry_fits)) k
            (omega arith) (dropped-All P c key a) in
        (add is_json config key r now room, rw (fits, done) refl, (new fits, still))
  ]
    where
      dropped-All :
          (P : Entry → Type 0) (c : Cache) (key : Text)
          → All P c.recent
          → All P (drop_previous is_json c key).recent
      dropped-All P c key a = elim (Option-cases (find key c.recent)) [
        | inl missing ↦ rw (drop_previous, missing) a
        | inr (e, found) ↦
            unfold remove in rw (drop_previous, found) (without-All P e.key c.recent a)
      ]

  run-Written :
      (P : Entry → Type 0) (ops : List CacheOp) (c c' : Cache)
      → IsValid config
      → IsBounded config c
      → All P c.recent
      → run is_json config ops c ≡ some c'
      → All (λ e. P e ⊎ Written is_json config ops e) c'.recent
  unfolding run step
  run-Written P [] c c' v b a h =
      rw (← some_same c c' h) (All-mono P (λ e. P e ⊎ ⊥) c.recent (λ e p. inl p) a)
  run-Written P (getting key now ∷ ops) c c' v b a h =
      run-Written P ops (get c key now).1 c' v (get-IsBounded config c key now b)
        (get-All P c key now a) h
  run-Written P (putting key r now ∷ ops) c c' v b a h =
      let W : Entry → Type 0 = λ e.
        (e.key ≡ key)
        × (e.response ≡ r)
        × (e.expires ≡ now + config.ttl)
        × (is_storable is_json config key r ≡ true) in
      let Q : Entry → Type 0 = λ e. P e ⊎ W e in
      let (next, done, bn) = put-IsBounded is_json config c key r now v b in
      let (next', done', an) =
        put-All Q c key r now v b (All-mono P Q c.recent (λ e p. inl p) a)
          (λ fits. inr (refl, refl, refl, fits)) in
      let same = some_same next' next (sym done' ∙ done) in
      let all = run-Written Q ops next c' v bn (rw (← same) an) (rw (run, step, done) at h) in
      All-mono (λ e. Q e ⊎ Written is_json config ops e)
        (λ e. P e ⊎ Written is_json config (putting key r now ∷ ops) e) c'.recent (λ e q. regroup q)
        all
    where
      regroup : {A B C : Type 0} → (A ⊎ B) ⊎ C → A ⊎ (B ⊎ C)
      regroup (inl (inl x)) = inl x
      regroup (inl (inr x)) = inr (inl x)
      regroup (inr x) = inr (inr x)

  get-inv :
      (c : Cache) (key : Text) (now : ℕ) (r : Response)
      → (get c key now).0 ≡ some r
      → (e : Entry) × (find key c.recent ≡ some e) × (e.response ≡ r) × (now < e.expires)
  unfolding get
  get-inv c key now r h = ground arith

  -- A response that the cache gives was written by one of its calls under the requested key, with a
  -- payload that the cache may keep, and less than the configured time ago.
  pub get-Written :
      (ops : List CacheOp) (c : Cache) (key : Text) (now : ℕ) (r : Response)
      → IsValid config
      → run is_json config ops empty_cache ≡ some c
      → (get c key now).0 ≡ some r
      → (e : Entry) × Written is_json config ops e
        × (e.key ≡ key)
        × (e.response ≡ r)
        × (now < e.expires)
  get-Written ops c key now r v h got =
      let (e, found, same, fresh) = get-inv c key now r got in
      let empty : IsBounded config empty_cache = record {
        counted = refl;
        distinct = tt;
        few = omega arith;
        small = omega arith;
      } in
      let all = run-Written (λ _. ⊥) ops empty_cache c v empty tt h in
      elim (find-All (λ e. ⊥ ⊎ Written is_json config ops e) key c.recent e found all) [
        | inl never ↦ absurd never
        | inr written ↦ (e, written, find-key key c.recent e found, same, fresh)
      ]
