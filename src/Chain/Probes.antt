-- ===== src/Chain/Probes.antt =====
-- internal/chain/runtime.go: what a cached answer about an upstream is worth, and the size of the cache.
use rpc_proxy.Prelude.{
  ℕ, ◌+◌, ◌*◌, ◌≤◌, ◌<◌, ◌≡◌, ◌⊎◌, refl, Bool, true, false, Option, none, some, List, [], ◌∷◌, ltb,
  leb, length, All, Text, text_eq, text_eq_iff, some_inj, arith, Bool-cases, Option-cases, inl, inr,
}
use rpc_proxy.Head.{Head}
use rpc_proxy.Chain.Availability.{
  Availability, find_record, get_cached_availability, delete_record, drop_expired, make_room, evict,
  max_records, record_ttl, put_record, invalidate_availability, probe, get_evm_availability_key,
  solana_key,
}

length-delete : (key : Text) (rs : List Availability) → length (delete_record key rs) ≤ length rs
unfolding delete_record
length-delete key [] = omega arith
length-delete key (r ∷ rs) = ground (arith, length-delete key rs)

length-make_room : (max : ℕ) (rs : List Availability) → 0 < max → length (make_room max rs) < max
unfolding make_room
length-make_room max [] h = h
length-make_room max (r ∷ rs) h = ground (arith, length-make_room max rs)

length-evict : (now : ℕ) (rs : List Availability) → length (evict now rs) < max_records
unfolding evict
length-evict now rs = ground (arith, length-make_room max_records (drop_expired now rs))

module _ (clock : ℕ → ℕ) (poll_interval : ℕ) (check : Text → ℕ → Option Bool) where
  -- The longest time that an answer is kept.
  abbrev pub longest : ℕ
  longest = 2 * poll_interval + 250000000

  -- A record of an available target stands for a check that has said so, at most so long ago.
  abbrev pub IsShown : Availability → Type 0
  IsShown r =
      (r.available ≡ false)
      ⊎ ((tick : ℕ) × (check r.key tick ≡ some true) × (r.expires ≤ clock (tick + 1) + longest))

  -- The cache is bounded, and its records are shown.
  pub record IsValid (rs : List Availability) : Type 0 where
    pub bounded : length rs ≤ max_records
    pub shown : All IsShown rs

  delete-IsShown :
      (key : Text) (rs : List Availability) → All IsShown rs → All IsShown (delete_record key rs)
  unfolding delete_record
  delete-IsShown key [] h = tt
  delete-IsShown key (r ∷ rs) h = elim (Bool-cases (text_eq r.key key)) [
    | inl hit ↦ rw hit (delete-IsShown key rs h.1)
    | inr miss ↦ rw miss (h.0, delete-IsShown key rs h.1)
  ]

  drop_expired-IsShown :
      (now : ℕ) (rs : List Availability) → All IsShown rs → All IsShown (drop_expired now rs)
  unfolding drop_expired
  drop_expired-IsShown now [] h = tt
  drop_expired-IsShown now (r ∷ rs) h = elim (Bool-cases (ltb r.expires now)) [
    | inl old ↦ rw old (drop_expired-IsShown now rs h.1)
    | inr fresh ↦ rw fresh (h.0, drop_expired-IsShown now rs h.1)
  ]

  make_room-IsShown :
      (max : ℕ) (rs : List Availability) → All IsShown rs → All IsShown (make_room max rs)
  unfolding make_room
  make_room-IsShown max [] h = tt
  make_room-IsShown max (r ∷ rs) h = elim (Bool-cases (ltb (length (r ∷ rs)) max)) [
    | inl fits ↦ rw fits h
    | inr full ↦ rw full (make_room-IsShown max rs h.1)
  ]

  evict-IsShown : (now : ℕ) (rs : List Availability) → All IsShown rs → All IsShown (evict now rs)
  unfolding evict
  evict-IsShown now rs h = elim (Bool-cases (leb max_records (length rs))) [
    | inl full ↦
        rw full
          (make_room-IsShown max_records (drop_expired now rs) (drop_expired-IsShown now rs h))
    | inr fits ↦ rw fits h
  ]

  record_ttl-le : (available : Bool) → record_ttl poll_interval available ≤ longest
  unfolding record_ttl
  record_ttl-le available = ground arith

  new-IsShown :
      (key : Text) (available : Bool) (tick now : ℕ)
      → check key tick ≡ some available
      → now ≡ clock (tick + 1)
      → IsShown (record {
        key = key;
        available = available;
        expires = now + record_ttl poll_interval available;
      })
  new-IsShown key true tick now said at = inr (tick, said, omega (arith, record_ttl-le true))
  new-IsShown key false tick now said at = inl refl

  put-IsValid :
      (key : Text) (available : Bool) (tick : ℕ) (rs : List Availability)
      → check key tick ≡ some available
      → IsValid rs
      → IsValid (put_record poll_interval key available (clock (tick + 1)) rs)
  unfolding put_record
  put-IsValid key available tick rs said v =
      let now = clock (tick + 1) in
      record {
        bounded = omega (arith, length-delete key (evict now rs), length-evict now rs);
        shown = (
          new-IsShown key available tick now said refl,
          delete-IsShown key (evict now rs) (evict-IsShown now rs v.shown),
        );
      }

  -- Discarding a target's answers keeps the cache valid.
  pub invalidate-IsValid :
      (candidate_id : Text) (target : Head) (rs : List Availability)
      → IsValid rs
      → IsValid (invalidate_availability candidate_id target rs)
  unfolding invalidate_availability
  invalidate-IsValid candidate_id target rs v =
      let first = get_evm_availability_key candidate_id target in
      let second = solana_key candidate_id target in
      record {
        bounded = omega (
          arith,
          length-delete second (delete_record first rs),
          length-delete first rs,
          v.bounded,
        );
        shown = delete-IsShown second (delete_record first rs) (delete-IsShown first rs v.shown);
      }

  find_record-IsShown :
      (key : Text) (rs : List Availability) (r : Availability)
      → All IsShown rs
      → find_record key rs ≡ some r
      → IsShown r × (r.key ≡ key)
  unfolding find_record
  find_record-IsShown key [] r h found = absurd (ground arith)
  find_record-IsShown key (q ∷ rs) r h found = elim (Bool-cases (text_eq q.key key)) [
    | inl hit ↦
        let same : q ≡ r = some_inj q r (rw (hit, find_record) at found) in
        rw (← same) (h.0, (text_eq_iff q.key key).0 hit)
    | inr miss ↦ find_record-IsShown key rs r h.1 (rw (miss, find_record) at found)
  ]

  cached-shown :
      (key : Text) (rs : List Availability) (now : ℕ)
      → IsValid rs
      → get_cached_availability key rs now ≡ some true
      → (t : ℕ) × (check key t ≡ some true) × (now ≤ clock (t + 1) + longest)
  unfolding get_cached_availability
  cached-shown key rs now v cached = elim (Option-cases (find_record key rs)) [
    | inl missing ↦ absurd (ground arith)
    | inr (r, found) ↦
        let (shown, named) = find_record-IsShown key rs r v.shown found in
        elim shown [
          | inl down ↦ absurd (ground arith)
          | inr (t, said, fresh) ↦ (t, rw (← named) said, ground arith)
        ]
  ]

  -- The cache stays within its bound, and an upstream that is said to have a target has shown it in a
  -- check that ended no longer ago than twice the poll interval and a quarter of a second.
  pub probe-IsValid :
      (key : Text) (rs : List Availability) (tick : ℕ)
      → clock tick ≤ clock (tick + 1)
      → IsValid rs
      → let answer = probe clock poll_interval key (check key) rs tick in
        IsValid answer.1
        × ((answer.0 ≡ none)
            ⊎ (answer.0 ≡ some false)
            ⊎ ((t : ℕ) × (check key t ≡ some true) × (clock tick ≤ clock (t + 1) + longest)))
  unfolding probe
  probe-IsValid key rs tick onward v =
      elim (Option-cases (get_cached_availability key rs (clock tick))) [
        | inr (true, cached) ↦
            let (t, said, recent) = cached-shown key rs (clock tick) v cached in
            rw (cached, probe) (v, inr (inr (t, said, recent)))
        | inr (false, cached) ↦ rw (cached, probe) (v, inr (inl refl))
        | inl stale ↦ elim (Option-cases (check key tick)) [
          | inl failed ↦ rw (stale, failed, probe) (v, inl refl)
          | inr (true, said) ↦
              rw (stale, said, probe)
                (put-IsValid key true tick rs said v, inr (inr (tick, said, omega arith)))
          | inr (false, said) ↦
              rw (stale, said, probe) (put-IsValid key false tick rs said v, inr (inl refl))
        ]
      ]
