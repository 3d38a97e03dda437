-- ===== src/RequestCache/Bounds.antt =====
-- internal/services/requestcache/cache.go: the limits of the cache, and that `put` never panics.
use rpc_proxy.Prelude.{
  ℕ, zero, suc, ◌+◌, ◌≤◌, ◌<◌, ◌≡◌, inl, inr, refl, sym, ap, ◌∙◌, true, false, Bool-cases,
  Option-cases, none, some, List, [], ◌∷◌, length, Text, text_eq, text_eq_sound, text_eq_refl,
  arith,
}
use rpc_proxy.RequestCache.Defs.{
  Entry, CacheConfig, Cache, find, without, remove, back, is_full, evict,
}

-- The sum of the sizes.
abbrev pub total : List Entry → ℕ
total [] = 0
total (e ∷ es) = e.size + total es

-- No key stands twice.
abbrev pub IsDistinct : List Entry → Type 0
IsDistinct [] = Unit
IsDistinct (e ∷ es) = (find e.key es ≡ none) × IsDistinct es

-- The counter and the keys, which removal keeps as well.
pub record IsCounted (c : Cache) : Type 0 where
  pub counted : c.bytes ≡ total c.recent
  pub distinct : IsDistinct c.recent

pub some_same : {A : Type 0} (x y : A) → some x ≡ some y → x ≡ y
some_same x y e = ground arith

pub find-key : (key : Text) (es : List Entry) (e : Entry) → find key es ≡ some e → e.key ≡ key
unfolding find
find-key key [] e h = absurd (ground arith)
find-key key (f ∷ es) e h = elim (Bool-cases (text_eq f.key key)) [
  | inl same ↦
      let is : some f ≡ some e = rw (find, same) at h in
      ap (λ x. x.key) (sym (some_same f e is)) ∙ text_eq_sound f.key key same
  | inr other ↦ find-key key es e (rw (find, other) at h)
]

pub total-without :
    (key : Text) (es : List Entry) (e : Entry)
    → find key es ≡ some e
    → (total es ≡ e.size + total (without key es)) × (length es ≡ suc (length (without key es)))
unfolding find without
total-without key [] e h = absurd (ground arith)
total-without key (f ∷ es) e h = elim (Bool-cases (text_eq f.key key)) [
  | inl same ↦ ground arith
  | inr other ↦ let rest = total-without key es e (ground arith) in ground arith
]

pub find-without :
    (j key : Text) (es : List Entry) → find j es ≡ none → find j (without key es) ≡ none
unfolding find without
find-without j key [] h = h
find-without j key (f ∷ es) h = let rest = find-without j key es (ground arith) in ground arith

pub without-IsDistinct :
    (key : Text) (es : List Entry) → IsDistinct es → IsDistinct (without key es)
unfolding without
without-IsDistinct key [] d = d
without-IsDistinct key (f ∷ es) (fresh, d) = elim (Bool-cases (text_eq f.key key)) [
  | inl same ↦ rw same d
  | inr other ↦ rw other (find-without f.key key es fresh, without-IsDistinct key es d)
]

pub none-some : {A : Type 0} {x : A} → none ≡ some x → ⊥
none-some e = ground arith

pub back-find :
    (es : List Entry) (e : Entry) → IsDistinct es → back es ≡ some e → find e.key es ≡ some e
unfolding back find
back-find [] e d h = absurd (ground arith)
back-find (f ∷ []) e d h = let is = some_same f e h in rw (is, text_eq_refl e.key) refl
back-find (f ∷ g ∷ es) e (fresh, d) h =
    let rest = back-find (g ∷ es) e d h in
    elim (Bool-cases (text_eq f.key e.key)) [
      | inl same ↦
          let keys = text_eq_sound f.key e.key same in
          absurd (none-some (sym fresh ∙ ap (λ k. find k (g ∷ es)) keys ∙ rest))
      | inr other ↦ rw other rest
    ]

back-more : (f : Entry) (es : List Entry) → f ∷ es ≡ [] → ⊥
back-more f es e = ground arith

back-some : (es : List Entry) → back es ≡ none → es ≡ []
unfolding back
back-some [] h = refl
back-some (e ∷ []) h = absurd (ground arith)
back-some (e ∷ f ∷ es) h = absurd (back-more f es (back-some (f ∷ es) h))

pub remove-IsCounted :
    (c : Cache) (e : Entry)
    → IsCounted c
    → find e.key c.recent ≡ some e
    → IsCounted (remove c e)
      × (length c.recent ≡ suc (length (remove c e).recent))
      × ((remove c e).bytes ≤ c.bytes)
unfolding remove
remove-IsCounted c e k found =
    let (sum, count) = total-without e.key c.recent e found in
    (
      record {
        counted = omega (arith, sum, k.counted);
        distinct = without-IsDistinct e.key c.recent k.distinct;
      },
      count,
      omega arith,
    )

empty-room :
    (config : CacheConfig) (size : ℕ) (c : Cache)
    → 0 < config.max_entries
    → size ≤ config.max_bytes
    → IsCounted c
    → c.recent ≡ []
    → is_full config size c ≡ true
    → ⊥
empty-room config size c p q k none_left full =
    let counted = k.counted in
    let sum : total c.recent ≡ 0 = rw none_left refl in
    let count : length c.recent ≡ 0 = rw none_left refl in ground arith

-- The loop ends with room for the entry, if the limits can hold one, and keeps what removals keep.
pub evict-lem :
    (P : List Entry → Type 0) (closed : (key : Text) (es : List Entry) → P es → P (without key es))
    (config : CacheConfig) (size rounds : ℕ) (c : Cache)
    → 0 < config.max_entries
    → size ≤ config.max_bytes
    → IsCounted c
    → length c.recent < rounds
    → P c.recent
    → (room : Cache) × (evict config size rounds c ≡ some room)
      × IsCounted room
      × (is_full config size room ≡ false)
      × P room.recent
unfolding evict remove
evict-lem P closed config size zero c p q k b h = absurd (omega arith)
evict-lem P closed config size (suc rounds) c p q k b h =
    elim (Bool-cases (is_full config size c)) [
      | inr room ↦ (c, rw room refl, k, room, h)
      | inl full ↦ elim (Option-cases (back c.recent)) [
        | inl missing ↦ absurd (empty-room config size c p q k (back-some c.recent missing) full)
        | inr (e, found) ↦
            let (k', count, less) =
              remove-IsCounted c e k (back-find c.recent e k.distinct found) in
            let (room, done, kr, free, hr) =
              evict-lem P closed config size rounds (remove c e) p q k' (omega arith)
                (closed e.key c.recent h) in
            (room, rw (full, found) done, kr, free, hr)
      ]
    ]
