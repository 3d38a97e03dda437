-- ===== src/Websocket/Gapless.antt =====
-- `eventLoop` of internal/gateway/websocket.go: what a subscriber is told leaves no gap.
use rpc_proxy.Prelude.{
  ℕ, ◌≡◌, ◌⊎◌, ◌++◌, Bool, true, false, Option, none, some, List, [], ◌∷◌, map, ltb, leb,
  if◌then◌else◌, length, All, Text, text_eq, text_eq_iff, text_eq_refl, equal_fold, update, arith,
  inl, inr, refl, sym, ap, ◌∙◌, Bool-cases, Option-cases, Result-cases, some_inj,
}
use rpc_proxy.Head.{Head, is_zero}
use rpc_proxy.Store.Defs.{Event}
use rpc_proxy.Chain.Reader.{BlockReader}
use rpc_proxy.Gateway.Registry.{listed}
use rpc_proxy.Websocket.Feed.{
  Feed, expand_path, trim, history_limit, remember, announce, announce_all, take_events, max_seen,
}
use rpc_proxy.Websocket.Paths.{IsAnchored, Ascends, IsPath, final, expand_path-IsPath}

abbrev hashes : List Head → List Text
hashes = map (λ h. h.hash)

-- The heads that were sent, the newest first: the parent of each was sent before it, or is the root
-- from which the connection started or the root's own parent, and no hash is sent twice.
abbrev pub Gapless : Head → List Head → Type 0
Gapless root [] = Unit {0}
Gapless root (h ∷ older) =
    IsAnchored root (root.hash ∷ hashes older) h
    × (listed h.hash (hashes older) ≡ false)
    × Gapless root older

listed_later :
    (k x r : Text) (known : List Text)
    → listed k (r ∷ known) ≡ true
    → listed k (r ∷ x ∷ known) ≡ true
unfolding listed
listed_later k x r known h = ground arith

listed_self : (k r : Text) (known : List Text) → listed k (r ∷ k ∷ known) ≡ true
unfolding listed
listed_self k r known = ground (arith, text_eq_refl k)

listed_tail : (k r : Text) (known : List Text) → listed k known ≡ true → listed k (r ∷ known) ≡ true
unfolding listed
listed_tail k r known h = ground arith

IsAnchored-later :
    (root : Head) (x r : Text) (known : List Text) (h : Head)
    → IsAnchored root (r ∷ known) h
    → IsAnchored root (r ∷ x ∷ known) h
IsAnchored-later root x r known h (inl (k, listed', joined)) =
    inl (k, listed_later k x r known listed', joined)
IsAnchored-later root x r known h (inr beside) = inr beside

module _ (reader : BlockReader) (reorg_depth : ℕ) (root : Head) where
  pub record Kept (f : Feed) : Type 0 where
    pub gapless : Gapless root f.sent
    pub marked : f.seen ≡ hashes f.sent
    pub recalled :
        (k : Text) (a : Head)
        → f.history k ≡ some a
        → (a.hash ≡ k) × (listed a.hash (root.hash ∷ f.seen) ≡ true)
    pub led : listed f.last.hash (root.hash ∷ f.seen) ≡ true
    pub anchored : IsAnchored root (root.hash ∷ f.seen) f.last

  extend-Gapless :
      (h : Head) (seen : List Text) (sent : List Head)
      → seen ≡ hashes sent
      → Gapless root sent
      → IsAnchored root (root.hash ∷ seen) h
      → listed h.hash seen ≡ false
      → Gapless root (h ∷ sent)
  extend-Gapless h seen sent marked gapless anchored fresh =
      rw (← marked) (anchored, fresh, gapless)

  -- A head that is put into the history, which may lose one.
  trim-Recalled :
      (known : List Text) (history : Text → Option Head) (order : List Text)
      → ((k : Text) (a : Head) → history k ≡ some a → (a.hash ≡ k) × (listed a.hash known ≡ true))
      → (k : Text) (a : Head) → (trim reader reorg_depth history order).0 k ≡ some a
      → (a.hash ≡ k) × (listed a.hash known ≡ true)
  unfolding trim
  trim-Recalled known history [] recalled k a h = recalled k a h
  trim-Recalled known history (oldest ∷ order) recalled k a h =
      elim (Bool-cases (ltb (history_limit reader reorg_depth) (length (oldest ∷ order)))) [
        | inr fits ↦ recalled k a (rw (fits, trim) at h)
        | inl over ↦ elim (Bool-cases (text_eq k oldest)) [
          | inl dropped ↦ absurd (ground arith)
          | inr kept ↦ recalled k a (ground arith)
        ]
      ]

  put-Recalled :
      (seen : List Text) (h : Head) (history : Text → Option Head)
      → ((k : Text) (a : Head)
          → history k ≡ some a
          → (a.hash ≡ k) × (listed a.hash (root.hash ∷ seen) ≡ true))
      → (k : Text) (a : Head) → update history h.hash (some h) k ≡ some a
      → (a.hash ≡ k) × (listed a.hash (root.hash ∷ h.hash ∷ seen) ≡ true)
  put-Recalled seen h history recalled k a put = elim (Bool-cases (text_eq k h.hash)) [
    | inl same ↦
        let is : h ≡ a = some_inj h a (rw same at put) in
        let named : k ≡ h.hash = (text_eq_iff k h.hash).0 same in
        rw (← is) (sym named, listed_self h.hash root.hash seen)
    | inr apart ↦
        let (named, known) = recalled k a (rw apart at put) in
        (named, listed_later a.hash h.hash root.hash seen known)
  ]

  announce-Kept :
      (h : Head) (f : Feed)
      → Kept f
      → IsAnchored root (root.hash ∷ f.seen) h
      → Kept (announce reader reorg_depth h f).1
  unfolding announce remember
  announce-Kept h f k anchored = elim (Bool-cases (listed h.hash f.seen)) [
    | inl again ↦ rw again (record {
      gapless = k.gapless;
      marked = k.marked;
      recalled = k.recalled;
      led = listed_tail h.hash root.hash f.seen again;
      anchored = anchored;
    })
    | inr fresh ↦ elim (Bool-cases (leb max_seen (length f.seen))) [
      | inl full ↦ rw (fresh, full) k
      | inr room ↦
          let known : Bool = elim (f.history h.hash) [ none ↦ false | some _ ↦ true ] in
          let order = if known then f.history_order else f.history_order ++ h.hash ∷ [] in
          rw (fresh, room)
            (record {
              gapless = extend-Gapless h f.seen f.sent k.marked k.gapless anchored fresh;
              marked = ap (λ seen. h.hash ∷ seen) k.marked;
              recalled =
                  trim-Recalled (root.hash ∷ h.hash ∷ f.seen) (update f.history h.hash (some h))
                    order (put-Recalled f.seen h f.history k.recalled);
              led = listed_self h.hash root.hash f.seen;
              anchored = IsAnchored-later root h.hash root.hash f.seen h anchored;
            })
    ]
  ]

  announce-last :
      (h : Head) (f : Feed)
      → (announce reader reorg_depth h f).0 ≡ none
      → (announce reader reorg_depth h f).1.last ≡ h
  unfolding announce remember
  announce-last h f open' = ground arith

  -- A head whose parent is the last one that was taken.
  next-IsAnchored :
      (h c : Head) (f : Feed)
      → Kept f
      → f.last ≡ h
      → equal_fold c.parent_hash h.hash ≡ true
      → IsAnchored root (root.hash ∷ f.seen) c
  next-IsAnchored h c f k last joined =
      inl (h.hash, ap (λ l. listed l.hash (root.hash ∷ f.seen)) (sym last) ∙ k.led, joined)

  next-IsPath :
      (h : Head) (path : List Head) (f : Feed)
      → Kept f
      → f.last ≡ h
      → Ascends h path
      → IsPath root (root.hash ∷ f.seen) path
  next-IsPath h [] f k last up = tt
  next-IsPath h (c ∷ path) f k last (joined, above, up) = (next-IsAnchored h c f k last joined, up)

  announce_all-Kept :
      (path : List Head) (f : Feed)
      → Kept f
      → IsPath root (root.hash ∷ f.seen) path
      → Kept (announce_all reader reorg_depth path f).1
  unfolding announce_all
  announce_all-Kept [] f k p = k
  announce_all-Kept (h ∷ path) f k (anchored, up) =
      let done = announce reader reorg_depth h f in
      let kept = announce-Kept h f k anchored in
      elim (Option-cases done.0) [
        | inr (closing, closed) ↦ rw (closed, announce_all) kept
        | inl open' ↦
            rw (open', announce_all)
              (announce_all-Kept path done.1 kept
                (next-IsPath h path done.1 kept (announce-last h f open') up))
      ]

  announce_all-last :
      (path : List Head) (f : Feed)
      → (announce_all reader reorg_depth path f).0 ≡ none
      → (announce_all reader reorg_depth path f).1.last ≡ final f.last path
  unfolding announce_all
  announce_all-last [] f open' = refl
  announce_all-last (h ∷ path) f open' =
      let done = announce reader reorg_depth h f in
      elim (Option-cases done.0) [
        | inr (closing, closed) ↦ absurd (ground arith)
        | inl further ↦
            rw (further, announce_all)
              (announce_all-last path done.1 (rw (further, announce_all) at open')
                ∙ ap (λ l. final l path) (announce-last h f further))
      ]

  -- The stream holds accepted heads, none of them the zero value.
  abbrev pub IsReal : Event → Type 0
  IsReal e = is_zero e.head ≡ false

  moved-Kept : (id : Text) (f : Feed) → Kept f → Kept (record f { cursor = id })
  moved-Kept id f k = record {
    gapless = k.gapless;
    marked = k.marked;
    recalled = k.recalled;
    led = k.led;
    anchored = k.anchored;
  }

  final-real :
      (last next : Head) (path : List Head)
      → is_zero last ≡ false
      → is_zero next ≡ false
      → (path ≡ []) ⊎ (final last path ≡ next)
      → is_zero (final last path) ≡ false
  final-real last next path l n (inl none') = rw none' l
  final-real last next path l n (inr reached) = rw reached n

  -- Closed or not, what was sent has no gap, and an open loop goes on from an accepted head.
  pub take_events-Kept :
      (events : List Event) (f : Feed) (tick : ℕ)
      → All IsReal events
      → Kept f
      → is_zero f.last ≡ false
      → Kept (take_events reader reorg_depth events f tick).1
        × (((take_events reader reorg_depth events f tick).0 ≡ none)
            → is_zero (take_events reader reorg_depth events f tick).1.last ≡ false)
  unfolding take_events
  take_events-Kept [] f tick real k l = (k, λ _. l)
  take_events-Kept (e ∷ events) f tick (real, reals) k l =
      let found = expand_path reader reorg_depth f.last e.head f.history tick in
      let moved = record f { cursor = e.id } in
      elim (Result-cases found.0) [
        | inr (gap, failed) ↦ rw (failed, take_events) (moved-Kept e.id f k, λ _. l)
        | inl (path, good) ↦
            let (is_path, ends) =
              expand_path-IsPath reader reorg_depth root (root.hash ∷ f.seen) f.history f.last
                e.head tick path l k.led k.anchored k.recalled good in
            let told = announce_all reader reorg_depth path moved in
            let kept = announce_all-Kept path moved (moved-Kept e.id f k) is_path in
            elim (Option-cases told.0) [
              | inr (closing, closed) ↦
                  rw (good, closed, take_events) (kept, λ open'. absurd (ground arith))
              | inl open' ↦
                  let last' : is_zero told.1.last ≡ false =
                    ap is_zero (announce_all-last path moved open')
                    ∙ final-real f.last e.head path l real ends in
                  rw (good, open', take_events)
                    (take_events-Kept events told.1 found.1 reals kept last')
            ]
      ]
