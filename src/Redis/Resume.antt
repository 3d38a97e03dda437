-- ===== src/Redis/Resume.antt =====
-- internal/head/redis.go: what a reader that resumes at a cursor gets from `ReadEvents`.
use rpc_proxy.Prelude.{
  ℕ, zero, suc, ◌<◌, ◌≤◌, ◌≡◌, ◌⊎◌, refl, sym, ap, ◌∙◌, true, false, ◌&&◌, some, List, [], ◌∷◌,
  ◌++◌, ltb, length, length-append, take, drop, All, Text, codes, text_eq, text_eq_iff,
  Result-cases, ok, arith, Bool-cases, List-cases, inl, inr,
}
use mathlib.Core.List.{append_assoc, append-nil}
use rpc_proxy.Store.Defs.{Event, limit_events}
use rpc_proxy.Redis.Reads.{
  Silence, timed_out, broken, is_retained, check, newer, xread, read_events,
}

-- A stream is a part of the chain's whole history that starts after at most `k` events.
abbrev pub IsWindow : List Event → ℕ → List Event → Type 0
IsWindow all k stream =
    (gone : List Event) × (to_come : List Event) × (all ≡ gone ++ (stream ++ to_come))
    × (length gone ≤ k)

is_retained-inv :
    (cursor : Text) (events : List Event)
    → is_retained cursor events ≡ true
    → (before : List Event) × (e : Event) × (after : List Event) × (events ≡ before ++ e ∷ after)
      × (e.id ≡ cursor)
unfolding is_retained
is_retained-inv cursor [] h = absurd (ground arith)
is_retained-inv cursor (e ∷ events) h = elim (Bool-cases (text_eq e.id cursor)) [
  | inl hit ↦ ([], e, events, refl, (text_eq_iff e.id cursor).0 hit)
  | inr miss ↦
      let (before, f, after, split, same) = is_retained-inv cursor events (rw miss at h) in
      (e ∷ before, f, after, ap (λ es. e ∷ es) split, same)
]

-- A shorter prefix is a prefix of the longer.
prefix_split :
    (p x b y : List Event) → p ++ x ≡ b ++ y → length p ≤ length b → (m : List Event) × (b ≡ p ++ m)
prefix_split [] x b y same short = (b, refl)
prefix_split (e ∷ p) x [] y same short = absurd (omega arith)
prefix_split (e ∷ p) x (f ∷ b) y same short =
    let (m, rest) = prefix_split p x b y (cc) (omega arith) in (m, (cc))

take-append-drop : (k : ℕ) (xs : List Event) → take k xs ++ drop k xs ≡ xs
take-append-drop zero xs = refl
take-append-drop (suc k) [] = refl
take-append-drop (suc k) (x ∷ xs) = ap (λ es. x ∷ es) (take-append-drop k xs)

All-middle :
    (P : Event → Type 0) (before : List Event) (e : Event) (after : List Event)
    → All P (before ++ e ∷ after)
    → P e
All-middle P [] e after h = h.0
All-middle P (f ∷ before) e after h = All-middle P before e after h.1

All-prefix : (P : Event → Type 0) (xs ys : List Event) → All P (xs ++ ys) → All P xs
All-prefix P [] ys h = tt
All-prefix P (x ∷ xs) ys h = (h.0, All-prefix P xs ys h.1)

-- A limited list is the start of the whole.
limit_events-prefix :
    (count : ℕ) (events : List Event)
    → (rest : List Event) × (events ≡ limit_events count events ++ rest)
limit_events-prefix count events = elim (Bool-cases (ltb 0 count && ltb count (length events))) [
  | inl long ↦ (drop count events, rw long (sym (take-append-drop count events)))
  | inr fits ↦ ([], rw fits (sym (append-nil events)))
]

module _ (rank : Text → ℕ) where
  -- The IDs of a history grow.
  abbrev pub Ascending : List Event → Type 0
  Ascending [] = Unit {0}
  Ascending (e ∷ events) = All (λ (f : Event). rank e.id < rank f.id) events × Ascending events

  newer-append :
      (cursor : Text) (xs ys : List Event)
      → newer rank cursor (xs ++ ys) ≡ newer rank cursor xs ++ newer rank cursor ys
  unfolding newer
  newer-append cursor [] ys = refl
  newer-append cursor (e ∷ xs) ys = ground (arith, newer-append cursor xs ys)

  newer-All :
      (cursor : Text) (events : List Event)
      → All (λ (f : Event). rank cursor < rank f.id) events
      → newer rank cursor events ≡ events
  unfolding newer
  newer-All cursor [] h = refl
  newer-All cursor (e ∷ events) h = ground (arith, newer-All cursor events h.1)

  newer_none :
      (cursor : Text) (events : List Event)
      → All (λ (f : Event). rank f.id < rank cursor) events
      → newer rank cursor events ≡ []
  unfolding newer
  newer_none cursor [] h = refl
  newer_none cursor (e ∷ events) h = ground (arith, newer_none cursor events h.1)

  Ascending-split :
      (before : List Event) (e : Event) (after : List Event)
      → Ascending (before ++ e ∷ after)
      → All (λ (f : Event). rank f.id < rank e.id) before
        × All (λ (f : Event). rank e.id < rank f.id) after
  Ascending-split [] e after h = (tt, h.0)
  Ascending-split (f ∷ before) e after h =
      let (low, high) = Ascending-split before e after h.1 in
      ((All-middle (λ (g : Event). rank f.id < rank g.id) before e after h.0, low), high)

  newer_self :
      (e : Event) (after : List Event)
      → All (λ (f : Event). rank e.id < rank f.id) after
      → newer rank e.id (e ∷ after) ≡ after
  unfolding newer
  newer_self e after high = ground (arith, newer-All e.id after high)

  newer-after :
      (before : List Event) (e : Event) (after : List Event)
      → Ascending (before ++ e ∷ after)
      → newer rank e.id (before ++ e ∷ after) ≡ after
  newer-after before e after h =
      let (low, high) = Ascending-split before e after h in
      newer-append e.id before (e ∷ after)
      ∙ rw (newer_none e.id before low) (newer_self e after high)

  -- What follows the cursor in a window that starts before it is what follows it in the history.
  newer-window :
      (before : List Event) (e : Event) (after gone stream to_come : List Event)
      → Ascending (before ++ e ∷ after)
      → before ++ e ∷ after ≡ gone ++ (stream ++ to_come)
      → length gone ≤ length before
      → (rest : List Event) × (after ≡ newer rank e.id stream ++ rest)
  newer-window before e after gone stream to_come h same early =
      let (middle, split) =
        prefix_split gone (stream ++ to_come) before (e ∷ after) (sym same) early in
      let (low, high) = Ascending-split before e after h in
      let low' : All (λ (f : Event). rank f.id < rank e.id) (gone ++ middle) = rw split at low in
      let none' =
        newer_none e.id gone (All-prefix (λ (f : Event). rank f.id < rank e.id) gone middle low') in
      (
        newer rank e.id to_come,
        sym (newer-after before e after h)
            ∙ ap (newer rank e.id) same
            ∙ newer-append e.id gone (stream ++ to_come)
            ∙ rw none' (newer-append e.id stream to_come),
      )

  -- The stream that an `XREAD` has answered from.
  xread-inv :
      (cursor : Text) (count : ℕ) (events : List Event) (wakes : List (List Event))
      (silence : Silence) (found : List Event) (P : List Event → Type 0)
      → All P (events ∷ wakes)
      → xread rank cursor count events wakes silence ≡ ok found
      → (stream : List Event) × P stream × (found ≡ limit_events count (newer rank cursor stream))
  unfolding xread
  xread-inv cursor count events [] silence found P h read =
      elim (List-cases (newer rank cursor events)) [
        | inl quiet ↦ absurd (ground arith)
        | inr (e, rest, some') ↦ (events, h.0, ground arith)
      ]
  xread-inv cursor count events (later ∷ wakes) silence found P h read =
      elim (List-cases (newer rank cursor events)) [
        | inl quiet ↦
            xread-inv cursor count later wakes silence found P h.1 (rw (quiet, xread) at read)
        | inr (e, rest, some') ↦ (events, h.0, ground arith)
      ]

  read_events-inv :
      (cursor : Text) (count : ℕ) (events : List Event) (wakes : List (List Event))
      (silence : Silence) (checked found : List Event)
      → text_eq cursor (codes "0-0") ≡ false
      → read_events rank cursor count events wakes silence (some checked) ≡ ok found
      → (is_retained cursor checked ≡ true)
        × ((found ≡ []) ⊎ (xread rank cursor count events wakes silence ≡ ok found))
  unfolding read_events check
  read_events-inv cursor count events wakes silence checked found apart read =
      elim (Result-cases (xread rank cursor count events wakes silence)) [
        | inl (answer, got) ↦ (ground arith, inr (ground arith))
        | inr (timed_out, got) ↦ (ground arith, inl (ground arith))
        | inr (broken, got) ↦ absurd (ground arith)
      ]

  -- A read from a cursor that has not been trimmed gives the events that directly follow it in the
  -- chain's history, in order, none skipped, however the stream has grown and been trimmed while the
  -- read was blocked. The IDs of the history grow, and no stream that was read starts after the one on
  -- which the cursor's retention was checked.
  pub read_events_no_gap :
      (all : List Event) (cursor : Text) (count : ℕ) (events : List Event)
      (wakes : List (List Event)) (silence : Silence) (trimmed checked to_come found : List Event)
      → Ascending all
      → all ≡ trimmed ++ (checked ++ to_come)
      → All (IsWindow all (length trimmed)) (events ∷ wakes)
      → text_eq cursor (codes "0-0") ≡ false
      → read_events rank cursor count events wakes silence (some checked) ≡ ok found
      → (before : List Event) × (e : Event) × (rest : List Event) × (all
          ≡ before ++ e ∷ (found ++ rest))
        × (e.id ≡ cursor)
  read_events_no_gap all cursor count events wakes silence trimmed checked to_come found rising
        history windows apart read =
      let (kept, got) =
        read_events-inv cursor count events wakes silence checked found apart read in
      let (mid, e, tail, split, named) = is_retained-inv cursor checked kept in
      let before = trimmed ++ mid in
      let after = tail ++ to_come in
      let whole : all ≡ before ++ e ∷ after = rw (history, split) (simp append_assoc) in
      elim got [
        | inl empty ↦ (before, e, after, rw empty whole, named)
        | inr answered ↦
            let (stream, (gone, later, window, early), limited) =
              xread-inv cursor count events wakes silence found (IsWindow all (length trimmed))
                windows answered in
            let (rest, follows) =
              newer-window before e after gone stream later (rw whole at rising)
                (sym whole ∙ window) (omega (arith, early, length-append trimmed mid)) in
            let (cut, short) = limit_events-prefix count (newer rank cursor stream) in
            let start : newer rank e.id stream ≡ found ++ cut =
              ap {B = List Event} (λ c. newer rank c stream) named
              ∙ short
              ∙ ap {B = List Event} (λ f. f ++ cut) (sym limited) in
            let next : after ≡ found ++ (cut ++ rest) =
              follows
              ∙ ap {B = List Event} (λ es. es ++ rest) start
              ∙ append_assoc found cut rest in
            (
              before,
              e,
              cut ++ rest,
              whole ∙ ap {B = List Event} (λ es. before ++ e ∷ es) next,
              named,
            )
      ]
