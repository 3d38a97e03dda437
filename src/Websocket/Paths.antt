-- ===== src/Websocket/Paths.antt =====
-- `expandPath` of internal/gateway/websocket.go: the paths that it finds leave no gap.
use rpc_proxy.Prelude.{
  ℕ, zero, suc, ◌+◌, ◌≡◌, ◌⊎◌, true, false, ◌&&◌, Option, some, List, [], ◌∷◌, ◌==◌, Text, text_eq,
  equal_fold, equal_fold_refl, equal_fold_sym, equal_fold_trans, ok, arith, inl, inr, refl, ap, ◌∙◌,
  Bool-cases, Option-cases, Result-cases,
}
use rpc_proxy.Head.{Head, is_zero}
use rpc_proxy.Chain.Reader.{BlockReader}
use rpc_proxy.Gateway.Registry.{listed}
use rpc_proxy.Websocket.Feed.{fetch_request, follows, backfill, expand_path}

-- The hash is, in lower case, one of the known ones.
abbrev pub IsKnown : List Text → Text → Type 0
IsKnown known hash = (k : Text) × (listed k known ≡ true) × (equal_fold hash k ≡ true)

-- The parent is known, or it is the parent of the head that the connection started from.
abbrev pub IsAnchored : Head → List Text → Head → Type 0
IsAnchored root known h =
    IsKnown known h.parent_hash ⊎ (equal_fold h.parent_hash root.parent_hash ≡ true)

-- Each head is a child of the one before it.
abbrev pub Ascends : Head → List Head → Type 0
Ascends h [] = Unit {0}
Ascends h (c ∷ path) =
    (equal_fold c.parent_hash h.hash ≡ true) × (c.number ≡ h.number + 1) × Ascends c path

sibling-IsAnchored :
    (root : Head) (known : List Text) (last next : Head)
    → equal_fold next.parent_hash last.parent_hash ≡ true
    → IsAnchored root known last
    → IsAnchored root known next
sibling-IsAnchored root known last next same (inl (k, listed', joined)) =
    inl (k, listed', equal_fold_trans next.parent_hash last.parent_hash k same joined)
sibling-IsAnchored root known last next same (inr beside) =
    inr (equal_fold_trans next.parent_hash last.parent_hash root.parent_hash same beside)

-- A path whose first head is anchored and that ascends.
abbrev pub IsPath : Head → List Text → List Head → Type 0
IsPath root known [] = Unit {0}
IsPath root known (h ∷ path) = IsAnchored root known h × Ascends h path

-- The last head of a path.
abbrev pub final : Head → List Head → Head
final d [] = d
final d (h ∷ path) = final h path

module _ (reader : BlockReader) (reorg_depth : ℕ) (root : Head) (known : List Text)
    (history : Text → Option Head) where
  -- The history has heads of known hashes, under their hashes.
  abbrev pub IsRecalled : Type 0
  IsRecalled =
      (k : Text) (a : Head) → history k ≡ some a → (a.hash ≡ k) × (listed a.hash known ≡ true)

  backfill-IsPath :
      (left : ℕ) (last cursor : Head) (above : List Head) (tick : ℕ) (found : List Head)
      → listed last.hash known ≡ true
      → IsRecalled
      → Ascends cursor above
      → (backfill reader reorg_depth left last history cursor (cursor ∷ above) tick).0 ≡ ok found
      → IsPath root known found × (final last found ≡ final cursor above)
  unfolding backfill
  backfill-IsPath zero last cursor above tick found led recalled up h = absurd (ground arith)
  backfill-IsPath (suc left) last cursor above tick found led recalled up h =
      elim (Bool-cases (equal_fold cursor.parent_hash last.hash)) [
        | inl joined ↦
            let is : found ≡ cursor ∷ above = ground arith in
            rw is ((inl (last.hash, led, joined), up), refl)
        | inr apart ↦ elim (Option-cases (history cursor.parent_hash)) [
          | inr (ancestor, remembered) ↦
              let is : found ≡ cursor ∷ above = ground arith in
              let (named, listed') = recalled cursor.parent_hash ancestor remembered in
              rw is (
                (
                  inl (
                    ancestor.hash,
                    listed',
                    ap (equal_fold cursor.parent_hash) named ∙ equal_fold_refl cursor.parent_hash,
                  ),
                  up,
                ),
                refl,
              )
          | inl forgotten ↦ elim (Result-cases ((reader.read (fetch_request cursor) tick).0)) [
            | inr (e, failed) ↦ absurd (ground arith)
            | inl (parent, read) ↦ elim (Bool-cases (follows cursor parent)) [
              | inr uneven ↦ absurd (ground arith)
              | inl even ↦
                  let request = fetch_request cursor in
                  let below : cursor.number ≡ parent.number + 1 = ground arith in
                  let same : equal_fold cursor.parent_hash parent.hash ≡ true =
                    equal_fold_sym parent.hash cursor.parent_hash
                      (reader.read-hash request tick parent read) in
                  backfill-IsPath left last parent (cursor ∷ above) (reader.read request tick).1
                    found led recalled (same, below, up)
                    (rw (apart, forgotten, read, even, backfill) at h)
            ]
          ]
        ]
      ]

  -- A path that is found starts at a known block, or beside the root, has no gap, and leads to the next
  -- head, unless there is nowhere to go.
  pub expand_path-IsPath :
      (last next : Head) (tick : ℕ) (found : List Head)
      → is_zero last ≡ false
      → listed last.hash known ≡ true
      → IsAnchored root known last
      → IsRecalled
      → (expand_path reader reorg_depth last next history tick).0 ≡ ok found
      → IsPath root known found × ((found ≡ []) ⊎ (final last found ≡ next))
  unfolding expand_path
  expand_path-IsPath last next tick found real led anchored recalled h =
      elim (Bool-cases (text_eq next.hash last.hash)) [
        | inl same ↦ let is : found ≡ [] = ground arith in rw is (tt, inl refl)
        | inr moved ↦
            elim (Bool-cases
              (next.number == last.number && equal_fold next.parent_hash last.parent_hash)) [
                | inl beside ↦
                    let is : found ≡ next ∷ [] = ground arith in
                    let same : equal_fold next.parent_hash last.parent_hash ≡ true = ground arith in
                    rw is ((sibling-IsAnchored root known last next same anchored, tt), inr refl)
                | inr off ↦
                    elim (Bool-cases (follows next last && equal_fold next.parent_hash last.hash)) [
                      | inl child ↦
                          let is : found ≡ next ∷ [] = ground arith in
                          rw is ((inl (last.hash, led, ground arith), tt), inr refl)
                      | inr far ↦
                          let (path, ends) =
                            backfill-IsPath reorg_depth last next [] tick found led recalled tt
                              (rw (real, moved, off, far, expand_path) at h) in
                          (path, inr ends)
                    ]
              ]
      ]
