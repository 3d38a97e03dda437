-- ===== src/Coordinator/Walks.antt =====
-- The walks of `validateEVMTransition`: what each of them proves about the two chains.
use rpc_proxy.Prelude.{
  ℕ, zero, suc, ◌+◌, ◌≤◌, ◌<◌, ◌≡◌, ◌⊎◌, inl, inr, refl, Bool, true, ◌&&◌, some, [], ◌∷◌, ltb,
  ltb→lt, ◌==◌, Bool-cases, Option-cases, Text, equal_fold, equal_fold_sym, u64, All, Result, ok,
  arith,
}
use rpc_proxy.Head.{Head}
use rpc_proxy.Chain.Defs.{BlockRequest}
use rpc_proxy.Chain.Reader.{BlockReader}
use rpc_proxy.Chain.Links.{Linked, up, Descends, Meets}
use rpc_proxy.Coordinator.Monad.{Env, try_read, read_block, CoordinatorError}
use rpc_proxy.Coordinator.Transition.{
  is_parent, Ancestors, get_ancestor_number, Walk, met, collected, walk_request, descend, collect,
  is_ancestor, find_common,
}

module _ {ℓ} {S : Type ℓ} (reader : BlockReader) (depth : ℕ)
    (on_divergence : S → Result CoordinatorError (Unit {0}) × S) where
  abbrev after_read : BlockRequest → Env S → Env S
  after_read request e = record e { tick = (reader.read request e.tick).1 }

  module _ (current candidate : Head) where
    descend-step :
        (left : ℕ) (cursor c : Head) (e e' : Env S)
        → current.number < cursor.number
        → descend reader depth on_divergence current candidate (suc left) cursor e ≡ (ok c, e')
        → let request = walk_request candidate cursor in
          (parent : Head) × ((reader.read request e.tick).0 ≡ ok parent)
          × (parent.number < cursor.number)
          × (u64 (parent.number + 1) ≡ cursor.number)
          × (descend reader depth on_divergence current candidate left parent (after_read request e)
              ≡ (ok c, e'))
    unfolding descend read_block
    descend-step left cursor c e e' deep h = ground arith

    descend_done :
        (left : ℕ) (cursor c : Head) (e e' : Env S)
        → cursor.number ≤ current.number
        → descend reader depth on_divergence current candidate left cursor e ≡ (ok c, e')
        → cursor ≡ c
    unfolding descend
    descend_done zero cursor c e e' level h = ground arith
    descend_done (suc left) cursor c e e' level h = ground arith

    pub descend-Linked :
        (left : ℕ) (cursor c : Head) (e e' : Env S)
        → Linked candidate cursor
        → descend reader depth on_divergence current candidate left cursor e ≡ (ok c, e')
        → Linked candidate c
    descend-Linked zero cursor c e e' l h = elim (Bool-cases (ltb current.number cursor.number)) [
      | inl deep ↦ unfold descend in absurd (ground arith)
      | inr level ↦ rw (← descend_done zero cursor c e e' (ground arith) h) l
    ]
    descend-Linked (suc left) cursor c e e' l h =
        elim (Bool-cases (ltb current.number cursor.number)) [
          | inl deep ↦
              let (parent, reply, below, next, rest) =
                descend-step left cursor c e e' (ltb→lt current.number cursor.number deep) h in
              let request = walk_request candidate cursor in
              descend-Linked left parent c (after_read request e) e'
                (up l (reader.read-hash request e.tick parent reply)
                  (omega (arith, reader.read_bounds request e.tick parent reply)))
                rest
          | inr level ↦ rw (← descend_done (suc left) cursor c e e' (ground arith) h) l
        ]

    collect-step :
        (left : ℕ) (cursor : Head) (ancestors : Ancestors) (w : Walk) (e e' : Env S)
        → collect reader depth on_divergence current candidate (suc left) cursor ancestors e
          ≡ (ok w, e')
        → (w ≡ collected ancestors)
          ⊎ ((parent : Head) × ((reader.read (walk_request current cursor) e.tick).0 ≡ ok parent)
              × (0 < cursor.number)
              × (is_parent parent cursor ≡ true)
              × ((((parent.number == candidate.number && equal_fold parent.hash candidate.hash)
                      ≡ true)
                    × (w ≡ met))
                  ⊎ (collect reader depth on_divergence current candidate left parent
                        ((parent.hash, parent.number) ∷ ancestors)
                        (after_read (walk_request current cursor) e)
                      ≡ (ok w, e'))))
    unfolding collect try_read
    collect-step left cursor ancestors w e e' h = ground arith

    -- An entry of the ancestor map stands for a header on the accepted chain.
    abbrev pub Known : Text × ℕ → Type 0
    Known entry = (a : Head) × Linked current a × (a.hash ≡ entry.0) × (a.number ≡ entry.1)

    abbrev pub Explained : Walk → Type 0
    Explained met = Descends current candidate
    Explained (collected ancestors) = All Known ancestors

    parent-Linked :
        (start cursor parent : Head) (e : Env S)
        → Linked start cursor
        → (reader.read (walk_request candidate cursor) e.tick).0 ≡ ok parent
          ⊎ ((reader.read (walk_request current cursor) e.tick).0 ≡ ok parent)
        → 0 < cursor.number
        → is_parent parent cursor ≡ true
        → Linked start parent
    parent-Linked start cursor parent e l (inl reply) p h =
        up l (reader.read-hash (walk_request candidate cursor) e.tick parent reply)
          (ground (arith, reader.read_bounds (walk_request candidate cursor) e.tick parent reply))
    parent-Linked start cursor parent e l (inr reply) p h =
        up l (reader.read-hash (walk_request current cursor) e.tick parent reply)
          (ground (arith, reader.read_bounds (walk_request current cursor) e.tick parent reply))

    pub collect-Explained :
        (left : ℕ) (cursor : Head) (ancestors : Ancestors) (w : Walk) (e e' : Env S)
        → Linked current cursor
        → All Known ancestors
        → collect reader depth on_divergence current candidate left cursor ancestors e ≡ (ok w, e')
        → Explained w
    collect-Explained zero cursor ancestors w e e' l k h =
        let same : collected ancestors ≡ w = unfold collect in ground arith in rw (← same) k
    collect-Explained (suc left) cursor ancestors w e e' l k h =
        elim (collect-step left cursor ancestors w e e' h) [
          | inl done ↦ rw done k
          | inr (parent, reply, deep, linked, more) ↦
              let l' = parent-Linked current cursor parent e l (inr reply) deep linked in
              elim more [
                | inl (same, found) ↦ rw found (parent, l', (ground arith, ground arith))
                | inr rest ↦
                    collect-Explained left parent ((parent.hash, parent.number) ∷ ancestors) w
                      (after_read (walk_request current cursor) e) e' l'
                      ((parent, l', refl, refl), k) rest
              ]
        ]

    get_ancestor_number-Known :
        (ancestors : Ancestors) (hash : Text) (n : ℕ)
        → All Known ancestors
        → get_ancestor_number ancestors hash ≡ some n
        → (a : Head) × Linked current a × (equal_fold a.hash hash ≡ true) × (a.number ≡ n)
    unfolding get_ancestor_number
    get_ancestor_number-Known [] hash n k h = absurd (ground arith)
    get_ancestor_number-Known ((x, m) ∷ ancestors) hash n ((a, l, same, level), k) h =
        elim (Bool-cases (equal_fold x hash)) [
          | inl hit ↦ (a, l, rw same hit, ground arith)
          | inr miss ↦
              get_ancestor_number-Known ancestors hash n k (rw (miss, get_ancestor_number) at h)
        ]

    is_ancestor-Meets :
        (ancestors : Ancestors) (cursor : Head)
        → All Known ancestors
        → Linked candidate cursor
        → is_ancestor ancestors cursor ≡ true
        → Meets candidate current
    is_ancestor-Meets ancestors cursor k l h =
        elim (Option-cases (get_ancestor_number ancestors cursor.hash)) [
          | inl missing ↦ absurd (ground arith)
          | inr (n, found) ↦
              let (a, la, same, level) =
                get_ancestor_number-Known ancestors cursor.hash n k found in
              (cursor, a, l, la, (equal_fold_sym a.hash cursor.hash same, ground arith))
        ]

    find_common-step :
        (ancestors : Ancestors) (left : ℕ) (cursor : Head) (b : Bool) (e e' : Env S)
        → find_common reader depth on_divergence current candidate ancestors (suc left) cursor e
          ≡ (ok b, e')
        → ((is_ancestor ancestors cursor ≡ true) × (b ≡ true) × (e' ≡ e))
          ⊎ ((parent : Head) × ((reader.read (walk_request candidate cursor) e.tick).0 ≡ ok parent)
              × (0 < cursor.number)
              × (is_parent parent cursor ≡ true)
              × (find_common reader depth on_divergence current candidate ancestors left parent
                    (after_read (walk_request candidate cursor) e)
                  ≡ (ok b, e')))
    unfolding find_common read_block
    find_common-step ancestors left cursor b e e' h = ground arith

    find_common-last :
        (ancestors : Ancestors) (cursor : Head) (b : Bool) (e e' : Env S)
        → find_common reader depth on_divergence current candidate ancestors zero cursor e
          ≡ (ok b, e')
        → (is_ancestor ancestors cursor ≡ true) × (b ≡ true) × (e' ≡ e)
    unfolding find_common
    find_common-last ancestors cursor b e e' h = ground arith

    pub find_common-Meets :
        (ancestors : Ancestors) (left : ℕ) (cursor : Head) (b : Bool) (e e' : Env S)
        → All Known ancestors
        → Linked candidate cursor
        → find_common reader depth on_divergence current candidate ancestors left cursor e
          ≡ (ok b, e')
        → Meets candidate current × (b ≡ true) × (e'.reported ≡ e.reported)
    find_common-Meets ancestors zero cursor b e e' k l h =
        let (hit, answer, kept) = find_common-last ancestors cursor b e e' h in
        (is_ancestor-Meets ancestors cursor k l hit, answer, rw kept)
    find_common-Meets ancestors (suc left) cursor b e e' k l h =
        elim (find_common-step ancestors left cursor b e e' h) [
          | inl (hit, answer, kept) ↦ (is_ancestor-Meets ancestors cursor k l hit, answer, rw kept)
          | inr (parent, reply, deep, linked, rest) ↦
              find_common-Meets ancestors left parent b
                (after_read (walk_request candidate cursor) e) e' k
                (parent-Linked candidate cursor parent e l (inl reply) deep linked) rest
        ]
