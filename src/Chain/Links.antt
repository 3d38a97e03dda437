-- ===== src/Chain/Links.antt =====
-- Parent links: what proves that one block is an ancestor of another.
use rpc_proxy.Prelude.{◌+◌, ◌≤◌, ◌≡◌, true, equal_fold, arith}
use rpc_proxy.Head.{Head}

-- `p` is reached from `h` by parent hashes, and each header is one block lower than its child.
pub data Linked (h : Head) : Head → Type 0 where
  here : Linked h h
  up :
      {c p : Head}
      → Linked h c
      → equal_fold p.hash c.parent_hash ≡ true
      → p.number + 1 ≡ c.number
      → Linked h p

pub Linked-le : {h a : Head} → Linked h a → a.number ≤ h.number
Linked-le here = omega arith
Linked-le (up l same below) = omega (arith, Linked-le l)

-- Two headers of one block.
abbrev pub SameBlock : Head → Head → Type 0
SameBlock a b = (equal_fold a.hash b.hash ≡ true) × (a.number ≡ b.number)

-- `h` descends from `a`: its parent links lead to a header of the block `a`.
abbrev pub Descends : Head → Head → Type 0
Descends h a = (p : Head) × Linked h p × SameBlock p a

-- The two chains have a common block.
abbrev pub Meets : Head → Head → Type 0
Meets h g = (p : Head) × (q : Head) × Linked h p × Linked g q × SameBlock p q
