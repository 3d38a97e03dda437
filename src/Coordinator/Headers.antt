-- ===== src/Coordinator/Headers.antt =====
-- `consider` of internal/coordinator/coordinator.go: what may follow an accepted head, and what the
-- store's calls do to it.
use rpc_proxy.Prelude.{
  ℕ, ◌+◌, ◌<◌, ◌≡◌, ◌⊎◌, refl, ◌∙◌, true, some, Text, text_eq_iff, text_eq_refl, equal_fold, u64,
  arith,
}
use rpc_proxy.Head.{Head, latest}
use rpc_proxy.Store.Defs.{MemoryStore, publish, refresh, install}
use rpc_proxy.Chain.Links.{Linked, here, up, Descends}

-- Two headers with the same links.
abbrev pub SameHeader : Head → Head → Type 0
SameHeader a b = (a.hash ≡ b.hash) × (a.parent_hash ≡ b.parent_hash) × (a.number ≡ b.number)

pub Linked-same :
    (h h' p : Head) → SameHeader h' h → Linked h p → (q : Head) × Linked h' q × SameHeader q p
Linked-same h h' p same here = (h', here, same)
Linked-same h h' p same (up {c = c} l linked below) =
    let (q, l', (hash, parent, number)) = Linked-same h h' c same l in
    (p, up l' (rw parent linked) (rw number below), (refl, refl, refl))

pub Descends-same : (h h' a : Head) → SameHeader h' h → Descends h a → Descends h' a
Descends-same h h' a same (p, l, (hashed, level)) =
    let (q, l', (hash, parent, number)) = Linked-same h h' p same l in
    (q, l', (rw hash hashed, number ∙ level))

-- What a later accepted head may be to an earlier one: the same block, a descendant, a head of a
-- later epoch, or a head after an epoch that was still open.
abbrev pub Follows : Head → Head → Type 0
Follows old new =
    (equal_fold new.hash old.hash ≡ true)
    ⊎ Descends new old
    ⊎ (old.reorg_epoch < new.reorg_epoch)
    ⊎ (old.reorg_pending ≡ true)

abbrev pub fenced : Head → Head
fenced old = record old { reorg_epoch = u64 (old.reorg_epoch + 1); reorg_pending = true }

-- A publication that succeeds installs the head's header and epoch.
pub publish-latest :
    (s : MemoryStore) (token : Text) (h : Head) (now : ℕ) (chain : Text)
    → h.chain ≡ chain
    → h.commitment ≡ latest
    → ((publish s token h now).1.heads chain latest ≡ s.heads chain latest)
      ⊎ ((p : Head) × ((publish s token h now).1.heads chain latest ≡ some p)
          × SameHeader p h
          × (p.reorg_epoch ≡ h.reorg_epoch))
unfolding publish refresh install
publish-latest s token h now chain c k =
    ground (arith, text_eq_iff h.chain chain, text_eq_refl chain, text_eq_refl latest)
