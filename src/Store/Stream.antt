-- ===== src/Store/Stream.antt =====
-- `MemoryStore`: the stream of accepted heads and the cursors of its readers.
use rpc_proxy.Prelude.{
  ℕ, ◌+◌, ◌^◌, ◌≤◌, ◌<◌, ◌≡◌, ◌⊎◌, inl, inr, refl, ap, false, List, [], ◌∷◌, ◌++◌, arith,
  Bool-cases, Text, text_eq, text_eq_iff, text_eq_refl, text_eq_sound, u64, length,
}
use rpc_proxy.Head.{Head}
use rpc_proxy.Store.Runs.{Op, acquiring, renewing, releasing, publishing, fencing, apply, run}
use rpc_proxy.Store.Defs.{
  MemoryStore, Event, acquire, renew, release, publish, begin_reorg, refresh, install,
  is_evm_latest, event_id,
}

-- The events carry IDs of growing generations above `lo` and up to `hi`.
abbrev pub Rising : ℕ → List Event → ℕ → Type 0
Rising lo [] hi = lo ≤ hi
Rising lo (e ∷ events) hi =
    (lo < e.head.generation)
    × (e.id ≡ event_id e.head.generation)
    × Rising e.head.generation events hi

Rising-mono :
    (lo : ℕ) (events : List Event) (hi hi' : ℕ)
    → hi ≤ hi'
    → Rising lo events hi
    → Rising lo events hi'
Rising-mono lo [] hi hi' m h = omega arith
Rising-mono lo (e ∷ events) hi hi' m (a, b, c) =
    (a, b, Rising-mono e.head.generation events hi hi' m c)

Rising-append :
    (lo : ℕ) (events : List Event) (hi hi' : ℕ) (e : Event)
    → hi < hi'
    → e.head.generation ≡ hi'
    → e.id ≡ event_id hi'
    → Rising lo events hi
    → Rising lo (events ++ e ∷ []) hi'
Rising-append lo [] hi hi' e m g i h = (omega arith, rw g i, omega arith)
Rising-append lo (f ∷ events) hi hi' e m g i (a, b, c) =
    (a, b, Rising-append f.head.generation events hi hi' e m g i c)

pub Rising-le : (lo : ℕ) (events : List Event) (hi : ℕ) → Rising lo events hi → lo ≤ hi
Rising-le lo [] hi h = h
Rising-le lo (e ∷ events) hi (a, b, c) = omega (arith, Rising-le e.head.generation events hi c)

abbrev pub IsOrdered : MemoryStore → Text → Type 0
IsOrdered s chain = Rising 0 (s.events chain) (s.gen chain)

install_here :
    (s : MemoryStore) (h : Head)
    → s.gen h.chain + 1 < 2 ^ 64
    → IsOrdered s h.chain
    → IsOrdered (install s h).1 h.chain
unfolding install
install_here s h b r = elim (Bool-cases (is_evm_latest h)) [
  | inl streamed ↦
      rw (text_eq_refl h.chain, streamed, text_eq_refl h.chain)
        (Rising-append 0 (s.events h.chain) (s.gen h.chain) (u64 (s.gen h.chain + 1)) _
          (omega arith) refl refl r)
  | inr other ↦
      rw (text_eq_refl h.chain, other)
        (Rising-mono 0 (s.events h.chain) (s.gen h.chain) (u64 (s.gen h.chain + 1)) (omega arith) r)
]

install_elsewhere :
    (s : MemoryStore) (h : Head) (chain : Text)
    → text_eq chain h.chain ≡ false
    → ((install s h).1.events chain ≡ s.events chain) × ((install s h).1.gen chain ≡ s.gen chain)
unfolding install
install_elsewhere s h chain ne = ground arith

install-gen :
    (s : MemoryStore) (h : Head) (chain : Text)
    → s.gen chain + 1 < 2 ^ 64
    → ((install s h).1.gen chain ≤ s.gen chain + 1)
unfolding install
install-gen s h chain b = ground (arith, text_eq_iff chain h.chain)

IsOrdered-of_eq :
    (s t : MemoryStore) (chain : Text)
    → t.events chain ≡ s.events chain
    → t.gen chain ≡ s.gen chain
    → IsOrdered s chain
    → IsOrdered t chain
IsOrdered-of_eq s t chain e g r = rw (e, g) r

install-IsOrdered :
    (s : MemoryStore) (h : Head) (chain : Text)
    → s.gen chain + 1 < 2 ^ 64
    → IsOrdered s chain
    → IsOrdered (install s h).1 chain
install-IsOrdered s h chain b r = elim (Bool-cases (text_eq chain h.chain)) [
  | inl here ↦
      let same = text_eq_sound chain h.chain here in
      rw same (install_here s h (rw same at b) (rw same at r))
  | inr elsewhere ↦
      let (e, g) = install_elsewhere s h chain elsewhere in
      IsOrdered-of_eq s (install s h).1 chain e g r
]

-- A publication leaves the stream alone, or installs the head.
publish-cases :
    (s : MemoryStore) (t : Text) (h : Head) (now : ℕ)
    → (((publish s t h now).1.events ≡ s.events) × ((publish s t h now).1.gen ≡ s.gen))
      ⊎ ((publish s t h now).1 ≡ (install s h).1)
unfolding publish refresh
publish-cases s t h now = ground arith

publish-IsOrdered :
    (s : MemoryStore) (t : Text) (h : Head) (now : ℕ) (chain : Text)
    → s.gen chain + 1 < 2 ^ 64
    → IsOrdered s chain
    → IsOrdered (publish s t h now).1 chain × ((publish s t h now).1.gen chain ≤ s.gen chain + 1)
publish-IsOrdered s t h now chain b r = elim (publish-cases s t h now) [
  | inl (e, g) ↦ (
    IsOrdered-of_eq s (publish s t h now).1 chain (ap (λ (f : Text → List Event). f chain) e)
        (ap (λ (f : Text → ℕ). f chain) g) r,
    rw g (omega arith),
  )
  | inr e ↦ rw e (install-IsOrdered s h chain b r, install-gen s h chain b)
]

quiet-IsOrdered :
    (s t : MemoryStore) (chain : Text)
    → t.events ≡ s.events
    → s.gen chain ≤ t.gen chain
    → IsOrdered s chain
    → IsOrdered t chain
quiet-IsOrdered s t chain e g r =
    rw e (Rising-mono 0 (s.events chain) (s.gen chain) (t.gen chain) g r)

acquire_quiet :
    (s : MemoryStore) (c owner : Text) (ttl now now' : ℕ) (chain : Text)
    → s.gen chain + 1 < 2 ^ 64
    → let t = (acquire s c owner ttl now now').0 in
      (t.events ≡ s.events) × (s.gen chain ≤ t.gen chain) × (t.gen chain ≤ s.gen chain + 1)
unfolding acquire
acquire_quiet s c owner ttl now now' chain b = ground (arith, text_eq_iff chain c)

renew_quiet :
    (s : MemoryStore) (c t : Text) (ttl now now' : ℕ)
    → ((renew s c t ttl now now').0.events ≡ s.events) × ((renew s c t ttl now now').0.gen ≡ s.gen)
unfolding renew
renew_quiet s c t ttl now now' = ground arith

release_quiet :
    (s : MemoryStore) (c t : Text)
    → ((release s c t).events ≡ s.events) × ((release s c t).gen ≡ s.gen)
unfolding release
release_quiet s c t = ground arith

begin_reorg_quiet :
    (s : MemoryStore) (c t : Text) (now : ℕ)
    → ((begin_reorg s c t now).1.events ≡ s.events) × ((begin_reorg s c t now).1.gen ≡ s.gen)
unfolding begin_reorg
begin_reorg_quiet s c t now = ground arith

still-IsOrdered :
    (s t : MemoryStore) (chain : Text)
    → (t.events ≡ s.events) × (t.gen ≡ s.gen)
    → IsOrdered s chain
    → IsOrdered t chain × (t.gen chain ≤ s.gen chain + 1)
still-IsOrdered s t chain (e, g) r =
    (quiet-IsOrdered s t chain e (rw g (omega arith)) r, rw g (omega arith))

apply-IsOrdered :
    (s : MemoryStore) (op : Op) (chain : Text)
    → s.gen chain + 1 < 2 ^ 64
    → IsOrdered s chain
    → IsOrdered (apply op s) chain × ((apply op s).gen chain ≤ s.gen chain + 1)
unfolding apply
apply-IsOrdered s (acquiring c owner ttl now now') chain b r =
    let t = (acquire s c owner ttl now now').0 in
    let (e, g, l) = acquire_quiet s c owner ttl now now' chain b in
    (quiet-IsOrdered s t chain e g r, l)
apply-IsOrdered s (renewing c t ttl now now') chain b r =
    still-IsOrdered s (renew s c t ttl now now').0 chain (renew_quiet s c t ttl now now') r
apply-IsOrdered s (releasing c t) chain b r =
    still-IsOrdered s (release s c t) chain (release_quiet s c t) r
apply-IsOrdered s (publishing t h now) chain b r = publish-IsOrdered s t h now chain b r
apply-IsOrdered s (fencing c t now) chain b r =
    still-IsOrdered s (begin_reorg s c t now).1 chain (begin_reorg_quiet s c t now) r

-- Operations keep the stream ordered while fewer than 2 ^ 64 generations are drawn: event IDs carry
-- strictly growing generations, none above the chain's counter.
pub run-IsOrdered :
    (ops : List Op) (s : MemoryStore) (chain : Text)
    → s.gen chain + length ops < 2 ^ 64
    → IsOrdered s chain
    → IsOrdered (run ops s) chain × ((run ops s).gen chain ≤ s.gen chain + length ops)
unfolding run
run-IsOrdered [] s chain b r = (r, omega arith)
run-IsOrdered (op ∷ ops) s chain b r =
    let (kept, grown) = apply-IsOrdered s op chain (omega arith) r in
    let (done, bounded) = run-IsOrdered ops (apply op s) chain (omega arith) kept in
    (done, omega arith)
