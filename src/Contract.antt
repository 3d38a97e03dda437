-- ===== src/Contract.antt =====
-- internal/head/types.go: what the interface `Store` promises of one chain, whichever store stands
-- behind it. The view forgets what only identifies and describes an accepted head: its generation,
-- the time of its last change, and its header.
use rpc_proxy.Prelude.{
  ◌+◌, ◌≡◌, refl, ◌↔◌, inl, inr, Bool-cases, Option-cases, Bool, true, false, not, ◌&&◌, ◌||◌,
  Option, none, some, List, [], ◌∷◌, ◌==◌, if◌then◌else◌, Text, text_eq, Result, ok, err, update,
  update_self, ap, ◌∙◌, arith,
}
use mathlib.Core.Path.{fun_ext}
use rpc_proxy.Head.{Head, latest, evm, is_zero}
use rpc_proxy.Store.Defs.{StoreError, leadership_lost, reorg_fence, is_evm_latest, epoch_of}

abbrev pub erase : Head → Head
erase h = record h { generation = 0; changed_at = 0; header = [] }

abbrev pub erase_option : Option Head → Option Head
erase_option none = none
erase_option (some h) = some (erase h)

-- The holder of the lease, and the accepted heads by commitment.
pub record Board : Type 0 where
  pub holder : Option Text
  pub heads : Text → Option Head

-- The methods that change a chain, less their times.
pub data Call : Type 0 where
  acquiring : (owner : Text) → Call
  renewing : (token : Text) → Call
  releasing : (token : Text) → Call
  publishing : (token : Text) → Head → Call
  fencing : (token : Text) → Call

pub data Reply : Type 0 where
  granted : (token : Text) → Reply
  refused renewed released : Reply
  answered : Result StoreError Head → Reply

abbrev pub erase_reply : Reply → Reply
erase_reply (answered (ok h)) = answered (ok (erase h))
erase_reply r = r

abbrev pub holds : Option Text → Text → Bool
holds none token = false
holds (some t) token = text_eq t token

-- The head of a fenced chain, where it has one to fence.
unfoldable pub fence_board : Board → Option Head → Reply × Board
fence_board b none = (answered (err reorg_fence), b)
fence_board b (some current) =
    let fenced = record current { reorg_epoch = current.reorg_epoch + 1; reorg_pending = true } in
    if not (text_eq current.family evm) || is_zero current
    then (answered (err reorg_fence), b)
    else if current.reorg_pending
    then (answered (ok current), b)
    else (answered (ok fenced), record b { heads = update b.heads latest (some fenced) })

-- What each method answers and does. `fresh` is the token that an acquisition draws.
unfoldable pub promise : Call → Text → Board → Reply × Board
unfolding fence_board
promise (acquiring owner) fresh b = elim (b.holder) [
  | none ↦ (granted fresh, record b { holder = some fresh })
  | some _ ↦ (refused, b)
]
promise (renewing token) fresh b = if holds b.holder token then (renewed, b) else (refused, b)
promise (releasing token) fresh b =
    if holds b.holder token then (released, record b { holder = none }) else (released, b)
promise (publishing token h) fresh b =
    if not (holds b.holder token)
    then (answered (err leadership_lost), b)
    else if is_evm_latest h
        && (h.reorg_pending || not (h.reorg_epoch == epoch_of (b.heads h.commitment)))
    then (answered (err reorg_fence), b)
    else (
      answered (ok (erase h)),
      record b { heads = update b.heads h.commitment (some (erase h)) },
    )
promise (fencing token) fresh b =
    if not (holds b.holder token)
    then (answered (err leadership_lost), b)
    else fence_board b (b.heads latest)

-- A call that takes effect, with the token it would draw, or the end of a lease.
pub data Step : Type 0 where
  takes : Call → (fresh : Text) → Step
  lapses : Step

unfoldable pub expire : Board → Board
expire b = record b { holder = none }

unfoldable pub step : Step → Board → Board
step (takes c fresh) b = (promise c fresh b).1
step lapses b = expire b

unfoldable pub run_steps : List Step → Board → Board
run_steps [] b = b
run_steps (s ∷ steps) b = run_steps steps (step s b)

erase-if :
    (b : Bool) (o : Option Head) (h : Head)
    → erase_option (if b then some h else o) ≡ (if b then some (erase h) else erase_option o)
erase-if true o h = refl
erase-if false o h = refl

-- Erasing commutes with a write.
erase_option-update :
    (f : Text → Option Head) (k : Text) (h : Head)
    → (λ c. erase_option (update f k (some h) c))
      ≡ update (λ c. erase_option (f c)) k (some (erase h))
erase_option-update f k h = fun_ext λ c. erase-if (text_eq c k) (f c) h

-- A head that is written under a chain and a commitment shows as such.
pub erased-put :
    (f g : Text → Text → Option Head) (chain commitment : Text) (h : Head)
    → g ≡ update f chain (update (f chain) commitment (some h))
    → (λ c. erase_option (g chain c))
      ≡ update (λ c. erase_option (f chain c)) commitment (some (erase h))
erased-put f g chain commitment h put =
    let written = update (f chain) commitment (some h) in
    let read : g chain ≡ written =
      ap {B = Text → Option Head} (λ g. g chain) put ∙ update_self f chain written in
    let erased : (Text → Option Head) → Text → Option Head = λ f c. erase_option (f c) in
    ap erased read ∙ erase_option-update (f chain) commitment h

-- A stored head is not the zero value.
abbrev pub IsReal : Option Head → Type 0
IsReal none = Unit {0}
IsReal (some h) = is_zero h ≡ false

pub IsReal-erase : (o : Option Head) → IsReal (erase_option o) ↔ IsReal o
unfolding is_zero
IsReal-erase none = (λ r. r, λ r. r)
IsReal-erase (some h) = (λ r. r, λ r. r)

update-IsReal :
    (f : Text → Option Head) (k : Text) (h : Head)
    → IsReal (f latest)
    → is_zero h ≡ false
    → IsReal (update f k (some h) latest)
update-IsReal f k h r z = if-IsReal (text_eq latest k)
  where
    if-IsReal : (b : Bool) → IsReal (if b then some h else f latest)
    if-IsReal true = z
    if-IsReal false = r

fence_board-IsReal :
    (b : Board) (o : Option Head)
    → IsReal o
    → IsReal (b.heads latest)
    → IsReal ((fence_board b o).1.heads latest)
unfolding fence_board
fence_board-IsReal b none q r = r
fence_board-IsReal b (some current) q r =
    elim (Bool-cases (not (text_eq current.family evm) || is_zero current)) [
      | inl refused' ↦ rw refused' r
      | inr fit ↦ elim (Bool-cases current.reorg_pending) [
        | inl pending ↦ rw (fit, pending) r
        | inr quiet ↦
            let fenced = record current {
              reorg_epoch = current.reorg_epoch + 1;
              reorg_pending = true;
            } in
            rw (fit, quiet) (update-IsReal b.heads latest fenced r (unfold is_zero in q))
      ]
    ]

-- A call publishes no zero value.
abbrev pub IsProper : Call → Type 0
IsProper (publishing token h) = is_zero h ≡ false
IsProper _ = Unit {0}

-- The promises keep the `latest` head real.
pub promise-IsReal :
    (c : Call) (fresh : Text) (b : Board)
    → IsReal (b.heads latest)
    → IsProper c
    → IsReal ((promise c fresh b).1.heads latest)
unfolding promise
promise-IsReal (acquiring owner) fresh b r p = elim (Option-cases b.holder) [
  | inl free ↦ rw (free, promise) r
  | inr (t, held) ↦ rw (held, promise) r
]
promise-IsReal (renewing token) fresh b r p = elim (Bool-cases (holds b.holder token)) [
  | inl mine ↦ rw mine r
  | inr other ↦ rw other r
]
promise-IsReal (releasing token) fresh b r p = elim (Bool-cases (holds b.holder token)) [
  | inl mine ↦ rw mine r
  | inr other ↦ rw other r
]
promise-IsReal (publishing token h) fresh b r p = elim (Bool-cases (holds b.holder token)) [
  | inr other ↦ rw other r
  | inl mine ↦
      elim (Bool-cases (
        is_evm_latest h
        && (h.reorg_pending || not (h.reorg_epoch == epoch_of (b.heads h.commitment))))) [
          | inl blocked ↦ rw (mine, blocked) r
          | inr clear ↦
              rw (mine, clear)
                (update-IsReal b.heads h.commitment (erase h) r (unfold is_zero in p))
        ]
]
promise-IsReal (fencing token) fresh b r p = elim (Bool-cases (holds b.holder token)) [
  | inr other ↦ rw other r
  | inl mine ↦ rw mine (fence_board-IsReal b (b.heads latest) r r)
]

pub promise-busy :
    (owner fresh t : Text) (b : Board)
    → b.holder ≡ some t
    → promise (acquiring owner) fresh b ≡ (refused, b)
unfolding promise
promise-busy owner fresh t b h = ground arith
