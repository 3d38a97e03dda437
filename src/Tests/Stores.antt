-- ===== src/Tests/Stores.antt =====
-- The in-memory store's theorems: a lease that expires and is taken over, and a stream of three events.
use rpc_proxy.Prelude.{
  ℕ, ◌+◌, ◌^◌, ◌≤◌, ◌<◌, ◌≡◌, ◌≢◌, ◌↔◌, refl, Bool, true, false, List, [], ◌∷◌, ◌++◌, replicate,
  length, number_after, Text, codes, is_ok, ok, err, arith,
}
use rpc_proxy.Head.{Head}
use rpc_proxy.Store.Defs.{
  MemoryStore, Event, StoreError, leadership_lost, acquire, renew, release, publish, begin_reorg,
  event_id, read_events, Ending, timed_out,
}
use rpc_proxy.Store.Runs.{Op, renewing, publishing, run}
use rpc_proxy.Store.Fencing.{Holds, Acknowledges, publish-ok_iff, takeover_fences}
use rpc_proxy.Store.Epochs.{epoch, is_pending, no_reorg_between}
use rpc_proxy.Store.Stream.{IsOrdered, run-IsOrdered}
use rpc_proxy.Store.Reads.{first_events, read_events_wakes}
use rpc_proxy.Tests.Fixtures.{chain, block, fork, store, token}

abbrev child : Head
child = block 3 b'5' b'2'

publish-ok_iff_example :
    (is_ok (publish store token child 50).0 ≡ true)
    ↔ (Holds store chain token 50 × Acknowledges store child)
publish-ok_iff_example = publish-ok_iff store token child 50

stranger_refused : (publish store (codes "you:9") child 50).0 ≡ err leadership_lost
unfolding rpc_proxy.Store.Defs.fence_token rpc_proxy.Store.Defs.acquire rpc_proxy.Store.Defs.renew
    rpc_proxy.Store.Defs.release rpc_proxy.Store.Defs.same_identity rpc_proxy.Store.Defs.event_id
    rpc_proxy.Store.Defs.install rpc_proxy.Store.Defs.refresh rpc_proxy.Store.Defs.publish
    rpc_proxy.Store.Defs.fence_head rpc_proxy.Store.Defs.begin_reorg rpc_proxy.Store.Defs.set_head
    rpc_proxy.Store.Defs.snapshot rpc_proxy.Store.Defs.stream_start
    rpc_proxy.Store.Defs.stream_cursor rpc_proxy.Store.Defs.find_cursor
    rpc_proxy.Store.Defs.events_after rpc_proxy.Store.Defs.read_events rpc_proxy.Store.Runs.apply
    rpc_proxy.Store.Runs.run rpc_proxy.Head.identity rpc_proxy.Head.is_zero
    rpc_proxy.Prelude.text_eq rpc_proxy.Prelude.lower rpc_proxy.Prelude.equal_fold
    rpc_proxy.Prelude.decimal_digits rpc_proxy.Prelude.decimal rpc_proxy.Prelude.number_after
stranger_refused = refl

-- The lease has expired, another coordinator takes it over and publishes.
abbrev taken : MemoryStore
taken =
    run (publishing (codes "you:2") child 210 ∷ []) (acquire store chain (codes "you") 50 200 200).0

takeover_fences_example :
    (publish taken token fork 220 ≡ (err leadership_lost, taken))
    × (begin_reorg taken chain token 220 ≡ (err leadership_lost, taken))
    × (renew taken chain token 50 220 220 ≡ (taken, false))
    × (release taken chain token ≡ taken)
unfolding rpc_proxy.Store.Defs.fence_token rpc_proxy.Store.Defs.acquire rpc_proxy.Store.Defs.renew
    rpc_proxy.Store.Defs.release rpc_proxy.Store.Defs.same_identity rpc_proxy.Store.Defs.event_id
    rpc_proxy.Store.Defs.install rpc_proxy.Store.Defs.refresh rpc_proxy.Store.Defs.publish
    rpc_proxy.Store.Defs.fence_head rpc_proxy.Store.Defs.begin_reorg rpc_proxy.Store.Defs.set_head
    rpc_proxy.Store.Defs.snapshot rpc_proxy.Store.Defs.stream_start
    rpc_proxy.Store.Defs.stream_cursor rpc_proxy.Store.Defs.find_cursor
    rpc_proxy.Store.Defs.events_after rpc_proxy.Store.Defs.read_events rpc_proxy.Store.Runs.apply
    rpc_proxy.Store.Runs.run rpc_proxy.Head.identity rpc_proxy.Head.is_zero
    rpc_proxy.Prelude.text_eq rpc_proxy.Prelude.lower rpc_proxy.Prelude.equal_fold
    rpc_proxy.Prelude.decimal_digits rpc_proxy.Prelude.decimal rpc_proxy.Prelude.number_after
takeover_fences_example =
    takeover_fences store chain (codes "you") token 50 200 200
      (publishing (codes "you:2") child 210 ∷ []) fork 220 (omega arith) (λ e. ground arith) refl
      (omega arith) refl

abbrev ops : List Op
ops = publishing token child 50 ∷ renewing chain token 50 60 60 ∷ []

no_reorg_between_example :
    (is_pending (run (publishing token child 50 ∷ []) store) chain ≡ false)
    × (epoch (run (publishing token child 50 ∷ []) store) chain ≡ epoch store chain)
unfolding rpc_proxy.Store.Defs.fence_token rpc_proxy.Store.Defs.acquire rpc_proxy.Store.Defs.renew
    rpc_proxy.Store.Defs.release rpc_proxy.Store.Defs.same_identity rpc_proxy.Store.Defs.event_id
    rpc_proxy.Store.Defs.install rpc_proxy.Store.Defs.refresh rpc_proxy.Store.Defs.publish
    rpc_proxy.Store.Defs.fence_head rpc_proxy.Store.Defs.begin_reorg rpc_proxy.Store.Defs.set_head
    rpc_proxy.Store.Defs.snapshot rpc_proxy.Store.Defs.stream_start
    rpc_proxy.Store.Defs.stream_cursor rpc_proxy.Store.Defs.find_cursor
    rpc_proxy.Store.Defs.events_after rpc_proxy.Store.Defs.read_events rpc_proxy.Store.Runs.apply
    rpc_proxy.Store.Runs.run rpc_proxy.Head.identity rpc_proxy.Head.is_zero
    rpc_proxy.Prelude.text_eq rpc_proxy.Prelude.lower rpc_proxy.Prelude.equal_fold
    rpc_proxy.Prelude.decimal_digits rpc_proxy.Prelude.decimal rpc_proxy.Prelude.number_after
no_reorg_between_example =
    no_reorg_between (publishing token child 50 ∷ []) (renewing chain token 50 60 60 ∷ []) store
      chain (omega arith) ((λ _. refl), (tt, tt)) refl refl

run-IsOrdered_example :
    IsOrdered (run ops store) chain × ((run ops store).gen chain ≤ store.gen chain + 2)
unfolding rpc_proxy.Store.Defs.fence_token rpc_proxy.Store.Defs.acquire rpc_proxy.Store.Defs.renew
    rpc_proxy.Store.Defs.release rpc_proxy.Store.Defs.same_identity rpc_proxy.Store.Defs.event_id
    rpc_proxy.Store.Defs.install rpc_proxy.Store.Defs.refresh rpc_proxy.Store.Defs.publish
    rpc_proxy.Store.Defs.fence_head rpc_proxy.Store.Defs.begin_reorg rpc_proxy.Store.Defs.set_head
    rpc_proxy.Store.Defs.snapshot rpc_proxy.Store.Defs.stream_start
    rpc_proxy.Store.Defs.stream_cursor rpc_proxy.Store.Defs.find_cursor
    rpc_proxy.Store.Defs.events_after rpc_proxy.Store.Defs.read_events rpc_proxy.Store.Runs.apply
    rpc_proxy.Store.Runs.run rpc_proxy.Head.identity rpc_proxy.Head.is_zero
    rpc_proxy.Prelude.text_eq rpc_proxy.Prelude.lower rpc_proxy.Prelude.equal_fold
    rpc_proxy.Prelude.decimal_digits rpc_proxy.Prelude.decimal rpc_proxy.Prelude.number_after
run-IsOrdered_example = run-IsOrdered ops store chain (omega arith) (omega arith)

abbrev event : ℕ → Event
event g = record { id = event_id g; head = record child { generation = g } }

read_events_wakes_example :
    read_events
      (event_id 4)
      0
      (event 3 ∷ event 4 ∷ [])
      (replicate 2 (event 3 ∷ event 4 ∷ []) ++ (event 3 ∷ event 4 ∷ event 6 ∷ []) ∷ [])
      timed_out
    ≡ ok (first_events 0 (event 6 ∷ []))
read_events_wakes_example =
    read_events_wakes 6 0 2 (event 3 ∷ []) (event 4) (event 6) [] [] timed_out (omega arith)
      (omega arith, refl, (omega arith, refl, omega arith))
      (omega arith, refl, (omega arith, refl, (omega arith, refl, omega arith)))
