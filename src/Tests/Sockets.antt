-- ===== src/Tests/Sockets.antt =====
-- The websocket theorems at concrete inputs: a connection that starts at the accepted head and is told
-- of a fork, whose first block the stream did not show, and a subscription.
use rpc_proxy.Prelude.{◌∷◌, [], none, some, false, codes, List, refl}
use rpc_proxy.Head.{Head}
use rpc_proxy.Chain.Defs.{text}
use rpc_proxy.Chain.Reader.{BlockReader, runtime_reader}
use rpc_proxy.Store.Defs.{Event}
use rpc_proxy.Gateway.Process.{id_number}
use rpc_proxy.Websocket.Feed.{Reading, event_loop, start_feed}
use rpc_proxy.Websocket.Gapless.{Gapless}
use rpc_proxy.Websocket.Loop.{event_loop-Gapless}
use rpc_proxy.Websocket.Session.{Message, request, Session, Fresh}
use rpc_proxy.Tests.Fixtures.{chain, accepted, above_fork, world}

abbrev checkpoint : Event
checkpoint = record { id = codes "1-0"; head = accepted }

abbrev readings : List Reading
readings =
    record {
      events = some (record { id = codes "2-0"; head = above_fork } ∷ []);
      snapshot = some (some above_fork);
      now = 9;
    }
    ∷ []

abbrev reader : BlockReader
reader = runtime_reader world chain

event_loop-Gapless_example :
    Gapless accepted (event_loop reader 64 100 readings (start_feed checkpoint) 0).1.sent
unfolding rpc_proxy.Head.is_zero
event_loop-Gapless_example =
    event_loop-Gapless reader 64 100 readings checkpoint 0 refl ((refl, tt), tt)

abbrev session : Session
session = record { subs = codes "0x1" ∷ []; pump = some checkpoint; writes = []; cancelled = false }

abbrev subscription : Message
subscription = request (record {
  version = codes "2.0";
  id = id_number (codes "7");
  method = codes "eth_subscribe";
  params = some (text (codes "newHeads") ∷ []);
})

abbrev fresh : Fresh
fresh = record { start = none; now = 9; id = some (codes "0x2") }
