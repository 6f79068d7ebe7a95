-- ===== src/P2p.antt =====
-- modules/networking/p2p.go: the node's libp2p host, its gossip topic and its HTTP server. libp2p is
-- not part of this code: the results of its calls are arguments.
pub mod Startup
pub mod Requests
use node_decent_system.Prelude.{
  ℕ, zero, suc, ◌+◌, ◌≡◌, refl, Bool, true, false, not, Option, none, some, List, [], ◌∷◌, ◌++◌,
  Result, ok, err, if◌then◌else◌, ltb, ◌==◌, length, Bytes, Error, lit, decimal, str_eq,
}
use node_decent_system.Chan.{Chan}
use node_decent_system.Chan.Line.{Line, make_line, send}
use node_decent_system.Block.{Block}

-- The types of libp2p, and what its objects tell.
pub record LibP2p : Type 1 where
  pub Host : Type 0
  pub PubSub : Type 0
  pub Topic : Type 0
  pub Subscription : Type 0
  pub id : Host → Bytes
  pub addrs : Host → List Bytes

-- What the calls of one `Init` return.
pub record Network (lib : LibP2p) : Type 0 where
  pub new_host : ℕ → Result Error lib.Host
  pub new_gossip_sub : lib.Host → Result Error lib.PubSub
  pub join : lib.PubSub → Bytes → Result Error lib.Topic
  pub subscribe : lib.Topic → Result Error lib.Subscription

-- `server` is the address that the HTTP server listens on. `tx_processed` is the global counter
-- `TxProcessedTotal`. The channels have the senders that wait for room.
pub record P2pNode (lib : LibP2p) (Tx : Type 0) : Type 0 where
  pub port : ℕ
  pub peers : List Bytes
  pub host : Option lib.Host
  pub pubsub : Option lib.PubSub
  pub topic : Option lib.Topic
  pub sub : Option lib.Subscription
  pub server : Option Bytes
  pub block_chan : Line (Block Tx)
  pub tx_chan : Line Tx
  pub tx_processed : ℕ

-- What `Init` and `Start` leave: the node, whether a goroutine of `listenGossip` was started, and
-- the error.
pub record Started (lib : LibP2p) (Tx : Type 0) : Type 0 where
  pub node : P2pNode lib Tx
  pub listens : Bool
  pub error : Option Error

-- The calls that `Stop` makes on what is there, in order.
pub data Closing : Type 0 where
  cancel_sub close_host shutdown_server : Closing

pub record Request : Type 0 where
  pub is_post : Bool
  pub body : Bytes

-- The status and text of an answer; `waits` says that the handler waits for room in the channel
-- before it answers. The newline that `http.Error` adds to its text is left out.
pub record Response : Type 0 where
  pub status : ℕ
  pub text : Bytes
  pub waits : Bool

pub record GossipMessage : Type 0 where
  pub received_from : Bytes
  pub payload : Bytes

unfoldable pub service_name : Bytes
service_name = lit "Networking-LibP2P"

unfoldable pub dependencies : List Bytes
dependencies = lit "Storage-Backend" ∷ []

unfoldable pub topic_name : Bytes
topic_name = lit "sovereign-blocks"

closing : Closing → Bool → List Closing
closing c true = c ∷ []
closing c false = []

abbrev pub is_some : {A : Type 0} → Option A → Bool
is_some none = false
is_some (some a) = true

waits_on : {A : Type 0} → Line A → Bool
waits_on l = not (ltb (length l.chan.items) l.chan.cap)

refuses : ℕ → Bytes → Response
refuses status text = record { status = status; text = text; waits = false }

accepts : Bool → Response
accepts waits = record { status = 202; text = []; waits = waits }

module _ (lib : LibP2p) where
  healthy : Option lib.Host → Bool
  healthy none = false
  healthy (some h) = not (length (lib.addrs h) == 0)

  abbrev pub peer_id : Option lib.Host → Bytes
  peer_id none = lit "unknown"
  peer_id (some h) = lib.id h

  published : Option lib.Topic → Option Bytes → Option (lib.Topic × Bytes)
  published (some t) (some d) = some (t, d)
  published t d = none

module _ (lib : LibP2p) {Tx : Type 0} where
  unfoldable pub new_p2p_node : ℕ → List Bytes → P2pNode lib Tx
  new_p2p_node port peers = record {
    port = port;
    peers = peers;
    host = none;
    pubsub = none;
    topic = none;
    sub = none;
    server = none;
    block_chan = make_line 100;
    tx_chan = make_line 1000;
    tx_processed = 0;
  }

  unfoldable pub fails : P2pNode lib Tx → Bytes → Error → Started lib Tx
  fails p context e = record { node = p; listens = false; error = some (context ++ e) }

  -- The rest of `Init` after each of its calls.
  unfoldable pub after_subscribe : P2pNode lib Tx → Result Error lib.Subscription → Started lib Tx
  unfolding fails
  after_subscribe p (err e) = fails p (lit "failed to subscribe to topic: ") e
  after_subscribe p (ok s) = record {
    node = record p { sub = some s };
    listens = true;
    error = none;
  }

  unfoldable pub after_join : Network lib → P2pNode lib Tx → Result Error lib.Topic → Started lib Tx
  unfolding fails after_subscribe
  after_join net p (err e) = fails p (lit "failed to join gossip topic: ") e
  after_join net p (ok t) = after_subscribe (record p { topic = some t }) (net.subscribe t)

  unfoldable pub after_gossip_sub :
      Network lib → P2pNode lib Tx → Result Error lib.PubSub → Started lib Tx
  unfolding fails after_join
  after_gossip_sub net p (err e) = fails p (lit "failed to create GossipSub: ") e
  after_gossip_sub net p (ok ps) =
      after_join net (record p { pubsub = some ps }) (net.join ps topic_name)

  unfoldable pub after_host : Network lib → P2pNode lib Tx → Result Error lib.Host → Started lib Tx
  unfolding fails after_gossip_sub
  after_host net p (err e) = fails p (lit "failed to create libp2p host: ") e
  after_host net p (ok h) = after_gossip_sub net (record p { host = some h }) (net.new_gossip_sub h)

  unfoldable pub init_at : Network lib → P2pNode lib Tx → Option lib.Host → Started lib Tx
  unfolding after_host
  init_at net p (some h) = record { node = p; listens = false; error = none }
  init_at net p none = after_host net p (net.new_host (p.port + 1000))

  unfoldable pub init : Network lib → P2pNode lib Tx → Started lib Tx
  unfolding init_at
  init net p = init_at net p p.host

  serve : Started lib Tx → Started lib Tx
  serve s = elim s.error [
    | some e ↦ record s { error = some (lit "auto-init failed in Start: " ++ e) }
    | none ↦ record s { node = record s.node { server = some (lit ":" ++ decimal s.node.port) } }
  ]

  -- `Start`; the server's handlers are below.
  unfoldable pub start : Network lib → P2pNode lib Tx → Started lib Tx
  unfolding serve
  start net p = serve (init net p)

  -- `Stop`: its calls, and what it returns where `shutdown` is the result of the server's shutdown.
  -- Every field stays as it is.
  unfoldable pub stop : P2pNode lib Tx → Option Error → List Closing × Option Error
  unfolding closing
  stop p shutdown = (
    closing cancel_sub (is_some p.sub)
        ++ (closing close_host (is_some p.host) ++ closing shutdown_server (is_some p.server)),
    if is_some p.server then shutdown else none,
  )

  unfoldable pub health : P2pNode lib Tx → Option Error
  unfolding healthy
  health p = if healthy lib p.host then none else some (lit "libp2p host unhealthy")

  -- The answer to "/ping"
  unfoldable pub ping : P2pNode lib Tx → Bytes
  ping p = lit "pong [peer_id: " ++ (peer_id lib p.host ++ lit "]")

  take_tx : P2pNode lib Tx → Option Tx → P2pNode lib Tx × Response
  unfolding refuses accepts waits_on
  take_tx p none = (p, refuses 400 (lit "Invalid transaction payload"))
  take_tx p (some tx) = (
    record p { tx_processed = p.tx_processed + 1; tx_chan = send p.tx_chan tx },
    accepts (waits_on p.tx_chan),
  )

  unfoldable pub handle_tx :
      (Bytes → Option Tx) → P2pNode lib Tx → Request → P2pNode lib Tx × Response
  unfolding take_tx refuses
  handle_tx decode p r =
      if not r.is_post
      then (p, refuses 405 (lit "Method not allowed"))
      else take_tx p (decode r.body)

  take_block : P2pNode lib Tx → Option (Block Tx) → P2pNode lib Tx × Response
  unfolding refuses accepts waits_on
  take_block p none = (p, refuses 400 (lit "Invalid block payload"))
  take_block p (some b) =
      (record p { block_chan = send p.block_chan b }, accepts (waits_on p.block_chan))

  unfoldable pub handle_block :
      (Bytes → Option (Block Tx)) → P2pNode lib Tx → Request → P2pNode lib Tx × Response
  unfolding take_block refuses
  handle_block decode p r =
      if not r.is_post
      then (p, refuses 405 (lit "Method not allowed"))
      else take_block p (decode r.body)

  hear_block : P2pNode lib Tx → Option (Block Tx) → P2pNode lib Tx
  hear_block p none = p
  hear_block p (some b) = record p { block_chan = send p.block_chan b }

  -- One round of `listenGossip`: whether the loop goes on, and the node. The node's own messages are
  -- passed over.
  unfoldable pub listen_gossip :
      (Bytes → Option (Block Tx))
      → P2pNode lib Tx
      → Result Error GossipMessage
      → Bool × P2pNode lib Tx
  unfolding hear_block
  listen_gossip decode p (err e) = (false, p)
  listen_gossip decode p (ok m) =
      if str_eq m.received_from (peer_id lib p.host)
      then (true, p)
      else (true, hear_block p (decode m.payload))

  -- What `BroadcastBlock` hands to the topic; the error of `Publish` is dropped.
  unfoldable pub broadcast_block :
      (Block Tx → Option Bytes) → P2pNode lib Tx → Block Tx → Option (lib.Topic × Bytes)
  unfolding published
  broadcast_block marshal p b = published lib p.topic (marshal b)
