-- ===== src/Lib.antt =====
-- The core of the page that runs a Linux machine in a browser: the two protocols on the machine's
-- serial lines, the calls of the page that come over one of them, the bridge between LANs, the windows
-- of a desktop, the mirror of the machine's files and the mount of a folder, and the sharing of a
-- browser's devices between documents.
--
-- The control link of web/app/rpc.ts has two layers. `FrameParser` cuts the bytes of a noisy line into
-- data and ack frames, which `buildDataFrame` and `buildAckFrame` write: Wire.antt (the field reader),
-- Rpc/Frame.antt (constants and writers), Rpc/Fifo.antt (`ByteFifo`, its buffer) and Rpc/Parser.antt
-- (the reader, one function per method, on the contents of that buffer), with proofs in Rpc/Parser/.
-- `RpcLink` is the session above it, a stop-and-wait sender with timers, calls to the guest and
-- requests served for it: Rpc/Json.antt (the JSON values it builds and reads),
-- Rpc/Link/State.antt (its fields), Sender.antt (pump, enqueue, onAckTimeout, failSession, linkLost),
-- Session.antt (attach, detach, hello, call, notify), Receive.antt (onFrame, onBody, onResponse,
-- onRequest, runServe), and Events.antt (everything that may happen to a link, as steps). `onFrame`
-- of the link is called with each frame that its parser delivers.
-- `StreamMux` of web/app/stream-mux.ts carries the bytes of numbered channels within the windows the
-- guest granted: Mux.antt (open, close, credit, send, pump) and Mux/Receive.antt (onByte, onBytes,
-- drain), with proofs in Mux/.
--
-- `RoomBridgeImpl` of web/app/net-bridge.ts joins the LAN of this browser to others': Bridge.antt (its
-- fields), Bridge/Switch.antt (frames of the LAN and of the peers: macAt, sendTo, flood, and the
-- handlers in attachPeerLan and openLan), Control.antt (updateRoster, dropPeer, fanoutChat, say, and
-- the handlers of the control channels), Life.antt (accept, startHost, memberOffer, fail, close,
-- teardown, stop) and Events.antt (what happens to a host and to a member, as steps).
-- `WindowManager` of web/app/window-manager.ts keeps the windows of a desktop: Windows.antt (its
-- table), Windows/Stacking.antt (zOf, raise and the renumbering), Table.antt (list, create,
-- openStream, place, close, focus and the others) and Session.antt (deeds on a desktop, as steps).
-- web/app/share-diff.ts decides what is mirrored of the machine's files: Share.antt (which names and
-- paths), Share/Walk.antt (walkListing) and Share/Diff.antt (diffSnapshot).
-- web/app/origin-broker.ts arbitrates the devices of a browser between the documents of an origin:
-- Broker.antt (withOriginLock, acquireOriginHold, makeRelease) and Broker/Events.antt (what the
-- documents do, as steps).
-- web/app/host-mount.ts keeps a folder of the person's disk and one of the machine like each other:
-- Mount.antt (its state, which paths are carried), Mount/Scan.antt (scanHost, scanGuest),
-- Mount/Host.antt (hostSweep) and Mount/Guest.antt (guestSweep, and a turn of the loop).
-- web/app/hostcall.ts serves what the machine calls of the page: Hostcall.antt (its errors and
-- limits), Hostcall/Refs.antt (refPath, readRef, writeRef, safeId), Fetch.antt (hostFetch), Reply.antt
-- (http.fetch), Console.antt (openSink, closeSink), Script.antt (runJs, debug.js), Devices.antt (the
-- methods that hand on to a device, the person or the bridge) and Calls.antt (the window.* methods,
-- which work on the table of Windows.antt).
-- Prelude.antt and its modules hold the names, lists, texts, decimal numbers and association lists
-- that the components share. Examples.antt and its modules hold concrete runs.
--
-- State is a record, and an operation a function from state to state. What a component does outside
-- itself is a value: a link's log, newest first, and in the others a list of outputs in their order.
-- A timer is a flag: it may fire at any time while it is armed. Asynchronous handlers are events, so
-- every interleaving of them is a list of events; a call that waits for the browser is an operation
-- before the wait and one after it. A callback of the owner that calls a component again before it
-- returns is such an event after the step. Callbacks do not throw, nor does the log line of
-- `sessionUp`, which joins the `methods` of the guest's reply.
-- The loops of the two frame readers run on the length of the buffer and one more, as each round
-- drops a byte; the loop that sends on a channel runs on the number of chunks and bytes
-- queued and one more. The walk of the machine's files runs on the eight levels that it may enter,
-- the two walks of a mount on the levels that they are given.
-- Numbers are natural numbers; a JSON number that is not one is told apart where the code tests it.
-- The windows and credits of `StreamMux` are whole numbers, which its code does not ask for.
-- The text codec, JSON, the methods served and the prose of errors are parameters (`Utf8` and
-- `Platform`); of them the proofs use only that text that was encoded decodes to itself. So are the
-- listing of a directory, whether a native window is open, SHA-256, and of the page's services the
-- files behind `RefIo` and what the browser does (`Web`), whose promises are named hypotheses where a
-- proof uses them (`IsRefIo`, `IsWeb`). A JavaScript Map is an association
-- list in the order of insertion, and the language's stable sort is an insertion sort.
--
-- Not modelled: log lines and error prose, the getters `stats`, `inlineMax` and `has`, subscribing
-- a callback; of the bridge its relays, ICE settings, the codes of an invitation by hand and the wait
-- for the lock of the origin; a browser without Web Locks; of a mount the handle that IndexedDB keeps
-- and the timer of its loop; of the calls of the page how what the
-- desktop gives is put into a result, and what a script does to the console itself; the rest of the page, and the programs in
-- other languages.
pub mod Prelude
pub mod Wire
pub mod Rpc
pub mod Mux
pub mod Bridge
pub mod Windows
pub mod Share
pub mod Mount
pub mod Hostcall
pub mod Broker
pub mod Examples
