-- ===== src/Lib.antt =====
-- Verification of lortnoc_tahc, an encrypted messenger that hides its messages in ordinary chat.
--
-- The content script of the Telegram extension encrypts what the user types under a conversation key
-- (shared/keys.mjs), has the codec turn the ciphertext into cover text, and sends that. Two content
-- scripts agree on the key by a handshake in the chat itself: an OFFER frame and an ACK frame
-- (extension/src/content/handshake.ts) carry the two public keys as cover text. session.ts holds the
-- key pair, the key and the replay guard; index.ts decides what a frame and a decoded message do.
--
-- extension-x posts in public: a text is squeezed (shared/squeeze.mjs), encrypted, for named readers in
-- an envelope (shared/envelope.mjs), cut into frames (shared/xframe.mjs), and each frame becomes a cover
-- text with a hashtag. shared/policy.mjs locks a text under a tree of checks whose shares make the key;
-- shared/sealed.mjs is a post that shows nothing of its rules. The gate (gate) keeps the shares of the
-- checks that it attests and gives them to who passes them, members of a space that are not banned,
-- say; a reader proves once what they are to a session of the gate, their keyring.
--
-- Files and code:
--   Base: shared lists, tests and bytes; Base/Base64 is `btoa` and `atob`.
--   Frame: extension/src/content/handshake.ts (`buildFrame`, `parseFrame`, `crc32`).
--   Keys: shared/keys.mjs (`deriveConvKey`, `genKeyPair`, `encrypt`, `tryDecrypt`).
--   Session: extension/src/content/session.ts, every operation; Session/Replay the replay guard,
--     Session/Storage the copy in storage.session, Session/Laws the invariant.
--   Connect: extension/src/content/index.ts (`sendOffer`, `handleFrame`, `establishFromOffer`,
--     `noteTagFailure`, the callback of `startInbound`). Connect/Wire and Connect/Sides are one side
--     of a handshake, Connect/Parties, Handshake, Glare, Restart and Lost the two ends of a chat,
--     Connect/Sound the invariant over any run, Connect/Verdicts the inbound decision.
--   Swap: the `onSwap` callback of extension/src/content/index.ts and the messages of
--     extension/src/shared/messages.ts; Swap/Laws is the way to a cover text, Swap/Quota the free sends.
--   Meter: extension/src/content/metering.ts. AppUrl: `appUrlWithHandle` of
--     extension/src/shared/config.ts.
--   Broker: extension/src/background/index.ts (`codecBase`, `handle`, `reflectState`).
--   Compose: extension/src/content/compose.ts (`installSendInterceptor`, `doSwapAndSend`,
--     `sendCoverText`); Compose/Safety is what reaches Telegram, Compose/Flight and Waits the swap in
--     flight, Compose/Sends one send from the key press on.
--   Inbound: extension/src/content/inbound.ts (`pass` and the loop of `scan`); Inbound/Cache is the
--     cache of verdicts, Inbound/Fossils, FirstSight and Known what counts as history, Inbound/Bounds
--     the number of questions.
--   Unread: app/src/lib/unread.ts (`newestInbound`, `unreadByPeer`, `seedWatermarks`) and the
--     acknowledgement in app/src/ui/Messenger.tsx; Unread/Dict is an object's entries, Unread/Seed one
--     conversation on a new device, Unread/Threads one conversation among others.
--   XFrame: shared/xframe.mjs (`buildXFrames`, `parseXFrame`, `appendTag`; XFrame/Tags is `stripTag`,
--     whose loop runs on the length of the text, and XFrame/Stripping what it gives back). XThread: its
--     `ThreadCollector`, at most 32 threads; XThread/Keys is the threads by their keys, XThread/Whole and
--     Complete what is given back. XPost: extension-x/src/content/index.ts
--     (`swap`, `resolveRecipients`, `coverFor`); XPost/Posts and Built are what is published. XPost/Reading is
--     `decode` and `openCipher` with the tests of extension-x/src/content/inbound.ts before them, XPost/Parts
--     the posts of a thread as they are read, XPost/Arrives both ways.
--   Policy: shared/policy.mjs and shared/checks/*.mjs. Policy/Checks is the registry and the
--     parameters, Policy/Shape the shape as bytes, Policy/Rules `validate` and `honesty`, Policy/Seal
--     `compile`, Policy/Candidates and Open `parse` and `open`. Third-party cryptography, the random
--     source and the gate are the records `Primitives`, `Author` and `Reader`. The recursion of
--     `decodeShape` is on the levels left under MAX_DEPTH. Base/Xor is `xor`.
--   Gate: gate/spaces.mjs (Gate/Spaces), gate/keyring.mjs (Gate/Keyring is the sessions, Gate/Challenges
--     the four handlers) and the messages of shared/member.mjs. A table is the list of its rows;
--     signatures, HMAC and the answers of World ID are parameters. Gate/Bans, Owners and Attests are about
--     members, owners and countersignatures, Gate/Claims about a session's claims, Gate/Nonces about used nonces.
--     Gate/Release is `deposit` and `release` of gate/core.mjs, Gate/Sealed and Verdicts `seal` and
--     `unlock`, with shared/gatebox.mjs and the gate's side of each check: hexadecimal texts are the bytes
--     they spell. Gate/Deposits and Unlock are about a share under a time, Gate/Barred about banned members.
--   Squeeze: shared/squeeze.mjs (Squeeze/Table is `TABLE`, Squeeze/Utf8 the text encoder and decoder of
--     the platform, on UTF-16 units). The loop of `squeeze` runs on fuel, the length of the text and one,
--     and each round takes a unit. Squeeze/Rounds is the end of the loop, Squeeze/Greedy the match of a
--     round, Squeeze/RoundTrip `unsqueeze`.
--   Envelope: shared/envelope.mjs with the keys it takes from shared/keys.mjs; Envelope/Opening is who opens
--     one. Sealed: shared/sealed.mjs. Sealed/Rows is `toRows` and `treeOf`, Sealed/Post the keys, the slots
--     and `sealPost`, Sealed/Reading `openPost`; Sealed/Shares is the masks, Sealed/Slots and Layout the
--     bytes, Sealed/Keyring the slots under a key, Sealed/Provided who has the share of each row. The loop
--     over the masks runs on their number, two to the number of shares less one.
--
-- Numbers are natural numbers; bytes are lists of numbers below 256, strings the list of their codes.
-- X25519, HKDF and AES-SIV are parameters (`Crypto`) with the laws that the code relies on
-- (`CryptoLaws`); in the handshake a peer key of low order makes X25519 throw, elsewhere a key is
-- taken not to be one; the codec, Telegram and the random source are the fields of `World`. An
-- `async` function is one step of the model, its waits included. What else happens during a wait is
-- modelled for the send interceptor, for the inbound scan, and in Connect/Sound for the handshake;
-- the two ends of a chat take their steps whole.
--
-- Not modelled: console output, styles and DOM drawing; the pages, selectors and sheets of the
-- extensions, which are DOM; app/src (React pages, and backends over the SDKs of ENS, Sui, LI.FI and
-- Seal) but for its unread messages; extension-everywhere; the compose box and the cache of the
-- inbound scan of extension-x; relayer, gate/server.mjs, gate/world.mjs and gate/ens-spaces.mjs,
-- which call chains and the World ID SDK over HTTP; shared/webframe.mjs, shared/gateclient.mjs and
-- shared/ticket.mjs; codec, in Python, and contracts, in Solidity.
pub mod Base
pub mod Frame
pub mod Gate
pub mod Squeeze
pub mod Envelope
pub mod Sealed
pub mod Keys
pub mod Policy
pub mod Session
pub mod Connect
pub mod Meter
pub mod AppUrl
pub mod Swap
pub mod Broker
pub mod Compose
pub mod Inbound
pub mod Unread
pub mod XFrame
pub mod XPost
pub mod XThread
