-- ===== src/Lib.antt =====
-- NexusRoom: the rooms, friends, live streams and virtual LAN of a self-hosted server written in Go
-- (server/). This library models the server's own logic and proves what keeps it correct.
--
-- Parts, by file, with the code they follow (paths from the repository's root):
--   Base, Base/*        shared names, Boolean tests and lists over native numbers
--   Orm, Orm/Memory     the object mapper (gorm), a third-party library, as an interface of tables with
--                       the behaviour the repositories rely on, and a table in memory that meets it
--   Flv, Flv/*          server/internal/media/flv/muxer.go: the bytes of WriteHeader, WriteFrame and
--                       WriteAudio over an abstract writer; Flv/Demux is an independent reader
--   Stream, Stream/*    server/internal/media/stream/registry.go: entries, subscribers and bounded
--                       channels (Stream), the map of streams (Stream/Streams), the interleavings of
--                       the locked sections (Stream/Steps)
--   Ws, Ws/*            server/internal/ws: the client's queue and rooms of client.go (Ws), the hub and
--                       the cases of its loop in hub.go (Ws/Hub), HandleChatSend (Ws/Chat), and
--                       HandleMessage with its handlers (Ws/Dispatch); the hub's map against a table of
--                       sessions (Ws/Follows, Ws/Sessions), KickUserFromRoom (Ws/Kicks), and the hub with
--                       the voice engine (Ws/Replaced)
--   Rooms, Rooms/*      server/internal/repository/room.go (Rooms) and the handlers that change state of
--                       server/internal/api/handler/room.go (Rooms/Requests)
--   Friends, Friends/*  server/internal/repository/friendship.go and the two handlers that change state
--                       of server/internal/api/handler/friend.go
--   Wg, Wg/*            AllocateIP, RegisterPeer and UnregisterPeer of server/internal/wg/coordinator.go,
--                       and server/internal/repository/wg_peer.go, one call after another (Wg) and as
--                       goroutines that share the lock of AllocateIP (Wg/Workers)
--   Voice, Voice/*      server/internal/media/voice/engine.go: peers as cells of a store (Voice), the
--                       methods that change who is in which room (Voice/Rooms, Voice/Methods), the
--                       well-formed engine (Voice/Invariant) and sequences of calls (Voice/Runs)
--   Messages, Messages/*
--                       server/internal/repository/message.go and server/internal/api/handler/message.go:
--                       the pages of a room's messages; Messages/Reversal has the loop in place
--   PublicIp, PublicIp/*
--                       server/internal/network/publicip/resolver.go: the choice of the public address
--   Rtmp, Rtmp/*        server/internal/media/rtmp/server.go: the admission of a connection and its
--                       publication over the stream registry
--   Playback, Playback/*
--                       server/internal/media/rtcplay/engine.go: Answer over the stream registry,
--                       with the calls of Close on each of its error paths, and the samples of
--                       writeStream
--   Accounts, Accounts/*
--                       server/internal/repository/user.go, Register and Login of
--                       server/internal/api/handler/auth.go, ToggleUser of admin.go,
--                       server/internal/api/middleware/auth.go, and the tokens of
--                       server/pkg/jwt/jwt.go with the time at which they expire
--
-- How the parts interact: the handlers of rooms and friends change tables and ask the hub to send; the
-- hub delivers to the queues of the connections, stores chat messages, and has the WireGuard
-- coordinator drop the peers of users who do not come back; an RTMP connection starts, fills and stops
-- a stream of the registry; the FLV writer and the playback send what a subscriber of the registry
-- receives; the tokens that a login signs are those that the middleware reads.
--
-- How code becomes definitions: a struct is a record, with pointers as addresses into a store where
-- objects are shared (the hub's connections, the registry's entries); a method is a function from the
-- state to the new state; a handler takes what the framework has bound of its request and answers with
-- a code. `none` stands for a panic where the code can panic: a send on a closed channel, or a second
-- close of one. The hub's calls of the voice engine and of the WireGuard device are kept in a log. What
-- a third-party library answers is a parameter: the database, the WebRTC library of the voice engine
-- and of the playback (one record of answers for each call of a method), RTMP, STUN, the hashes, and the
-- JWT library. A statement of the database may fail at any time, and a transaction that fails is rolled
-- back. A map is a list with one entry for a key, in the order in which a loop happens to meet its
-- entries.
--
-- Bounds: a connection's queue holds 256 messages; a subscriber's channels hold 256, 512 and 256
-- frames; the address search tries the 253 hosts from 2 to 254; byte counts wrap at 2 ^ 64, and bytes
-- of the FLV stream are the values modulo 256 that the code writes. One function runs on fuel, the loop
-- that turns a page of messages around in place: its fuel is the number of messages, and two indices
-- that move towards each other meet before that. Every other loop is over a list or a fixed range.
--
-- Not modelled: times but for the expiry of tokens and the times of frames, log lines and the texts
-- of answers; the read and write pumps of the sockets; the set-up of the WebRTC library and its
-- goroutines that copy packets; the listings, which only read; transcoding, which drives an
-- external program; ingresses, profiles, files and statistics; configuration and start-up; the
-- set-up of the network interface; the client.
pub mod Base
pub mod Flv
pub mod Orm
pub mod Friends
pub mod Ws
pub mod Wg
pub mod Stream
pub mod Rooms
pub mod Voice
pub mod Messages
pub mod PublicIp
pub mod Rtmp
pub mod Accounts
pub mod Playback
