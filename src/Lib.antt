-- ===== src/Lib.antt =====
-- Rumble, a voice chat system: the server (crates/server), the protocol types that server and
-- clients share (crates/rumble-protocol), the client engine (crates/rumble-client), and the bridge to
-- Mumble clients (crates/mumble-bridge).
--
-- The server keeps a tree of rooms and a roster of users (`StateData`), a database of groups,
-- memberships, access control lists and bans (`Persistence`), and decides each request by the
-- permissions that groups and lists give a member along the chain of rooms from Root to a room. The
-- handlers check the permission, change the state, store the change and broadcast it. Messages come as
-- length-prefixed frames over a stream that the server reads piece by piece. The client keeps a copy of
-- the rooms, users and groups by applying the broadcasts, computes its own permissions from it, and
-- tells its audio task who is in its room. The client's voice gate decides which audio frames are sent
-- at all, and the pre-roll ring keeps the last frames that it held back. The server relays a voice
-- datagram to the others in the sender's room, and each receiver plays it from a jitter buffer, one per
-- peer. The bridge carries voice packets between Mumble clients and the server, and numbers rooms and
-- users the way Mumble does.
--
-- Which file models which part:
--   Permission        permission flags and access control data: crates/rumble-protocol/src/permissions.rs
--   Permission/Effective   effective_permissions of that file
--   Rooms             StateData and its operations: crates/server/src/state.rs
--   Sled              the embedded database, a parameter; Sled/Memory is an instance in memory
--   Persistence       the stored records and their operations: crates/server/src/persistence.rs
--   Acl               the room chain and the permission check: crates/server/src/acl.rs
--   Ops               room operations of crates/server/src/ops.rs and handle_move_room of
--                     crates/server/src/handlers.rs; Ops/Groups are the group operations of ops.rs,
--                     Ops/Registration the registration of users,
--                     and Ops/Edits the handlers that rename and describe a room
--   Ops/AclSave       apply_set_room_acl of ops.rs and room_acl_version of
--                     crates/rumble-protocol/src/lib.rs
--   Moderation        apply_kick and apply_ban of crates/server/src/ops.rs
--   Relay             members, sessions, rate limits and the voice relay: crates/server/src/state.rs
--                     and crates/server/src/handlers.rs; Relay/Departure is the teardown
--   Voice             voice packets: crates/mumble-bridge/src/mumble_voice.rs
--   Bridge            channel and session maps: crates/mumble-bridge/src/state.rs
--   Gate              the voice gate: crates/rumble-client/src/processors/vad_shaper.rs
--   Jitter            the jitter buffer and its playout: crates/rumble-client/src/audio_task.rs
--   Preroll           the pre-roll ring: crates/rumble-client/src/preroll.rs
--   Frames            frames of crates/rumble-protocol/src/lib.rs and the read loop of
--                     crates/server/src/server.rs
--   Wire              the records of crates/rumble-protocol/src/types.rs and their messages
--   Client            the client's copy of the server state: apply_room of
--                     crates/rumble-client/src/projection.rs, the room events of domain_events.rs, and
--                     apply_state_update of handle.rs (Client/Updates)
--   Client/Tree       RoomTree of crates/rumble-client/src/events.rs, whose ancestors are what the
--                     guard of handle_move_room walks over
--   Client/Permissions   the client's own evaluation of its permissions, in projection.rs
--   Client/Audio      the commands to crates/rumble-client/src/audio_task.rs and its set of members
--   Sync              a client that receives what crates/server/src/ops.rs broadcasts;
--                     Ops/Broadcast follows what each operation broadcasts
--
-- A Rust function is a function of the same name that takes the state last and returns the new
-- state; `&self` reads take the state and return a value. A write to the database returns `none` for
-- the error it returns. UUIDs, keys and user ids are natural numbers, Root is 0, and a set of flags is
-- the number of its bits. A hash map is an association list that is only read by key. Locks are not
-- modelled: each operation of `StateData` holds the write lock for all of its work, so it is one step.
-- Reads of the wall clock and random UUIDs are arguments.
--
-- Parameters with laws: `BitFlags` is what the bitflags macro generates, with its effect on each bit,
-- and `Permission/Flags` is an instance; `Sled` is the sled crate together with the bincode coding of
-- values, whose reads see the last write to a key and whose writes may fail, and `Sled/Memory` is an
-- instance; `Delimiter` is prost's coding of a length with what it documents, and `Frames/Tests` has
-- the instance of 7-bit varints.
--
-- Parameters without laws: `Scores` is the comparison of f32 and f32::min; `JitterEstimate` is the
-- smoothed jitter in floating point, `VoiceDecoder` the voice codec of a platform, the `Wire` of
-- Relay/Voice the coding of a datagram, and `Digest` the first 8 bytes of blake3 with the UTF-8 coding
-- of a name, with instances in `Gate/Tests`, `Jitter/Playout/Tests`, `Relay/Voice/Tests` and
-- `Ops/AclSave/Tests`.
--
-- Fuel: the walk up to Root in `build_room_chain_owned` has `length rooms + 2` steps, which its own
-- bound on the path never lets run out; the cycle guard of `handle_move_room` counts down the number of
-- rooms as the code counts up to it; the trim loop of the jitter buffer has one step for each packet in
-- it, and ends by its test.
--
-- The client's walk up to Root has `length rooms + 2` steps too, since it stops at a room it has met,
-- and the iterator of ancestors counts down the number of nodes.
--
-- The loop over the frames in a buffer has one step more than there are bytes, and a theorem says that
-- it is enough.
--
-- Not modelled: sockets and TLS, the hash of a state update (the rooms are compared as the
-- hash reads them), the client's chat, connection and voice state, the texts of replies and logs,
-- the web endpoints, plugins, user interfaces, audio devices and codecs.
pub mod Prelude
pub mod Permission
pub mod Rooms
pub mod Sled
pub mod Persistence
pub mod Acl
pub mod Ops
pub mod Wire
pub mod Frames
pub mod Client
pub mod Sync
pub mod Moderation
pub mod Voice
pub mod Bridge
pub mod Gate
pub mod Preroll
pub mod Jitter
pub mod Relay
