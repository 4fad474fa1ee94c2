-- ===== src/Lib.antt =====
-- The core of mbus-rs, a library for wired M-Bus (EN 13757-2) and wireless M-Bus (EN 13757-4).
--
-- Bytes come in over a serial line or a radio. The transports collect them in byte queues
-- (src/util/iobuffer.rs); the radio hands over bytes whose bits may be reversed
-- (src/util/bitrev.rs). A wired frame is parsed, checked and packed by src/mbus/frame.rs, and the
-- state machine of src/mbus/mbus_protocol.rs builds the requests of the master and accepts the
-- replies; src/mbus/secondary_addressing.rs builds the frames that select a device by its 8-byte
-- address. A wireless frame carries the CRC of src/wmbus/crc.rs, once (src/wmbus/frame.rs) or in
-- blocks. The driver of the RFM69 gathers packets (src/wmbus/radio/rfm69_packet.rs); the streaming
-- decoder of src/wmbus/frame_decode.rs finds the size of a frame with the same function, and hands
-- the bytes to src/wmbus/mode_c.rs, which checks the blocks and reads the link header. Payloads are
-- encrypted and decrypted by src/wmbus/crypto.rs, and compact frames refer to devices that
-- src/wmbus/compact_cache.rs remembers. The payload of a wired reply is a row of records, which
-- src/payload/record.rs and src/payload/data.rs take apart and the state machine walks over. Where
-- one radio serves two protocols, src/wmbus/radio/scheduler.rs switches it between their profiles.
--
-- Which file models what, with the names of the source unless said otherwise:
--   Prelude          shared names, Boolean tests, lists over the native numbers, Rust's `Result`,
--                    and the bit operations as arithmetic
--   Nom              the nom crate, which is not in the repository, as an interface of its
--                    parsers and the laws that nom documents; Nom.Sample is one instance of it
--   Wmbus.Crc        src/wmbus/crc.rs; Wmbus.Crc.Serial has the bit-serial CRC of its unit tests
--   Wmbus.CompactCache  src/wmbus/compact_cache.rs; `Inv` has the invariant, `Runs` the sequences
--                    of operations and `Lookup` what is found after each
--   Wmbus.Block      src/wmbus/block.rs; `Split` is about any payload, `Join` about one that a
--                    sender put into blocks
--   Wmbus.DecodeError  the errors of src/wmbus/frame_decode.rs
--   Wmbus.Frame      src/wmbus/frame.rs; `length_field` is the field `length`
--   Wmbus.ModeC      src/wmbus/mode_c.rs; `Sender` has the frames of a meter by the standard, which
--                    `TypeA` and `TypeB` decode
--   Wmbus.Rfm69Packet  src/wmbus/radio/rfm69_packet.rs; `Size` is about the announced size, `Buffer`
--                    about the bytes pushed and extracted
--   Wmbus.FrameDecode  src/wmbus/frame_decode.rs; `Rounds` is about the loop, `Feed` about frames
--                    that arrive in pieces
--   Wmbus.Crypto     src/wmbus/crypto.rs; `Modes` has the chains of blocks and the padding, `Gcm`
--                    mode 9, `Frames` whole frames. `Backend` is the trait AesBackend of
--                    src/wmbus/crypto_hardware.rs as an interface with its law, and the software
--                    backend of a build without the feature `crypto`
--   Wmbus.ModeSwitching  src/wmbus/mode_switching.rs; `Search` is about the switcher, `Negotiation` about
--                    the capability frame and the choice
--   Payload.Encoding the decimals, manufacturer codes and times of src/payload/data_encoding.rs
--   Payload.Record   src/payload/record.rs; `bytes` is the field `data`, `Header` has a record as it
--                    lies on the wire, `Data` the round trip, `Fixed` the fixed record
--   Payload.Chains   the chains and the numbers of src/payload/data.rs
--   Mbus.Walk        the record loop process_data of src/mbus/mbus_protocol.rs; `Stream` is about a
--                    row of records, `Ends` about the end of the loop
--   Mbus.Handlers    FrameHandler and RecordParser of src/mbus/mbus_protocol.rs
--   Wmbus.Scheduler  src/wmbus/radio/scheduler.rs; `Base` is about where a run leaves the radio,
--                    `Timeline` about when it arms which profile
--   Wmbus.ChannelHopping  ChannelHopper of src/wmbus/radio/lora/channel_hopping.rs: the round robin
--                    and the blacklist, for any answers of the tests on qualities
--   Vendors.Manufacturer  the codes of src/vendors/manufacturer.rs
--   Mbus.Frame       src/mbus/frame.rs and the scalar loop of src/mbus/simd.rs; `control_field` is
--                    the field `control`, `bytes` the field `data`
--   Mbus.Secondary   src/mbus/secondary_addressing.rs
--   Mbus.Protocol    the state machine of src/mbus/mbus_protocol.rs; `failed` is its state `Error`
--   Mbus.Error       `MBusError` of src/error.rs without its texts
--   Util.IoBuffer    src/util/iobuffer.rs; `queue` is the field `data`
--   Util.BitRev      src/util/bitrev.rs
--
-- A byte is a number below 2 ^ 8 and a slice is a list. A method of a struct is a function from the
-- struct to its result and the struct it leaves. Arithmetic on machine words wraps as release builds
-- do, with `% 2 ^ w` written out. Every loop is a recursion on the list or on the number of rounds
-- that are left. The loops over the blocks of a payload and over the chunks of a text have a round
-- for each byte, which is enough since a round takes at least one. The loop of the streaming decoder
-- has two rounds, since a round that goes on has emptied the buffer. The record loop has a round for
-- each byte of the payload and one more, since each record takes at least one byte. The round robin
-- over the channels has a round for each channel and one more: the first may clear the blacklist, and
-- the others come to every channel.
--
-- The crates aes and aes_gcm are not in the repository. The block cipher and the authenticated
-- cipher are records of functions, and the theorems that rely on them name the law that decryption
-- undoes encryption. So is the driver of a radio, with what its traits promise of a success, and the
-- conversion of a character to upper case, with what is documented for ASCII.
--
-- Not modelled: the vector units that src/mbus/simd.rs uses on long inputs, the two functions of
-- src/mbus/mbus_protocol.rs that compute delays in floating point, the methods of its
-- managers that have no transport, the values of records in floating point with their units,
-- the list of the secondary addresses found, logging, files, radio hardware, the processor's AES and
-- SHA instructions, LoRa and the vendors' record formats and hooks.
pub mod Prelude
pub mod Nom
pub mod Vendors
pub mod Wmbus
pub mod Mbus
pub mod Util
pub mod Payload
