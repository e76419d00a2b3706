-- ===== src/Lib.antt =====
-- A verification library for the firmware of a small desktop robot: the parts of src/core, which need
-- no hardware, as functions and records, with the theorems that make them correct.
--
-- The parts and how they work together
--   The device posts recorded speech to a gateway and reads a stream of events back. The bytes of the
--   stream go through the conversation turn: the SSE reader cuts out the events, the JSON scanner reads
--   them, the speech segmenter cuts the reply into sentences with their expressions, and the Base64
--   decoder unpacks the audio; a listener is told of each in order. The playback stager holds a sentence
--   until its audio is complete. Commands come in over HTTP; the request router checks the token and the
--   request, the command registry dispatches them, and the JSON writer puts the answer into a fixed
--   buffer. Around these stand the network policy, the button, the direction of the audio, and a runtime
--   of deadlines, cancellation, mailboxes and pools of buffers.
--
-- Which file models which part
--   Clock: `elapsed`, the difference of two 32-bit times (network_policy.cpp, button.cpp,
--     button_gesture.cpp in src/core/stackchan_domain/src).
--   Runtime (src/core/stackchan_runtime)
--     Deadline: deadline.cpp, method for method. Wrap has what the wrap of the clock does not disturb.
--     Cancellation: cancellation.cpp. The atomic reason is a shared value; each call is a program
--       counter, and a step is one load or one compare-exchange, which may fail spuriously. Linear
--       compares any interleaving with the calls run one after the other, Effect draws consequences.
--     Mailbox: mailbox.hpp, the ring of slots. Ring reads it as a list, Refinement compares it with one.
--     BufferPool: buffer_pool.hpp, with the moves of a lease; Leases is about what is lent.
--     ReceiveExact: receive_exact.hpp over any transport; Filling is about the buffer it fills.
--   Domain (src/core/stackchan_domain)
--     NetworkPolicy: network_policy.cpp. Bounds has the invariant, Backoff the intervals.
--     Button, ButtonGesture: button.cpp and button_gesture.cpp. Settling and Counting are about them.
--     Base64: base64.cpp, a group of four characters at a time. Groups and RoundTrip are about it.
--     Decimal: the digits that json_writer.cpp produces from their lowest. Value is about them.
--     JsonWriter: json_writer.cpp. Document has documents as trees and their text, Emit the calls that
--       write them, Limits what the fixed buffer does.
--     JsonScan: json_scan.cpp, the lenient search, and Checked, the strict walk. Render, Brackets and
--       Numbers are about text that the writer wrote, Found about searching it, Integers about its
--       numbers, Unescape about its strings; Progress is about any text, Strict compares the two walks.
--     Sse: sse.cpp. Split is about blocks, Queue about the packed events, Lines and DataLines about one
--       event, Stream about many; Events describes the events of a stream without the queue.
--     Speech: speech.cpp. Split is about deltas, Queue about the packed sentences, Bounds about the
--       arrays, Utf8 and Whole about characters, Markers about brackets, Contents about ordinary text;
--       Moves has what a step does to the queue.
--     Protocol: protocol.cpp; Expression: expression.cpp; AccessToken: access_token.cpp;
--     AudioDirection: audio_direction.cpp; DeviceState: device_state.cpp.
--   App (src/core/stackchan_app)
--     Envelope: envelope.cpp; CommandRegistry: command_registry.cpp; PlaybackStager:
--     playback_stager.cpp, with the calling contract of playback_stager.hpp in Sentences.
--     Conversation: conversation.cpp. Ending and Once are about the end of a turn, Reader, Stream and
--       Blocks about the events of its stream, Sentences about what is spoken, Envelopes about the
--       events that the envelopes write.
--     ScanParams: scan_params.cpp; RequestRouter: request_router.cpp, with its answers in Answers.
--   Base: tests, lists, text and words that the others share.
--
-- How state and numbers correspond
--   A class is a record with the members of the class; a method that changes it returns the new record,
--   with its result if it has one. A buffer with a length is the list of the bytes written so far, with
--   its capacity kept where the code tests it. A position in a text is the text from there on. Integers
--   are natural numbers with their wrap written out as a remainder. Bytes are numbers, of which theorems
--   ask that they are below 256 where it matters.
--
-- Bounds and fuel
--   The loop over the levels of a container and the loop over the members of an object run on the length
--   of the text, and each round consumes a character, so that no text runs out of it.
--   The strict walk takes at most three calls to a character.
--   The loops of a turn over its events and its sentences run on the length of the queue they empty, of
--   which each event and each sentence takes two bytes at least; receiving a buffer runs on its size.
--   Clearing a mailbox takes one round more than it holds. An offer to the stager takes a round for each
--   sample and two to empty a full stage. Base64 and unescaping recurse on the text itself.
--
-- What is not modelled
--   The platform components under src/platform drive hardware, the network and the tasks of the
--   operating system; of src/core, the event bus, the identifiers, the WAV header, the scope of
--   provisioning, the description of the device, its health and the board profile. A handler of a command
--   is any function on the parameters and the payload writer. What the blocks of a buffer pool hold is left
--   out. A json_find_integer whose value leaves the signed 64-bit range is a result of its own, as the
--   language does not define what it computes; what a turn reads then is a parameter.
mod Base
mod Clock
pub mod Runtime
pub mod Domain
pub mod App
