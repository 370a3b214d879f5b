-- ===== src/Lib.antt =====
-- FlashForwarder: a gateway that takes market data from the Shenzhen feed over TCP, compresses it
-- and spreads it over PGM multicast.
--
-- The parts and how they meet. The input service (src/szBinary_input_service.cpp) reads chunks from
-- a socket and gives each to the frame decoder (src/szBinary_decoder.hpp), which hands whole frames
-- over to the service; the service answers with messages that the frame encoder
-- (src/szBinary_encoder.hpp) makes of C structs. Both stand on the byte order helpers
-- (src/wire.hpp). The compressor (src/Context.hpp and the headers below it) writes numbers with the
-- varints of src/wire_format-inl.h. Threads hand messages on through a pipe (src/pipe.cpp), which
-- stands on the queue for one writer and one reader of src/spsc_queue.hpp. A PGMSender
-- (src/pgm_sender.cc) serializes the messages of a pipe into one stream that it cuts into packets, and a
-- PGMReceiver (src/pgm_receiver.cc) joins such a stream and gives its messages to its sinks.
--
-- Prelude: shared names, Boolean tests, lists and the arithmetic of binary digits.
-- Wire: src/wire.hpp. `put_uint32 value` is the bytes that the function stores, `get_uint32` reads
-- the memory from its pointer on, and `none` is a read past its end.
-- WireFormat: src/wire_format-inl.h and src/wire_format.cc; Fixed has the fixed-width readers and
-- writers, for a host of either byte order. A word is its binary
-- pattern, a number below 2^32 or 2^64; a signed word is its two's complement pattern. A row of
-- unrolled lines of ReadVarint32 and ReadVarint64 is one recursive function on their number.
-- SzBinary.Decoder: the class szBinary_decoder_t as a record of state_, decodeBuffer_ and
-- bodySize_. consume is one function for each case; an int that went negative is kept as its
-- 32-bit pattern, so that begin moves backwards as it does in C. The loop of decode runs on the
-- fuel of 3 rounds for each byte of the chunk and 3 more: each round takes a byte or steps to the
-- next of three states, unless a size is negative; a result has what was handed over until then.
-- SzBinary.Encoder: the class szBinary_encoder_t as a record of its two buffers, on a
-- little-endian host.
-- SzBinary.Session: the class sz_binary_input_service_t of src/szBinary_input_service.cpp, each handler
-- a function from the service to the service and the calls of its socket, in order. The time is an
-- argument. Sends and Whole are about what it writes, Answers and Reads about what it reads.
-- Compressor: Fields is src/Field.hpp and src/Message.h, Strings is src/FieldInstructionString.hpp
-- and Integer is src/FieldInstructionInteger.hpp at any template arguments; InStep, Full and
-- StringStep are about them. Template is src/Template.hpp and Context is src/Templates.hpp with
-- src/Context.hpp; Step, Rows, Loops, TemplateStep, Values, ContextStep and Ends are about a template
-- and a context that encode and others that decode. The loop of Context::decode runs on the fuel of
-- one round for each byte. A message whose field is changed through a pointer is the message with
-- that field replaced; what a local variable holds before getValue is an argument. The presence map
-- is a number of 32 bits, one for each field.
--
-- Queue: src/spsc_queue.hpp. Batch is the class BatchQueue on chunks whose addresses malloc gives,
-- Spsc is the class SpscQueue. Chain says which slot holds which item, Holds what Push, Pop and Unpush
-- do to the slots, Run puts the calls of the two threads in any order, Invariant holds between them,
-- and Order and Wake follow from it. Each call is one step but Flush, which is two: each accesses what
-- the threads share (contention_, spare_chunk_) at most once, but that a Write or a Read that changes
-- the chunk swaps spare_chunk_ too. Memory is sequentially consistent.
-- Pipe: src/pipe.cpp, one direction of it, on a Queue of 256 slots to a chunk. Calls puts the calls of
-- the two ends in any order, each as one step; Writer and Steps turn them into steps of the queue, and
-- Sealed is about Unwrite behind Terminate; Order follows. What the other thread does while Read waits
-- is an argument.
-- Memory: src/memory_allocator.hpp; an int that overflows is no result.
-- Allocator: src/message_allocator.cpp on lists of messages; Smear is about the highest bit of a capacity.
-- Common: two helpers of src/common.cc.
-- Pgm: what spreads the data. Filling is the loop of OutEvent of src/pgm_sender.cc on the fuel of one
-- round for each result of Read and each byte of a packet, and two more; Ends shows that it ends for its
-- own reasons. Sender is the i/o side of the class PGMSender, each handler a function from the sender to
-- the sender and its calls of the select object and the socket. Peer, Delivery and Receiver are the class
-- PGMReceiver of src/pgm_receiver.cc: a peer, the data of a packet, and the handlers. Pieces, Sends,
-- Stream and Run are about what is sent; Headers, Pushed, Joined, Apart, Stream and Whole about what the
-- sinks get; Exchange puts the two together. Push is the side of PGMSender that pushes messages. Serializers, parsers, increments and the socket are
-- arguments, the hypothesis on them is Understands; of the pipe the results of Read are given.
--
-- Not modelled: the template parser and PGMSocket. Sockets, timers,
-- logging and threads (boost), PGM (openpgm), XML (tinyxml2) and the browser window (CEF) are libraries; the
-- floating point casts of src/wire_format-inl.h reinterpret IEEE bits.
pub mod Allocator
pub mod Common
pub mod Compressor
pub mod Memory
pub mod Pgm
pub mod Pipe
pub mod Prelude
pub mod Queue
pub mod SzBinary
pub mod Wire
pub mod WireFormat
