-- ===== src/Lib.antt =====
-- HylaFAX, a fax server: its Group 3 encoder, which turns packed rows of pixels into T.4 and T.6 data,
-- the row operations of its image converter sgi2fax, the times of day, the bit strings of T.30, the
-- parameters of Class 2, the page ranges, the hash table and the dispatcher of its library, the HDLC
-- frames of its modem drivers, and the linked lists, the modems and the queues of jobs of its scheduler.
--
-- The program. faxd holds the queue, the modem drivers and the encoder; hfaxd is the network server;
-- libhylafax, sendfax, faxstat and others are the clients; util has administration commands. The
-- scheduler faxd/faxQueueApp.c++ keeps the jobs on queues and gives each a modem; its events and times
-- come from the dispatcher, which calls the handlers of descriptors, timers and children. The
-- encoder's user is faxd/MemoryDecoder.c++, which recodes pages, one raster or one row at a time; it
-- calls setupEncoder, then encode, then encoderCleanup.
--
-- The files.
--   Base            shared names, Boolean tests, lists over the native numbers, binary digits, bytes,
--                   characters, and lists kept in an order.
--   G3/Codes        faxd/t4.h: the code tables TIFFFaxWhiteCodes and TIFFFaxBlackCodes.
--   G3/Encoder      faxd/G3Encoder.h and faxd/G3Encoder.c++: the members of G3Encoder as a record,
--                   setupEncoder, flushBits, putBits, putcode, putspan, encoderCleanup and the EOL
--                   part of encode, as functions from state to state.
--   G3/Spans        faxd/G3Encoder.c++: zeroruns, oneruns and findspan.
--   G3/WordSpans    faxd/G3Encoder.c++: find0span and find1span.
--   G3/Rows         faxd/G3Encoder.c++: the 1-D lines of encode.
--   G3/TwoD         faxd/G3Encoder.c++: the 2-D lines of encode, and encode itself.
--   G3/Stream       the abstract view of an encoder: the bits that it has written.
--   G3/Decode, G3/Decode2d, and the readers in G3/Rows, G3/Page and G3/Page2d: an independent reader
--                   of T.4 data, run by run for 1-D lines and mode by mode for 2-D lines.
--   The other files under G3 hold the proofs: Tables, PutBits, PutSpan, Lead, RunTables, FindBytes,
--   FindSpan, WordLoops, WordScan, RoundTrip, Page, Document for 1-D lines; Changes, RowRuns, Round2d,
--   RoundTrip2d, Page2d, Document2d for 2-D lines; Align for the EOLs. G3/Tests holds runs on concrete
--   pages.
--   Row/Loops       sgi2fax/row.c: the loops that are unrolled eight times.
--   Row/Samples     sgi2fax/row.c: clamprow, addsrow, subsrow, accrow.
--   Row/Cpack       sgi2fax/row.c: bwtocpack, rgbtocpack, rgbatocpack, cpacktorgb, cpacktorgba.
--   Row/Packed      sgi2fax/row.c: bitstorow, rowtobits, bitrevbytes.
--   Row/Flip        sgi2fax/row.c: flipsrow, setrow, zerorow. Row/Tests holds runs.
--   TimeOfDay/Tod   libhylafax/TimeOfDay.h and libhylafax/TimeOfDay.c++: _tod, TimeOfDay, reset, add,
--                   nextDay, nextTime, nextTimeOfDay. NextDay, NextTime and Soonest hold the proofs.
--   TimeOfDay/Parse libhylafax/TimeOfDay.c++: parse and the copy constructor. ParseDays and ParseValid
--                   hold the proofs, TimeOfDay/Tests runs.
--   FaxParams/Bits  libhylafax/FaxParams.h and libhylafax/FaxParams.c++: the whole class, as functions on
--                   the array m_bits. View reads it bit by bit; ExtendLoops, SetBit, Unsetting, Extended
--                   and TwoDim are about setBit; Ascii, Setup, Whole and Compare about the rest; Tests holds
--                   runs.
--   DestInfo/Active faxd/DestInfo.h and faxd/DestInfo.c++: the batches that are active to a destination.
--                   Count is about them, Tests holds runs.
--   QLink/Store     faxd/QLink.h and faxd/QLink.c++: insert and remove of the doubly-linked lists, on a
--                   store of links. Ring and Remove are about them, Tests holds runs.
--   HdlcFrame/Crc   faxd/HDLCFrame.c++: buildCRC. Residue and Check are about the checksum.
--   HdlcFrame/Buffer  faxd/HDLCFrame.h and faxd/HDLCFrame.c++: the buffer and the accessors. Content is
--                   about put, DataWord about getDataWord. Send has sendFrame of faxd/Class1.c++ for a DIS
--                   or DCS. Tests holds runs.
--   Dictionary/Table  libhylafax/Dictionary.h and libhylafax/Dictionary.c++: fxDictionary with its
--                   operations, and fxDictIter. Chains is about one chain, Map about the table,
--                   Operations about each operation, Refine about runs of them, Iterate about the
--                   loop over all items. Tests holds runs.
--   Dispatcher/Timers, Expire, Children, Handlers  libhylafax/Dispatcher.h and
--                   libhylafax/Dispatcher.c++: the queue of the timers and expire, the queue of the
--                   children and notify, and the tables and sets of the descriptors that have handlers.
--   Class2/Caps     libhylafax/Class2Params.c++: encodeCaps and decodeCaps.
--   Class2/Session  libhylafax/Class2Params.c++: setFromDIS and setFromDCS. Class2/Update has update. Signals
--                   and Decoded read the words bit by bit, Enabled and Signal say which bits update sets,
--                   Dcs and Sending are about a DCS that is sent and decoded, Received and Frames about what
--                   arrives.
--   Modem/Capable   faxd/Modem.h and faxd/Modem.c++: the capabilities of a modem. Modem/Model has the
--                   master list, findModem, and assignModem of faxd/faxQueueApp.c++. Listed, Order and
--                   Find are about the list and the searches, Choice about findModem, Steps about all
--                   calls, Assign about the loop of assignModem.
--   JobQueue/Model  faxd/Job.c++ and faxd/faxQueueApp.c++: the order of jobs, and setReady, setReadyToRun,
--                   ctrlJobDone, setPending, setSleep, setDead, setSuspend, setActive. Order is about the
--                   queues of jobs, Steps about all calls, FirstJobs and Heads about runq.
--   Range/Model     libhylafax/Range.h and libhylafax/Range.c++. Scan is about strtoul, Bits about the
--                   map, Parse about parse. Each of these has Tests with runs.
--
-- The model. A pointer into a raster is the list of the bytes from there on, with its address where
-- the code looks at alignment. The output buffer is the list of the bytes put to it. The bit table
-- that libtiff's TIFFGetBitRevTable returns is a parameter; theorems ask for a function that undoes
-- it. `data` and `bit` are shorts that stay below 256 and between 0 and 8. sizeof (long) is 8.
-- Loops run on fuel: putBits on `length` rounds, since a round flushes a byte; putspan on `span`
-- rounds, since a round takes off 2560; a 1-D line on `w + 1` rounds, since two spans take a pixel; a
-- 2-D line on `w + 1` rounds, since every round but the first takes a pixel.
-- In Row a short is its 16-bit word, so that arithmetic on shorts is modulo 2^16; a row holds the `n`
-- elements that a function reads, and a function returns the `n` elements that it writes.
--
-- A string is the list of the characters before its NUL, in the C locale. In TimeOfDay localtime is
-- a parameter with the ranges of its fields as hypotheses. sscanf("%u-%u") is written out; a number of
-- more than 32 bits, which C leaves undefined, wraps around. nextDay runs on 7 rounds, since a week has
-- 7 days; parse on as many rounds as the string has characters, and its list of days on one more, since
-- a round takes a character off. A range over midnight is read as nextTime reads it, where its early part
-- belongs to the named day, and, where a theorem says so, as the comment above parse has it.
-- In FaxParams a bit number below 0 is taken as 0, which is as invalid; a read or a write outside of
-- the sixteen bytes is the result `none` where the code has no test against it.
-- In Dictionary the virtual functions hashKey and compareKeys are parameters, with the hypothesis that
-- compareKeys is 0 exactly for equal keys; a chain of buckets is a list. The loop over the items runs on
-- numItems rounds. The iterators that are live while a key is removed are not modelled.
-- In HdlcFrame the memory of a frame is the list of the bytes from its base to its end; malloc is a
-- parameter that gives a list of the length asked for. Sizes are taken to stay below 2^32. What the modem
-- carries of a frame is taken to be its bytes and two bytes of checksum.
-- In QLink an address is a number and the store has the two links of each address; in DestInfo the
-- chain of batches along dnext is a list.
-- In Dispatcher times are absolute and not negative, and what the handlers do is a parameter. expire runs on
-- as many rounds as there are due timers, notify on as many as there are children and started ones. The
-- number of bits of a descriptor set, FD_SETSIZE of the C library, is a parameter beside _max_fds; FD_SET or
-- FD_CLR of a descriptor that is not one of these bits is the result `none`.
-- In Class2 the members of Class2Params are the record Class2Params for the word of the capabilities, which
-- has no jp, and the record Session for setFromDIS, setFromDCS and update, whose bits are an argument or the
-- result; the codes and masks of class2.h and t.30.h are written as numbers.
-- A modem starts with the capabilities of the constructor of Class2Params, 2^32 - 1 for every member.
-- In Modem the groups of modems and the lock files are parameters; assignModem runs on one round more than
-- there are ready modems, since a round that does not get a lock makes one busy.
-- In JobQueue a failed assertion of QLink is the result `none`. Traces, triggers, timers and the files of the
-- queue are left out.
-- In Range malloc is a parameter, the memory that it happens to give; a write or a read outside of the map is
-- the result `none`. parse runs on one round more than the string has characters.
--
-- Not modelled: the modem drivers but for their frames; the loop of the scheduler, its batches and the
-- submission of jobs; the servers and the clients, which are mostly I/O; the decoder, whose tables are
-- generated at build time; regex and port, which are copies of libraries.
pub mod Base
pub mod Class2
pub mod DestInfo
pub mod Dictionary
pub mod Dispatcher
pub mod FaxParams
pub mod G3
pub mod HdlcFrame
pub mod JobQueue
pub mod Modem
pub mod QLink
pub mod Range
pub mod Row
pub mod TimeOfDay
