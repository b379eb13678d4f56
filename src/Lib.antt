-- ===== src/Lib.antt =====
-- The core of libktorrent-stream, a BitTorrent library that downloads a torrent in the order in which
-- it is played.
--
-- A peer's socket delivers a stream of bytes. The packet reader (src/peer/packetreader.cpp) cuts it into
-- the packets of the peer protocol; which chunks a peer or the client has is kept in bit sets
-- (src/util/bitset.cpp) and
-- counted (src/peer/chunkcounter.cpp). A uTP connection keeps the bytes that it has to send in a
-- circular buffer (src/util/circularbuffer.cpp), the packets in flight in a window
-- (src/utp/remotewindow.cpp), puts those that come in in order
-- (src/utp/localwindow.cpp), and reads packets by src/utp/utpprotocol.cpp. The keys of the distributed
-- hash table are numbers of 160 bits (src/dht/key.cpp). Torrent files and the messages of the hash table
-- are bencoded (src/bcodec). Numbers on the wire are big-endian
-- (src/util/functions.h).
--
-- Peer.PacketReader    src/peer/packetreader.cpp: `on_data_ready` is PacketReader::onDataReady, `update`
--                      is PacketReader::update, and the other functions the private methods.
--                      `Stream` is an independent reader that takes one byte at a time; `Handed` lets
--                      packets be dequeued between the blocks.
-- Peer.ChunkCounter    src/peer/chunkcounter.cpp: one function per method. `History` is a relation of the
--                      events of peers to the counter.
-- Peer.Availability    src/peer/peermanager.cpp, src/peer/peer.cpp: `have`, `bit_set_received`,
--                      `update_available_chunks` and `handle_have` are the methods of these names;
--                      `remove_killed` is the branch of PeerManager::Private::update for a killed peer.
-- Util.BitSet          src/util/bitset.h, src/util/bitset.cpp: one function per method.
-- Util.CircularBuffer  src/util/circularbuffer.h, src/util/circularbuffer.cpp: `read` and `write` return
--                      what the source stores through a pointer beside the new buffer. `Content` gives
--                      the abstract queue of bytes.
-- Utp.SeqNr            src/utp/utpprotocol.h: the comparisons of sequence numbers.
-- Utp.Header           src/utp/utpprotocol.cpp: Header::read and Header::write.
-- Utp.SelectiveAck     src/utp/utpprotocol.h: `acked` and `ack` are Acked and Ack.
-- Utp.PacketParser     src/utp/utpprotocol.cpp: `parse` is PacketParser::parse. `Chain` has an encoder
--                      of packets to compare it with.
-- Utp.LocalWindow      src/utp/localwindow.cpp: `read` and `packet_received` are the methods of these names,
--                      and the other functions their loops. `Invariant` splits the packets into those that
--                      were read, can be read and wait; `Stream` has the runs of a window,
--                      with the packets that arrived as a list of Booleans.
-- Utp.RemoteWindow     src/utp/remotewindow.cpp: `add_packet` is RemoteWindow::addPacket, `acknowledge` the
--                      loop of RemoteWindow::packetReceived over the packets in flight.
-- Utp.RemoteWindow.Loss  src/utp/remotewindow.cpp: `packet_received`, `check_lost_packets`, `lost` and
--                      `timeout` are the methods of these names.
-- Bcodec.Encoder       src/bcodec/bencoder.cpp: the calls that write to a buffer.
-- Bcodec.Decoder       src/bcodec/bdecoder.cpp: one function per method, with an exception as a result.
-- Bcodec.Node          src/bcodec/bnode.h, src/bcodec/value.h: the tree that the decoder builds.
-- Bcodec.Lookup        src/bcodec/bnode.cpp: the access to the children of a dictionary or list.
-- Bcodec.Tree          The trees that are encoded, and an independent description of their format and
--                      of the nodes that they decode to.
-- Bcodec.Numbers       What the decoder relies on of QString::toInt, toLongLong and number, which are a
--                      parameter, and conversions by decimal digits that have these properties.
-- Dht.Key              src/dht/key.cpp, src/util/sha1hash.cpp: the operators. `Value` has the number
--                      that a key is.
-- Dht.KBucket          src/dht/kbucket.cpp, src/dht/kbucketentry.cpp: `insert`, `on_response`, `split` and the
--                      others are the methods of these names; `on_call_timeout` is onTimeout(RPCCall*), and
--                      `on_timeout` the one of an address.
-- Dht.KBucketTable     src/dht/kbuckettable.cpp: one function per method; `Reachable` has the table after any calls.
-- Peer.ConnectionLimit src/peer/connectionlimit.cpp: one function per method; `Safety` has the tokens that are out.
-- Util.Words           The wrapping sum of 32 bits, and the byte accesses of src/util/functions.h.
-- Base                 Tests, lists, bits and loops that the components share.
--
-- An object is a record, a method that changes it is a function that returns the new record, and a
-- byte is a number below 256. `Uint32` sums wrap at 2 ^ 32. A loop over indices is `for_up`, with the
-- number of rounds as its argument. The loop of `onDataReady` has the number of bytes that are left as
-- its fuel, which is enough because each round takes one byte at least; the loop of `update` the length
-- of the queue, because each round takes one packet out; the loop of `parse` the size of the packet,
-- because each round moves the offset by two bytes at least. The loop that pushes gaps has the
-- distance between the two numbers, because each round moves on by one. The recursion of `decode` has two units of fuel for each byte,
-- one for the call that reads it and one for the round of the loop around it, and one more for a call at the end of the
-- data. The queue's mutex excludes the other thread for the whole of `onDataReady` and of each `dequeuePacket`, so
-- each of these is one step, and a call of PacketReader::update is several; the function `update` is one during which
-- no data comes. What a file holds of the buckets is the list of the dictionaries that it decodes to.
--
-- Not modelled: sockets, threads, files, Qt containers and signals, and the components that only tie
-- these together; what the remote window computes with double; getString and the writing of QString, which
-- need text codecs; messages for the log. Storage that a constructor leaves uninitialised is an argument of the model's.
pub mod Base
pub mod Util
pub mod Peer
pub mod Dht
pub mod Utp
pub mod Bcodec
