-- ===== src/Lib.antt =====
-- Keyless SSL: the server that holds the private keys of TLS sites and operates with them for
-- remote clients.
--
-- A client sends a message: a header with version, length and id, and items of a tag, a length and
-- data. kssl_thread.c reads messages from TLS connections, gives each to kssl_operate, and puts the
-- answer in the connection's queue of buffers, from where it is written back. kssl_operate parses
-- the items, finds the key, and sends the output of the key's operation, or an error.
--
-- Protocol  kssl.h: sizes, tags, opcodes and error codes, the header and the item.
-- Wire      kssl_helpers.c: the macros and functions that read and write headers and items. A buffer
--           is the list of its bytes, a pointer a buffer from there on, or NULL. A read or a write
--           outside a buffer is `none`, a fault. Numbers are cut to their width where they are
--           written.
-- Message   kssl_helpers.c: flatten_operation, zero_operation, parse_message_payload. The loop of the
--           parser has fuel for one round more than there are bytes; every round takes three bytes at
--           least. Wire/Encoding and Message/Request hold the independent description of messages:
--           lists of tags with data, and what an operation says with its pointers followed.
-- Openssl   What the program takes from OpenSSL, as parameters, with the facts that it relies on.
-- Keys      kssl_private_key.c: the list of private keys. The bytes of a new list's entries are not
--           written yet, and to read one of them is a fault. ssl_error, which ends the program, is a
--           result of its own.
-- KeyStore  The interface of kssl_private_key.c that kssl_core.c uses, and its laws, which
--           Keys/Operate shows of the list of keys.
-- Core      kssl_core.c: kssl_operate and kssl_error, over a key store. Parameters say which
--           allocations succeed.
-- Queue     kssl_thread.c: queue_write and write_queued_messages, over SSL_write as a function of the
--           number of the call, the bytes and their number. The loop of write_queued_messages has
--           fuel; one round for every byte in the queue and one more are enough.
-- ConnectionState
--           kssl_thread.c: connection_state, and the functions that put it in its states.
-- Connection
--           kssl_thread.c: do_ssl, which reads messages and has them answered. SSL_read is a function
--           on the state of the TLS connection; Connection/Spec holds its laws and those of the other
--           surroundings. The loops have fuel: one turn for each byte that is unread, and one more, are
--           enough. Connection/Line has what the client gets, with what is lost where there is no
--           memory or the queue is full.
-- Worker    kssl_thread.c: the list of a worker's connections, with its back pointers to pointers, and
--           the callbacks new_connection_cb, read_cb and close_cb. A state has an address, and what is
--           not allocated faults; malloc's answers are parameters. Worker/Reach has the callbacks in
--           any order that libuv may call them in.
-- Client    testclient.c: how the test client sends a request and reads the answer, its pipeline, and
--           test cases without a key and with one, over a TLS connection and RSA's functions as
--           parameters. Client/Laws says
--           what is known of one that leads to the server: a message is answered by what kssl_operate
--           makes, in one TLS record, and SSL_read gives bytes of one record at a time. A run returns, exits, waits or faults; the
--           fuel of the reading loops is more than the calls of SSL_read that have to wait, and
--           kssl_pipeline has a number of turns, since it may draw numbers for ever that move nothing.
-- Log       kssl_log.c: write_log. A line is where it goes and the format, as bytes.
-- Names     kssl_helpers.c: opstring, errstring and print_ip.
-- Server    keyless.c without Windows: loading keys and loading them again on SIGHUP. Server/Options and
--           Server/Start have main up to the set-up of OpenSSL: the options, the pid file and the
--           change of user, over the functions of the C library as parameters. getopt_long's answers
--           are a list. Server/Handles has the IPC server's counter of threads.
-- Tests     The theorems at concrete inputs, with a stand-in for OpenSSL.
--
-- Not modelled: BIO_write and flush_write, which carry bytes between OpenSSL and libuv, the threads
-- and their start and stop, the set-up of OpenSSL and libuv in keyless.c, the test client's
-- other cases with keys, its options and what it prints, and the release of memory, but for the states of connections and the keys that free_pk_list frees. The
-- lines that log_operation and log_error make, and the other functions' calls of write_log, are left
-- out.
pub mod Prelude
pub mod Protocol
pub mod Wire
pub mod Message
pub mod Openssl
pub mod KeyStore
pub mod Keys
pub mod Core
pub mod Queue
pub mod Log
pub mod Names
pub mod ConnectionState
pub mod Connection
pub mod Worker
pub mod Server
pub mod Client
pub mod Tests
