-- ===== src/Lib.antt =====
-- The core of iperf3 as the Expo module builds it, from android/src/main/cpp/iperf3/src (the copy in
-- ios/iperf3/src has the same sources). A test has a control connection, streams of data, timers
-- that drive reports and the end, and settings from a command line that the module composes.
--
-- Common: lists, options, C integers over native numbers.
-- Clock (iperf_time.c): IperfTime is `struct iperf_time`, seconds and microseconds of 32 bits each.
-- Timer, Timer/Loop (timer.c): the list of running timers in the order of its links, and the unused
--   structures. A `Timer *` is the number of an address; the callbacks of tmr_run are an argument.
-- Net (net.c): the loops of Nread, Nrecv_no_select and Nwrite over a list of what the system calls
--   give; what POSIX promises of read and write is a named hypothesis. A `size_t` that they return as
--   an `int` keeps its low 32 bits.
-- State (iperf_api.h): the states of a test, which are also its messages.
-- Udp (iperf_udp.c): iperf_udp_send and iperf_udp_recv with the header of a datagram and the counters
--   of a stream. They use Clock, Net and State.
-- Double: the operations on `double` that the code uses, a parameter.
-- Args (iperf_api.c): iperf_parse_arguments over the options that getopt_long delivers. Options has
--   the cases of the switch in four groups and the setters, Parse the defaults and the checks behind
--   the loop. Configuration macros are as in iperf_config.h, which defines no optional feature.
-- Rate (iperf_api.c): iperf_check_total_rate, with the array that iperf_new_test allocates.
-- Streams (iperf_api.c): iperf_send_mt and iperf_recv_mt with the throttle; the send and receive
--   functions of a protocol are a parameter.
-- Control (iperf_api.c, iperf_client_api.c, iperf_server_api.c): the control connection. A function is
--   a tree of the calls that it makes, with a branch for each answer. Client has
--   iperf_handle_message_client, iperf_create_streams, iperf_client_end and the end of a test; Server
--   has iperf_accept, iperf_handle_message_server, the acceptance of streams, the start of a test and
--   cleanup_server. Blocks has the end of iperf_connect, which chooses the size of the UDP blocks
--   behind the command line of Args. Session puts a client and a server of a TCP test together: a
--   side runs up to its next read. Session/Stages has the automaton of a session, and its Fitting, ClientSide, ServerSide and
--   StreamSide the steps of the refinement. They use State and the modes of Args.
-- Params (iperf_api.c): the parameters of a test, with send_parameters and get_parameters; Items has
--   cJSON as a record of operations with its laws, Framing JSON_write and JSON_read.
-- Results (iperf_api.c): send_results and get_results; Items has cJSON with numbers that are
--   `double`, Matching the streams found by their numbers, Entries what is read of one stream.
-- Sockets (net.c, iperf_tcp.c, iperf_udp.c): the functions that make, connect and accept sockets, as
--   trees of system calls. Dial has create_socket, netdial and netannounce, Tcp and Datagram those
--   of the protocols. Ledger says what is held: the descriptors and the addresses of getaddrinfo.
--   Dials, Connects, Listens and Datagrams have the theorems. Control takes these functions as calls.
--   Stream has iperf_new_stream, iperf_init_stream and iperf_free_stream of iperf_api.c, and Lifetime
--   what a stream holds from the one to the other.
-- Files (iperf_api.c, iperf_tcp.c): diskfile_send, iperf_tcp_send and diskfile_recv, by which a test
--   sends and stores a file; the results of the system calls are arguments.
-- Stats (iperf_api.c, iperf_tcp.c): what a stream counts, the interval that iperf_stats_callback
--   closes and iperf_reset_stats.
-- Examples: the theorems at concrete inputs.
--
-- tmr_run goes on fuel, since a periodic timer may come again in one run; the fuel that is enough is
-- the sum of the microseconds by which the timers are overdue. The other loops recurse on a list.
-- Unsigned C integers wrap by `% 2 ^ w`. The `int64_t` counters of UDP are bit patterns.
--
-- iperf_udp_connect waits on fuel for the reply: a datagram may be empty, which does not count; where
-- none is, the fuel is the limit of the bytes.
--
-- Not modelled: threads, the timeouts of the control connection, the timers of a test, the totals of
-- the reports and printing; what fills the buffer of a stream; SCTP, authentication and sendfile, which
-- are not built; cJSON, a library of another project; the bindings for Android and iOS.
pub mod Common
pub mod Clock
pub mod Control
pub mod Timer
pub mod Net
pub mod Params
pub mod State
pub mod Double
pub mod Udp
pub mod Args
pub mod Rate
pub mod Streams
pub mod Results
pub mod Files
pub mod Sockets
pub mod Stats
mod Examples
