-- ===== src/Lib.antt =====
-- wander: models of those programs of this repository that have a logic of their own, with what
-- holds of them. The repository is a collection of Go programs, most of them small probes of the
-- runtime or the network; the parts below do not call one another.
--
-- Base: what the parts share. Bytes are numbers, a text is its list of bytes (ASCII), a Go map is
-- an association list or the list of its keys, and an int64 that can be negative is an integer ℤ
-- whose sums are wrapped by `int64`. An unsigned or 64-bit counter that wraps has its `% 2 ^ w`
-- written out.
--
-- FastServer (fasthttpserver/fasthttpserver.go): FastServer/Parse has httpMethodParser,
-- httpKeepAliveParse and httpURIParser, the last on fuel, where every round but the last takes a byte
-- away. FastServer/State, FastServer/Sending, FastServer/Receiving and FastServer/Service are
-- tinyhttpservice: what Read and Write answer in each round of its loop
-- is a list, at the end of which the signal to exit comes, and to the machine a deadline is an
-- error. Its buffer is the part of it that is filled, with the length of the whole. FastServer/Worker
-- is worker and FastServer/Counter is requestCounter. The flags, the profiler and the signals of
-- main are not modelled.
--
-- FileParse (go-vs-php-file-parse/parser.go): FileParse/Split is SplitBytes, FileParse/Atoi is
-- AtoIntOfBytes, and FileParse/Parser is the loop of parser over the bytes of the file, with the
-- ReadSlice of a bufio.Reader of any buffer size. Each round of the loop takes a byte at least, so
-- the length of the file and one more is fuel enough. FileParse/Generator has the lines that main
-- generates with -gen. show and the options of main are not modelled.
--
-- HashTest (hash-test/hash-test.go): HashTest/Ranges is the share of each worker (NewhashTester,
-- run), HashTest/Worker is runWorker, and HashTest/Counter is sumcounter, totalcounter and summary.
-- The big counter and the checksum, which are packages of their own, are the parameter `Source`.
-- The buffers that a pool gives out are an argument, with whatever they hold. The timer, closing
-- and the drawing server are not modelled.
--
-- Netsplice (netsplice-echo-proxy/splicetest/funny): Netsplice/Pipe is splicePipe and
-- Netsplice/Splice is splice (splice_linux.go). What the kernel answers to each splice(2) call is a
-- list that the environment chooses; every round takes an answer, so its length is fuel enough. The
-- world has the bytes of the source, of the pipe and of the destination. Netsplice/NetPd has the
-- locks and waits of a descriptor (netPD), and Netsplice/NetPd/Protocol their steps in any order,
-- those of Close and of the event loop among them. Netsplice/Proxy is the table of connections, the
-- body of the event loop and Transfer (proxy_linux.go), whose two goroutines delete the connections
-- in the turns of a list, with accepts of other calls in between. The calls that reach the kernel are a log.
-- NewProxy and rawEpollWait are wrappers of system calls, and not modelled. dada-funny has earlier
-- copies of the package.
--
-- QpsServer (qps-http-app-server/qps-http-app-server.go): QpsServer/Event and QpsServer/Status are
-- the events, which are also the states of a request, and the status codes. QpsServer/Conn is
-- httpConnectionInfo_t with its functions, QpsServer/Stream is httpReadRawStream and
-- httpWriteResponser, QpsServer/Response is httpSendResponse, QpsServer/Header has the two searches
-- of httpReadRequest and QpsServer/Request the rest of it, and QpsServer/Handler is
-- httpConnectionHandler. What the network answers to each read and write is a list that the
-- environment chooses: a read delivers bytes or an error, and a write that does not take all has an
-- error, as package net promises. The texts of the clock are the parameter `date`. A call that waits
-- for an answer that the list lacks is `pending`; the search for the end of a header runs on fuel,
-- and to be out of it is `spins`, which is proved to be an endless loop. The loop over the requests
-- of a connection takes an answer in each round. QpsServer/Server has the goroutines of main and
-- their channel as atomic steps in any order, where a running handler may send any event but the
-- last at any time; the counter of connections is an integer without
-- the wrap at 2^31, more connections than a process can hold. QpsServer/Listen is
-- netListenStringFormat with the net.SplitHostPort and the strconv.Atoi that it calls, and
-- QpsServer/Args is commandArgsParser. What optargex.Parse gives is an argument. The texts of the
-- display are not modelled.
--
-- TcpEngine (tcpengine/tcpengine.go): TcpEngine/Engine has the shared state and each locked or
-- atomic section of acceptor, connector, serverHandle and clientHandle. TcpEngine/Server has
-- the steps of the listening side, any number of acceptors and handles in any order, with Start (from
-- the test of the limit on) and workerWait beside them. TcpEngine/Client has those of the connecting
-- side for one connector with any number of handles; the other connectors, which share the counter
-- and the flags with it, are not there. TcpEngine/Rate is qpsctl: its choice of a delay ends within
-- 1000 rounds, and its ticker is the number of requests that it lets pass. TcpEngine/Hosts is ResolveHostList,
-- TcpEngine/Hosts/Ports ResolveHostPortList, and TcpEngine/Hosts/Locals addressParse.
-- TcpEngine/Options is NewCmdConfig, TcpEngine/Start is Start, and TcpEngine/Shutdown is sigHandle,
-- Close and workerWait. The loop over a range of hosts runs on fuel, one unit for each host and one
-- more. Whether net.ResolveTCPAddr takes an address is a parameter. The profiler and the printing
-- of counters are not modelled.
pub mod Base
pub mod FastServer
pub mod FileParse
pub mod HashTest
pub mod Netsplice
pub mod QpsServer
pub mod TcpEngine
