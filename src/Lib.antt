-- ===== src/Lib.antt =====
-- fasthttp: the parts of the package that parse, encode and count.
--
-- The package serves and sends HTTP. What stands between the sockets and the handlers is modelled
-- here: the reading and writing of numbers, escapes, query arguments, cookies, URIs, headers and
-- bodies, and the counting of connections, waiters, workers and penalties. A function of the
-- source is a function of the model with its name in snake_case, and a method's receiver is an
-- argument; each file says at its top which functions it is about.
--
-- Base holds what the other files share: lists measured by native numbers, tests, byte strings,
-- machine integers as bit patterns. A []byte and a string are lists of numbers below 256. nil and
-- a panic are `none`, an error is a constructor of a type of its own.
--
-- Bytesconv (bytesconv.go, bytesconv_table_gen.go, supplement_utils.go, and from args.go the two
--   decoders): Decimal and Hex are numbers in text, Quote and Html are escapes, Ip is addresses,
--   and Tables are the byte tables, by the functions that the generator tabulates.
-- Args (args.go): a slice is its live entries and the spare ones of its capacity. Scan is the
--   parser, Query the writer, and Methods the methods of Args. It uses the decoders of Bytesconv.
-- Cookie (cookie.go): Scan is the scanner, Request the cookies of a request, whose entries are
--   those of Args, and Response is the Cookie type. Times are a parameter, the record Times.
-- Uri (uri.go, uri_unix.go): Path is normalizePath, Host is parseHost and unescape, Parse is
--   URI.parse, and Update is RequestURI, FullURI and Update. A query is parsed by Args.
-- Header (header.go, status.go): Names and Values are the texts of names and values, Scanner is
--   headerScanner with its folded values, Lines the line ends and the raw block, Trailer the names
--   of trailers. Request is RequestHeader: FirstLine, Fields and Parse read it, AppendBytes in
--   Request writes it, Modify is Set, Add and Del, and Peek what it returns. Response is the same
--   for ResponseHeader, and Status its first line. The slots of both are those of Args.
-- Body (http.go): bodies of a fixed size, chunked ones, and those up to the end of the connection.
--   The sizes of chunks are the numbers of Bytesconv/Hex.
-- Cleaner (client_cleaner.go): Sift, Up and Down are the heap of the items, Order its state, Due
--   the run of one item, and Rounds the rounds of the cleaner.
-- Ranges (fs_v3.go, header.go): ParseByteRange and SetByteRange.
-- UserData (userdata.go): the values that handlers attach to a request. Equality of keys is the
--   interface KeyEq.
-- PerIp (peripconn.go, and wrapPerIPConn of server.go): the connections of each address.
-- LbClient (lbclient.go): the choice among clients, and the penalties under any interleaving of
--   the atomic additions.
-- HostClient (client.go): Queue is wantConnQueue; Pool is acquireConn, releaseConn, decConnsCount
--   and the life of a wantConn, one function for each hold of a lock; Clean is the search for idle
--   connections.
-- Client (client.go): the retries of HostClient.Do, and in Redirects doRequestFollowRedirects with
--   getRedirectURL, which uses Uri.
-- WorkerPool (workerpool.go): the ready list, and the operations under its lock.
-- Examples: the theorems at concrete inputs.
--
-- Loops that consume their input run on fuel: the length of the input for the scanners and for
-- normalizePath, since each round takes a byte away, the length of the queue for the loops over
-- waiters, of which each round pops one, the length of the text and 1 for the loops over the
-- fields of a header and over chunks, the index and the number of items for the heap of the
-- cleaner, 20 and 16 digits for the prints of a 64-bit number. Theorems of the parsers and
-- printers, and the lemmas of Uri.Path.Fuel, say that it is enough. An int64 is written with its
-- wrap-around; a counter that the source only counts up and down by one is a number.
--
-- Concurrency: what happens under one hold of a mutex, or in one atomic operation, is one
-- function, and the orders of many goroutines are the sequences of a step relation
-- (HostClient.Pool.Count, WorkerPool.Once, LbClient.Penalty).
--
-- A bufio.Reader is the bytes still to be read and the error behind them. The scanner of headers
-- moves bytes in the buffer that it reads: what it leaves twice at the end is its field `stale`.
-- Buffers that are only overwritten are left out, but where the old bytes are read again, as in
-- the first line, they are written out.
--
-- Not modelled: messages, the server and its timeouts, files, compression, TLS and dialling, the
-- buffers with no copy, the adaptors and the commands, which are input and output, calls of other
-- packages, or left to later work; the part of normalizePath for Windows; floats and dates.
mod Base
pub mod Bytesconv
pub mod Args
pub mod PerIp
pub mod LbClient
pub mod HostClient
pub mod UserData
pub mod Uri
pub mod Cookie
pub mod WorkerPool
pub mod Header
pub mod Body
pub mod Cleaner
pub mod Ranges
pub mod Client
mod Examples
