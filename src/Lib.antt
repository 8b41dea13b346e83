-- ===== src/Lib.antt =====
-- A verification library for rocommon, the common library of a game server: the nodes of a cluster
-- find each other through etcd, connect by TCP or websocket, and exchange messages that are framed,
-- encrypted and handed to the callback queue of each service.
--
-- The parts and their files (paths from the repository's root):
--   Rpc        rpc/msg.go, rpc/aesctrcrypt.go, rpc/rsacrypt.go, util/ioutil.go. Rpc/Frame is the header
--              (RecvPackageData, the filling of `data` in SendMessage), Rpc/Aes and Rpc/Rsa the
--              encryption, Rpc/Message ReadMessage, SendMessage, EncodeMessage and DecodeMessage,
--              Rpc/Writer WriteFull. A stream is the list of its bytes; a function that reads
--              returns what is left. Rpc/Fault has the results: a value, an error, a panic.
--   Codec      codec.go: the registry of message types, its three maps as one record, and the form codec
--              (Form, with what it uses of net/url).
--   Socket     socket/procrpc.go (Processor, and Dispatch for its table, hooks and calls),
--              socket/sessionmanager.go (SessionManager),
--              socket/tcp/session.go and socket/websocket/session.go (Session), socket/tcp/connector.go
--              with socket/runtimetag.go (Connector), socket/tcp/acceptor.go (Acceptor),
--              socket/websocket/connector.go (WsConnector), socket/websocket/session.go (WsSession, its
--              two loops), socket/http (Http), socket/socketoption.go (Options), socket/nodereg.go
--              with socket/nodeproperty.go (NodeReg), and syncrecv.go (SyncRecv). A session's two
--              goroutines, the callers of Send and Close, and the goroutine that waits for the end
--              are a step relation whose steps are the code's operations in any order, and so are the
--              goroutine of an acceptor or a connector and the callers of Start and Stop.
--   Service    service/etcddesc.go (ServiceId), service/eventqueue.go (EventQueue), and service/etcdreg.go
--              with service/multinode.go (Discovery: the table of nodes through the watch events;
--              Registration: leases, states and the start time), and service/init.go (Start).
--   Sql        socket/mysql/sqler.go: literals and escaping (Literal), conditions and joins (Where), select
--              statements (Query), and insert, update and delete (Execute).
--   Mysql      the rest of socket/mysql: the pool and its transactions (Pool), the calls on it (Api), the
--              rows of a result (Wrapper) and the connector (Connector).
--   Util       util/dfa_filter.go (Dfa), util/timer.go (Timer, and Calendar for its days, weeks and
--              months),
--              util/timewheel.go (TimeWheel: a slot is the list of its tasks, an update gives the
--              tasks that it calls), util/loghelper.go (LogFile), and util/utils.go (Names, Encoding).
--   BitMap     util/bitmap.go.
--   Text       the language's text library, for the parts that print and parse: strings as lists of
--              bytes, decimal numbers, split, join, replace and trim.
--   Prelude    what the others share: lists over native numbers, Boolean tests, results with a panic,
--              bits of a byte.
-- Names are the code's, in snake case: `recv_package_data` is RecvPackageData. A read of a session
-- goes through `tcp_on_recv_msg` or `ws_on_recv_msg` to `read_message` and `decrypt_body`, which
-- look messages up in the registry; what is read is posted to the event queue.
--
-- Arguments of the models, for code of other packages: the block cipher of crypto/aes (decryption
-- undoes encryption and keeps the length), RSA, PEM and base64 (the private key of a pair decrypts what
-- the public one encrypts, and base64 decodes what it encodes), the marshalling of messages, the clock,
-- the random digits of GetAESKey, what a connection's writes and reads return, the callbacks and the
-- update module of a service, the letter functions of package
-- unicode, net.ParseIP, what fmt.Sprint prints of a value, the order of a range over a map, the JSON
-- of a description and the function that makes a node of it, the calls of a database driver and of the
-- client of etcd with the states that they leave. Laws that a theorem uses are its
-- hypotheses, and its witness fills them with concrete functions.
--
-- Machine integers are natural numbers with their wrap-around written out (`% 2 ^ w`). A panic is a
-- value of the result, so that the theorems say which inputs cause one.
--
-- Fuel: `searc_loop` is given as many rounds as the sentence is long, which is what the loop of
-- searcSentence needs, since each round adds 1 to `end`; `digits_from` is given the number it
-- prints, which is more than it has digits; an update of the time wheel is given a number of visits,
-- of which twice the tasks of the slot are enough where repeated tasks wait an interval at least;
-- `update_loop` needs a round for each interval that is over, and one more; `write_full` and
-- `count_byte` recur on the list of writes and on the 8 bits of a byte; `insert_loop` needs as many rounds
-- as there are values and one more; `rotate` needs a round for each full file and one more.
--
-- Not modelled: the websocket acceptor, which hands its connections to net/http, the reading of flags
-- and YAML, and the printing of logs.
-- In the files that are modelled: log output, time stamps on events, the mutexes around single
-- fields, HeartBeat, and the functions that only format or parse a time.
pub mod BitMap
pub mod Codec
pub mod Mysql
pub mod Prelude
pub mod Rpc
pub mod Service
pub mod Socket
pub mod Sql
pub mod Text
pub mod Util
