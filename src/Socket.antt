-- ===== src/Socket.antt =====
-- The package socket: the session table (socket/sessionmanager.go), the message processors
-- (socket/procrpc.go), the sessions, acceptors and connectors of socket/tcp, socket/websocket and
-- socket/http, their options (socket/socketoption.go) and their table of nodes (socket/nodereg.go), and
-- syncrecv.go.
pub mod SessionManager
pub mod Processor
pub mod Session
pub mod Connector
pub mod Acceptor
pub mod WsConnector
pub mod SyncRecv
pub mod Http
pub mod WsSession
pub mod Options
pub mod NodeReg
pub mod Dispatch
