-- ===== src/Lib.antt =====
-- muduo-go is a reactor library for TCP on Linux. An event loop waits in epoll for the channels
-- that are registered with its poller and calls their callbacks; between the rounds it runs the
-- closures that other goroutines have queued with AsyncExecute. A connection owns a channel and
-- two buffers, a connector makes connections for a client and retries with growing delays, and a
-- timer queue keeps the tasks of a loop in a binary heap.
--
-- Buffer.antt is buffer.go: `write`, `read`, `next`, `shrink`, `search_bytes`, `read_fd`,
-- `make_space` and so on are the methods of the same names. A buffer is its bytes from the start
-- of the array, its two indices, and `int`s as integers, so that a negative argument behaves as
-- in the source; an index out of range panics. What readv(2) delivers is an argument of
-- `read_fd`.
--
-- Events.antt and Channel.antt are channel.go: the event masks with their bits, the callbacks as
-- options, and `handleEvent`. Poller.antt is poller.go: `updateChannel` and `removeChannel` with
-- the map, the indices of the channels and the calls of epoll_ctl. The kernel is a parameter: a
-- state and a function `ctl` on it, of which the theorems assume what epoll_ctl(2) documents of
-- one descriptor's interest. Poller/Polling.antt is `poll` and `fillActiveChannels`, over what
-- epoll_wait(2) returns, Poller/Creation.antt `newPoller`.
--
-- Connection.antt is tcp_conn.go: the state machine, both buffers, the poller through which its
-- channel is registered, and the queue of its closures, which `run_task` runs. The results of
-- write(2) and readv(2) and the user's callbacks are arguments. The model records the bytes that
-- the kernel has taken, so that the stream theorems speak of what the peer receives.
--
-- Connector.antt is connector.go over all results of connect(2) and getsockopt(2); the state
-- records the sockets opened, closed and handed out and the calls for the channels, whose
-- assertions are those of Poller.antt; Connector/Channels.antt counts these calls,
-- Connector/Accounting.antt has the balance of the sockets. Timer.antt is the heap of timer.go
-- with the routines of container/heap that it uses (`up`, `down`, `push`, `pop`, `remove`),
-- `insert`, `getAndRemoveExpired` and the closure of `cancel`; Timer/Rounds.antt has
-- `newTimerTask`, `restart` and `reset`, Timer/Repeating.antt and Timer/Rearming.antt have the
-- tasks that repeat, Timer/Marking.antt cancel on every branch, Timer/Adding.antt `addTask`. A
-- task is a pointer whose fields stand in a store, so that the index that Swap writes is seen by
-- cancel. Timer/Keys.antt has the heap order on the times, the other files one operation each.
--
-- Eventloop.antt is the task queue of eventloop.go: AsyncExecute, Wakeup, handleRead,
-- runPendingTasks and the rounds of Loop, cut into the steps that other goroutines can come
-- between; Eventloop/Interleaving.antt has the step relation. Eventloop/Looping.antt is Loop on
-- its own goroutine, over the model of the poller and for any callbacks and tasks, with Stop,
-- AsyncStop and destroy; what epoll_wait(2) returns in the rounds is a list.
-- Eventloop/Scheduling.antt has Schedule, ScheduleDelay, ScheduleAtFixRate, their asynchronous
-- forms, Cancel and handleRead of timer.go over the model of the timer queue, where the callbacks
-- of the timers may call these functions; Eventloop/Callbacks.antt has what such calls leave as
-- it was, Eventloop/Charging.antt and Eventloop/Alarm.antt the invariant of the descriptor,
-- Eventloop/Deadlines.antt the states that are reached. Group.antt is eventloop_engine_group.go,
-- Group/Engine.antt is eventloop_engine.go, as the steps of StartLoop and of the goroutine that
-- it starts, and Decimal.antt the printing of numbers of tcp_server.go (`itod`) and socket.go
-- (`uint2decimalStr`).
--
-- Server.antt is tcp_server.go with the acceptor of acceptor.go: the connection map and the
-- closures that the server gives to loops; Server/Live.antt has the relation of the states that a
-- server reaches. A connection is there its name, its descriptor and its loop; what it does is
-- Connection.antt. Sockets.antt is the conversion of addresses of socket.go and tcp_server.go;
-- the resolver of names and the interfaces of the system are parameters. Sockets/Binding.antt is
-- newSocket, bind and accept of socket.go and newAcceptor of acceptor.go, by what the system
-- calls return.
--
-- Client.antt is tcp_client.go over the model of the connector, whose callback is newConn;
-- Client/Reconnecting.antt follows a client through the loss of its connection and the next
-- attempt.
--
-- Text.antt is what the servers and the client use of the packages bytes and strconv.
-- Memcached.antt is examples/memcached/server/item.go with the slots, Store, Get and Delete of
-- examples/memcached/server/memcached_server.go; Memcached/Cache.antt has the cache as one map
-- from keys to values, which Memcached/Storing.antt refines. Memcached/Serving.antt has the
-- options and the map of sessions. Session.antt is examples/memcached/server/session.go:
-- NewSession, Replay, DoUpdate and DoDelete; Session/Requests.antt is processRequest with
-- `output` of item.go, and Session/Messages.antt is OnMsg, recvValue and discardValue. The
-- checksum of a key (`hash`) and the room in the connection's outbound buffer (`writable`) are
-- parameters, and the session records its calls on the connection in order.
--
-- Functions that can panic return `Run`, with the panic as a value. The loops of Search and of
-- container/heap take fuel: for Search the number of positions, for `up` the index plus one, for
-- `down` the number of entries plus one, for getAndRemoveExpired the number of tasks plus one;
-- each round lowers the index, raises it, or takes a task out. OnMsg takes twice the number of
-- unread bytes plus two: two rounds take at least one byte.
--
-- Not modelled: the creation of the eventfd (eventloop.go), the other system calls of socket.go
-- and those of epoll.go, the creation of the descriptor of timer.go, and the start of the
-- memcached example (examples/memcached/server). Logging has no effect in the model. Overflow of
-- 64-bit integers is not modelled: lengths and delays stay far below it.
pub mod Prelude
pub mod Buffer
pub mod Events
pub mod Channel
pub mod Poller
pub mod Connection
pub mod Connector
pub mod Timer
pub mod Eventloop
pub mod Group
pub mod Decimal
pub mod Text
pub mod Memcached
pub mod Session
pub mod Sockets
pub mod Server
pub mod Client
