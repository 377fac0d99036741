-- ===== src/Lib.antt =====
-- Chain replication of bank accounts: the C++ program under src-cpp.
--
-- A bank is a chain of servers. Clients send updates to the head and queries to the tail; an update
-- goes down the chain from server to server, each carries it out and keeps it in its sent list until
-- an acknowledgement comes back up; the tail answers the client. A transfer to another bank goes
-- from the tail on to the head of the other chain. A master hears the servers' heartbeats, takes a
-- silent server out of its chain and tells its neighbours, and lets new servers join at the tail.
--
-- The modules:
--   Base, Exec: shared helpers; maps as association lists; code that changes a state and may exit,
--     abort or throw.
--   Proto: the messages of src-cpp/common/message.proto, and prepare_msg of common/message.cc
--     (Proto/Prepare). An amount is of any type with the operations on float that the code uses
--     (Proto/Float); an instance over the naturals serves the tests.
--   Wire: send_msg_tcp and send_msg_udp of src-cpp/common/message.cc. What the sockets do is a
--     parameter: the outcome of each attempt to send (an exception at the end of a TCP send among
--     them), which texts are addresses, and the size of a message. What goes out is recorded.
--     Wire/Codec is the framing of messages, with the protobuf library as a parameter.
--   Server: src-cpp/server/server.cc, by parts. State is the object *cs with the globals; Accounts
--     the balances of common/bank.h and common/account.h; History the processed map and the sent
--     list; Send what goes out and the crashes that the configuration injects; Update the handlers
--     of requests, acknowledgements and transfers; Reconfigure what a server does when another one
--     crashed; Extend the transfer of the history to a server that joins; Dispatch the message
--     loops. Validity has the invariant, with the states that a server reaches in
--     Validity/Messages, and Link two neighbours of a chain as replicas; Link/AsOne joins a head
--     and a tail by what they send, and compares the two with a single server, whose balances are in
--     Link/Balances.
--   Master: src-cpp/master/master.h and master.cc. Chain is the chain of a bank, State the process,
--     Crash what follows a crash, Dispatch the handlers. Refinement relates the chain to a list of
--     distinct addresses.
--   Client: src-cpp/client/client.h and client.cc. State is the object with its handlers, Run the
--     loop over the requests, on an explicit sequence of what the socket gives.
--   Config: the readers of the configuration in the three programs, by what they fill: Chains is
--     read_config_master, Servers read_config_server, Clients read_config_client, with the random
--     requests in Seeds. jsoncpp and the file system are a parameter (Config.Json), the numbers that
--     rand() gives another, and Keys are the words of src-cpp/common/common.h. Described says what a
--     configuration says apart from its spelling, and Agreement relates what the programs read.
--     Decimal is std::to_string, on fuel of one more than the number, and std::atoi.
--   Tests: runs on concrete data, and the theorems at concrete data.
--
-- A method of a class is a function of the same name on the state, a handler that sends is code of
-- Exec over the process's state. An assert that fails, an exit and an exception are outcomes of the
-- code, and what was written before them stays written. The sequence number is a natural below
-- 2 ^ 32 where it is computed, with the wrap-around of unsigned int written out. Loops recur on the
-- list that they walk or on the rounds left; only std::to_string takes fuel.
--
-- Not modelled: lines to the log, sleeps, the threads' interleaving (a handler runs as one step, and
-- so does the thread that sends the history, but for the steps of Server/Validity/Messages/Reach,
-- where its sends and its last block come between the handlers), the sockets' receiving side, the main functions, and
-- numbers of the configuration that no int holds. An iterator that the code moves past the end of a
-- list, and a division by zero, are failed assertions of the model.
pub mod Base
pub mod Proto
pub mod Exec
pub mod Wire
pub mod Server
pub mod Master
pub mod Client
pub mod Config
pub mod Tests
