-- ===== src/Lib.antt =====
-- infinit.io: the transfer of files between users. A sender's `Frete` serves the blocks of the
-- files that a `TransferSnapshot` lists, a recipient's machine decides on a transaction and
-- receives it, a transfer machine keeps the two peers connected, and the Hermes server keeps
-- blocks for a peer who is away. The Apertus server joins two peers that cannot reach each
-- other, and the Trophonius server keeps a connection to those who are online. A `Station`
-- connects to the stations of other peers.
--
-- Frete: frete/src/frete. Frete/Files and Frete/Snapshot model TransferSnapshot.{hh,cc}: one
-- file, the table of files, and every operation on progress. Frete/Server models Frete.{hh,cc}:
-- cleartext_read, the encrypted reads, the cache of open files (`fetch_cache`, the code's
-- `_fetch_cache`), add_one (`_add`), finish and the keys. A method that throws returns the state
-- at the throw beside the error. Sizes and progress are 64-bit words and file ids 32-bit words,
-- and their sums and differences wrap around as they do in the code. boost::filesystem, the
-- reading of files and infinit::cryptography are parameters. Frete/Stored models `serialize`.
-- What is proved of Frete is in Frete/Moved, Frete/Filling, Frete/Progress, Frete/Listing,
-- Frete/Stored, Frete/Cache and Frete/Reads.
--
-- Hermes: oracles/hermes/server/src/infinit/oracles/hermes. Hermes/Chunk models Chunk.{hh,cc},
-- and Hermes/Clerk models Clerk.{hh,cc}: ident, store and fetch. The directory is a function
-- from the id and the offset of a piece to the bytes of its file. What std::ofstream does with a
-- negative count, and the bytes of a buffer that is not filled, are parameters. What is proved
-- of it is in Hermes/Upload and Hermes/Overlap.
--
-- Apertus: oracles/apertus/server/src/infinit/oracles/apertus, the relay for two clients that
-- cannot reach each other. Apertus/Greeting models what a client sends first
-- (FallbackRound::connect in fist/src/surface/gap/Rounds.cc) and what Accepter.cc reads;
-- Apertus/State models Apertus.cc and the rest of Accepter.cc: the maps of Accepters, clients
-- and transfers, and the events on which the server's threads go on; Apertus/Relay models the
-- two directions of Transfer.cc. What is proved of it is in Apertus/Ownership, Apertus/Pairing,
-- Apertus/Joining, Apertus/Relay and Apertus/Greeting.
--
-- Trophonius: oracles/trophonius/server/src/infinit/oracles/trophonius/server, the server that
-- keeps a connection to each device of the users that are online. Trophonius/User models one
-- connection of User.{hh,cc}; Trophonius/Server models the rest of User.cc, Client.cc,
-- Trophonius.cc and Meta.cc: the sets of clients, the allocated ones, and the events on which
-- the server's threads go on. The element of the container `users` is modelled with the key that
-- it was inserted with, and a login of a client that is not pending has no successor, as the
-- code then frees itself or changes a key in place. The end of the threads of a device's
-- previous connection, for which the code waits, is a part of the login's step.
-- Trophonius/Invariant shows how a property of all states follows from the changes that steps
-- are made of. What is proved of it is in Trophonius/Memory, Trophonius/Devices,
-- Trophonius/Login, Trophonius/Refusal and Trophonius/Quiet, with lemmas in Trophonius/Places.
--
-- Gap/Transferer: fist/src/surface/gap/TransferMachine.cc with PeerTransferMachine.cc and
-- PeerMachine.cc. Gap/Transferer/Table holds the states and the transitions in the order in
-- which the code adds them, Gap/Transferer/Run the barriers, the statuses, what enters and
-- leaves a state, and the step relation. What is proved of it is in Gap/Transferer/Connection
-- and Gap/Transferer/Ending.
--
-- Gap/Receive: TransactionMachine.cc, ReceiveMachine.cc and PeerReceiveMachine.cc of the same
-- directory, and on_transaction_update of Transaction.cc. Gap/Receive/Status holds the statuses,
-- Gap/Receive/Table the states and transitions, Gap/Receive/Machine the operations and the
-- steps, Gap/Receive/Restore the restart from a snapshot, Gap/Receive/Naming the names of
-- received files (`eligible_name`), Gap/Receive/Fetcher the preparation of a file and the choice
-- of the next block to ask for, and Gap/Receive/Writer the thread that writes blocks to disk
-- (`_disk_thread`). What is proved of it is in Gap/Receive/Consent, Gap/Receive/Waiting,
-- Gap/Receive/Outcome, Gap/Receive/Settled and Gap/Receive/Restore, and of the writer in
-- Gap/Receive/Received, Gap/Receive/Cut, Gap/Receive/Accepted and Gap/Receive/Finishing, of the
-- names in Gap/Receive/Placing and of the fetchers in Gap/Receive/Resuming, with lemmas in
-- Gap/Receive/Blocks, Gap/Receive/Written, Gap/Receive/Preparing and Gap/Receive/Fetching.
--
-- Gap/Send: SendMachine.cc, PeerSendMachine.cc and LinkSendMachine.cc of the same directory.
-- Gap/Send/Table holds the states and transitions of a machine for a user and of one for a link,
-- Gap/Send/Machine what the states do, Gap/Send/Steps the updates and the steps,
-- Gap/Send/Restore the restart from a snapshot; Gap/Send/Cloud models the threads of
-- `_cloud_operation` that upload blocks for a recipient who is away, and Gap/Send/Multipart
-- those of `_plain_upload` that upload one file to S3 in chunks; Gap/Send/Google models
-- `_gcs_plain_upload`, the upload to Google, whose answers are a list. What is proved of the
-- machines is in Gap/Send/Answered, Gap/Send/Payment and Gap/Send/Restore, of the uploads in
-- Gap/Send/Acknowledged, Gap/Send/Finalized and Gap/Send/Google, with lemmas in Gap/Send/Cursor,
-- Gap/Send/Claiming, Gap/Send/Workers, Gap/Send/Uploaded, Gap/Send/Parts, Gap/Send/Numbers,
-- Gap/Send/Turns, Gap/Send/Assembled, Gap/Send/Whole and Gap/Send/Kept. The threads of an upload
-- take turns where the code waits for the network, in any order; the progress of a file is what
-- its snapshot holds when the upload comes to it.
--
-- Gap/Ghost: GhostReceiveMachine.cc of the same directory. Gap/Ghost/Download models the
-- download of `_transfer`, with the server's answers a function of the attempt and of the
-- position asked for, Gap/Ghost/Machine the state that this machine adds, its updates and its
-- steps, and Gap/Ghost/Restart the restart from a snapshot. What is proved of the download is in
-- Gap/Ghost/Whole and Gap/Ghost/Complete, of the machine in Gap/Ghost/Waiting, of the restart in
-- Gap/Ghost/Restart.
--
-- Gap/Choice: the constructors of Transaction.cc, which choose the machine of a transaction,
-- with what is proved of the choice.
--
-- Gap/Buffer: `list` of S3TransferBufferer.cc of the same directory, in Gap/Buffer/Listing, with
-- the listing of a folder as a parameter. What is proved of it is in Gap/Buffer/Listed. The
-- code's loop has no bound of its own; two rounds are enough.
--
-- Station: station/src/station, the connections between two peers. Station/Negotiation models
-- `_negotiate` of Station.cc, each thread a stage and what the peer sends an event, with the
-- removal of a host; passports are numbers, and whether one is valid comes with it. What is
-- proved of it is in Station/Reached, with lemmas in Station/Alone.
--
-- reactor::fsm, which runs the machines, is not part of the repository. A step of a model may
-- take any transition whose trigger holds, whatever the order in which that library tries them,
-- and an event may come between any two steps; so a safety property of the model holds for every
-- order that the library may choose, and a liveness property says that a course exists.
--
-- The loops of the code are structural recursion; `fill`, the loop of progress_increment, runs
-- on the number of rounds that the code's own bound gives, `count()`, and `advance`, the
-- writer's loop over files that are complete, on `count()` rounds, as each round passes one
-- file; `deliver` runs on as many rounds as there are bytes wanted, each round bringing at least
-- one, and `fetch_next_file` on as many as there are files. `fetch` of Gap/Send/Multipart runs
-- on the numbers left until `chunk_count`, the bound of the code's own loop. `download` runs on
-- a number of attempts, which the code does not bound. The search of `eligible_name` for a free
-- name, which the code ends at the largest `size_t`, and the extensions of a name have bounds
-- that are arguments.
--
-- Not modelled: the walk of a sender over directories, what is written to the file of a snapshot
-- when it is saved, logging, metrics, crash reports, printing, the archives of
-- elle::serialization, the RPC and socket layers, the archives and mirrored files of a sender,
-- the queue of blocks between the fetchers and the writer, the queue of hosts that a station has
-- accepted, the clients of meta and Trophonius, and the bindings.
pub mod Base
pub mod Frete
pub mod Hermes
pub mod Apertus
pub mod Station
pub mod Trophonius
pub mod Gap
mod Examples
