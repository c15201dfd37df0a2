-- ===== src/Lib.antt =====
-- The backend of space-station: a model of the parts that carry its own logic, in shallow embedding.
--
-- The program is one server process (backend/src). Its services stand beside each other: an HTTP and
-- WebSocket front (backend/src/http) hands each request to a service, and the services share only the
-- configuration store, the log and the plugin service. So each component here is a tree of its own.
--
-- Prelude: Boolean tests, lists, results, bytes, association lists and signed integers. Dict is the
--   model of std::map and std::unordered_map: `insert` replaces, `erase` removes every entry of a
--   key.
--
-- Telnet (backend/src/telnet/telnet_session.cpp). Codec has EscapeIac, Negotiation, WindowSize,
--   Lower and EndsWithPrompt; Parser the loop of Run over the received bytes, as a fold of `step`
--   with the variables of Run as a record; Login the automatic login; Session the loop of Run, one
--   Round for each turn. A Round says what the environment does: which SendAll succeeds, what recv
--   gives, whether the browser still listens. The list of rounds bounds the loop, and every finite
--   run of the code is such a list. RoundTrip, Negotiation, Once and Delivery hold the proofs. The
--   connecting, the credential store and the thread are not modelled.
--
-- Transfer (backend/src/transfer/transfer.cpp). Checksum has WeakChecksum and the rolling update of
--   ScanCandidate with the wrap-around of std::uint32_t written out; Disk the temporary file; Scan
--   the rounds of ScanCandidate over a window size; Candidates the loops over sizes and files;
--   Manifest the tests on a "startFile" request; Receive the chunk loop; Stream `write_decoded` and,
--   in Stream/Frames, the loop over the frames of a continuous stream; HandleFile the whole of
--   HandleFile, from the request to the last answer, with what it does with any messages (Safety,
--   Content) and with those of the client (Honest); Client the side of Client::Send, from the file to the
--   messages of its missing blocks. Loops are recursions over the input that is left, but for those
--   around inflate, which have fuel: the bytes of the frame and the bytes that are expected, and two.
--   It is enough if each call of inflate uses a byte or puts one out, since no more bytes are written
--   than are expected. The fuel of BuildSignatures is the length of the file, as each turn takes a
--   byte. The directories that CandidateFiles walks, the messages' JSON and the sockets are inputs:
--   an Upload has the contents of the candidate files and the messages of the client in the order of
--   their arrival. The end of a list is the end of the connection. OpenSSL's SHA-256 and zlib's
--   uncompress, inflate and compress2 are parameters. The hypotheses on them are what they document:
--   inflate makes progress, uncompress gives back what compress2 was given, and a hash has 64
--   characters. An Upload has too whether the permissions of the destination can be set, whether the
--   rename succeeds (as on a POSIX system, where it replaces the destination), and whether the last
--   answer can be written: if not, HandleFile throws after the rename. A send that fails before ends
--   the messages. The JSON text of an announcement is its size, a parameter, with the limit of 64 MiB
--   that SendJson and ReceiveJson test. Other failures of the disk, the acknowledgements that the
--   client reads and its continuous stream are not modelled.
--
-- TransferManager (backend/src/transfer/transfer_manager.cpp, with Server::Impl::Start of
--   transfer.cpp). The manager's state and one function for each call; Reach has the steps of the
--   calls and of the threads of the jobs, each of which holds the mutex; StopServer is two steps, the
--   second of which, the call of Stop() on the server that was taken out, comes without the mutex. What the request's JSON
--   parses to, whether the server's directory and certificates can be prepared, and which ports can
--   be opened are inputs; so is what Client::Send returns or throws. A configuration is its fields
--   that are tested, the threshold being only in its range or not.
--
-- BrowserShare (backend/src/serial/browser_serial_share_service.cpp). State has Share and the two
--   maps; Publishing the methods of an owner and ListShares; Subscribing those of a viewer and of a
--   plugin, and the data in both directions. A method holds the mutex for all of its changes, so it
--   is one step. A connection is a number; what weak_ptr::lock and connected() answer are parameters,
--   which differ from step to step. Consistent is the invariant, Keeps its preservation, Reach the
--   runs, and Access the permission to write.
--
-- Authenticator (backend/src/authenticator/authenticator_service.cpp). Base32 has DecodeBase32,
--   with its 32-bit accumulator, and NormalizeSecret; Totp has GenerateTotp, with OpenSSL's HMAC as a
--   parameter; Entries what is shown of an entry, and the operations on the vault of the
--   configuration store (backend/src/config/config_store.cpp), which is a map from ids to entries,
--   whose digits and period are signed like the code's:
--   its encryption is not modelled, nor the sorting of the listing. `decimal` writes a number with at
--   most 10 digits, which is enough for the 32 bits of the code.
--
-- Serial (backend/src/serial/serial_service.cpp). Session has the options and class Session: the
--   queue, the backlog, the subscribers and the steps of the worker; Service Attach, Detach and
--   Write, with a session as a numbered object that stands under its port. Bounds has the limits,
--   Release what each operation keeps, and Reach the runs of calls and workers. What the device reads
--   and whether it can be opened are inputs.
--
-- NetworkScan (backend/src/network/network_scan_websocket.cpp). Cidr has ExpandCidr and
--   AddressScope, with addresses as numbers: inet_pton, ntohl and std::stoi are parameters, and the
--   writing of an address as text is not modelled, nor the probing.
--
-- Files (backend/src/files/file_manager_service.cpp). Disk is the file system, a map from paths to
--   nodes, with what std::filesystem and std::ofstream do to it; Names the tests of names; Paths
--   IsWithin; Copies KeepBothPath; Upload WriteUploadChunk; Transfer the copies and moves; Entries
--   the other operations. What the operating system refuses is an input of each operation (Faults,
--   Luck), with what a call that fails halfway has already done. std::filesystem::canonical is a
--   parameter that does not depend on the file system: what the links above an item lead to does not
--   change during an operation. A requested path does not end in a separator, and
--   its last name is not "." or "..". The numbers of
--   KeepBothPath have at most 4 digits, as the code counts to 9999. The listing of a folder and the
--   path of a download only read, and are not modelled.
--
-- Each component has a module Tests with its theorems at concrete inputs.
--
-- Not modelled: the SSH, SFTP and certificate services (calls of libssh2 and OpenSSL), the rest of
-- the configuration store, the plugins, the HTTP routes, the log, and the frontend.
pub mod Prelude
pub mod Telnet
pub mod BrowserShare
pub mod Transfer
pub mod Authenticator
pub mod Serial
pub mod NetworkScan
pub mod Files
pub mod TransferManager
