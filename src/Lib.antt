-- ===== src/Lib.antt =====
-- LabRemote: a desktop client for SSH with an optional SoftEther tunnel that lives in its own
-- process, and an MCP server for it. This library models the core of its Go code.
--
-- The parts, and how they work together:
-- - A profile (internal/model/profile.go) names an SSH server and, if its mode is the isolated
--   tunnel, a SoftEther server. The repository (internal/profile/json_repository.go) keeps the
--   profiles in a file.
-- - The tunnel manager (internal/vpn/isolated_manager.go) opens a SoftEther session
--   (internal/softether/protocol.go), puts a link (internal/softether/link.go) on it and publishes a status
--   (internal/vpn/state_machine.go). It is also the way to dial a profile's SSH server.
-- - The session's handshake sends containers (internal/softether/pack.go) and a password digest
--   (internal/softether/sha0.go); afterwards the session carries Ethernet frames both ways.
-- - The SSH side checks the server's key against the trusted ones
--   (internal/sshclient/known_hosts.go), keeps what a terminal printed in a ring buffer
--   (internal/sshclient/ring_buffer.go), and uploads files over SFTP with many requests in flight
--   (internal/sshclient/upload.go).
-- - The MCP server (internal/mcpserver/auth.go) lets local callers with the token in, at a
--   limited rate, and asks the profile's policy (internal/policy/mcp_policy.go) before each kind
--   of tool.
--
-- The files:
-- - Common: the shared names; Common/Tests, Common/Lists, Common/ByteStrings (big-endian integers
--   and io.ReadFull), Common/Results (values or errors), Common/Maps (Go maps), Common/Texts (the
--   functions of strings that the code calls), Common/Paths (path.Clean, Join and Dir, %x and %d),
--   Common/Base64, Common/Actions (actions on a state that may fail).
-- - Model/Errors: NewAppError. Model/Files: what may fail when a settings file is read or
--   replaced. Model/Addresses: net.ParseIP. Model/Profiles: ConnectionProfile, Validate,
--   validHost, EffectiveConnectionMode, EffectiveAuthMethod, UsesIsolatedTunnel.
-- - Ssh/Connection: Connect, invalidateClient, invalidateClientIf and watchClient
--   (internal/sshclient/manager.go), cut where they wait, as events in any order; keepClientAlive and
--   sessionRequest (internal/sshclient/connection_health.go) are the events that evict a client.
-- - Ssh/Sftp: the SFTP client that the code calls, a record of operations with its laws; Ssh/Actions:
--   the calls of it as actions. Ssh/Commit: uploadFile, resumableUploadPath, localFileFingerprint,
--   cleanStaleUploadParts. Ssh/RemoteRoot: prepareRemoteRoot and preflightUpload. Ssh/SpeedMeter:
--   uploadSpeedMeter. Ssh/Jobs: StartUpload, UploadStatus, ActiveUploadCount, CancelUpload,
--   CancelProfileUploads, CancelAllUploads, updateUpload, finishUpload; Ssh/Jobs/Runs: runUpload as
--   the sequence of its updates, and expireUpload.
-- - Profile/Repository: List, Get, Upsert, Delete, read and write of JSONRepository.
-- - SoftEther/Pack: the elements and their accessors; SoftEther/Pack/Codec: marshal and
--   unmarshalPack. SoftEther/Sha0: newSHA0, write, sum and transform. SoftEther/Session: Send,
--   writeLoop, readLoop, stop, writeFrameBatch, writeKeepAlive, randomSize. SoftEther/Handshake:
--   openStream, verifyCertificateName, sendHTTP, receiveHTTPPack and exchangePack;
--   SoftEther/Handshake/Login: Open, EnumerateHubs, exchangeSignature, login and what it sends.
--   SoftEther/Link: handleInbound, handleARP, sendIPv4, buildARPRequest and sameSubnet.
--   SoftEther/Dhcp: checksum, buildDHCPFrame and parseDHCPFrame; SoftEther/Dhcp/Leasing: waitDHCP and
--   acquireDHCP.
--   SoftEther/Dialing: DialContext and validateIPv4Route of a link, lookupIPv4 and tunnelDNSServers
--   (internal/softether/resolver.go).
-- - Ssh/KnownHosts: Callback, AcceptPending, Lookup, Store and Remove. Ssh/RingBuffer: Append,
--   Close and Read. Ssh/Upload: writeUploadFileWithConcurrency and uploadRequestConcurrency. Ssh/UploadPlan: addUploadEntry.
-- - Vpn/States: Set, Update, Get, validTransition. Vpn/Isolated: Connect, Disconnect, watch and
--   connectionError, cut where they hold the lock or wait for the network; Vpn/Isolated/Events
--   puts the pieces together as events in any order. Vpn/Access: DialContext, AcceptCertificate,
--   Status.
-- - Mcp/Policy: the six checks. Mcp/Auth: rateLimiter, securityMiddleware and itoa.
-- The modules below these hold their lemmas, and Tests the runs and the examples.
--
-- How the code is rendered:
-- - A method becomes a function from the state to the state and its result. Where a mutex is left
--   in between, the pieces are separate functions, and an event list says in which order they
--   run.
-- - uint32, uint64 and byte values keep their wrap-around; sizes, offsets and times, which stay
--   far below 2^63, are plain numbers, and a time is an argument of the function that reads the
--   clock.
-- - A wait is an argument: the reader of the ring buffer is handed the list of its wake-ups, a
--   worker of an upload the outcome of its read and write, an operation on a settings file the
--   failures of the disk, and a turn of writeLoop whether its writes fail, after how many bytes of
--   the block, and whether the session was stopped in between.
-- - Loops are structural, or run on fuel: the options of DHCP have the length of the payload, the
--   carry of a checksum two turns, SHA-0's padding has 64 rounds of fuel, readLoop as much
--   as the length of its stream, the upload's inner loop the number of chunks, itoa its 20
--   digits (%d too, enough below 10^20), and an IPv6 address its eight groups, each as much as the
--   loop in the code can turn.
-- - A random byte string is a function that the caller passes in.
--
-- Parameters: the case folding of strings.EqualFold for the names of profiles and the lower-
-- casing of an Origin's host, tables of Unicode. In containers names are compared with ASCII case
-- folding. SHA-256; the floating-point quotient of the speed meter; the SFTP server, which may fail
-- at any call but keeps the laws of its record; the watermark, the name of the architecture and
-- strings.ToUpper of the handshake; net.ParseIP and net.SplitHostPort where a link dials, and what
-- the resolver and the user-space network answer; the peer of the handshake, that is what TCP, TLS,
-- X.509 and HTTP answer.
--
-- Not modelled: the deadlines and the cancellation of a handshake; the loops of a link, its stop and
-- its user-space network; the scan of the local paths of an upload and its events; downloads,
-- terminals and commands of an SSH connection, and its handshake; the browser proxy; connection
-- bundles and the application service; the tools, guide and port recovery of the MCP server; the
-- operating systems' credential stores and the Windows RAS manager; JSON texts, messages for
-- display, logging, and the user interface.
pub mod Common
pub mod Mcp
pub mod Model
pub mod Profile
pub mod SoftEther
pub mod Ssh
pub mod Vpn
