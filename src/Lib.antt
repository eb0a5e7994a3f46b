-- ===== src/Lib.antt =====
-- The desktop gateway: the DHCP package (internal/dhcp), which gives addresses to the devices of a
-- household network and tells them which resolver to ask, the choice of the addresses it gives
-- (internal/app), the table of the devices (internal/device), and what turns a Linux machine into a
-- gateway and back (internal/gateway).
--
-- Parts. A datagram comes to the server (server.go), which decodes it into a message (message.go)
-- with its list of options (option.go). The type of the message selects a handler, the handler
-- calls the lease pool (pool.go), and the reply is filled from the configuration, encoded and sent
-- to a destination that the message determines. Only the pool and the counters are kept from one
-- message to the next. The hook of the pool tells the device table of every lease, and the table gives
-- each DNS query the identity of the device at its address. The gateway chooses the interfaces, gives
-- the machine its address, writes the firewall rules and starts the access point; it records each
-- step in a journal before it takes it, so that it, or a later process, can undo what has landed.
--
-- Files.
--   Common    lists, tests, maps and results: Go's slices, comparisons, maps and error returns. A
--             map is an association list; a byte is a number; a call that fails returns its error.
--   Net       the part of net/netip that the package uses. An IPv4 address is its 32-bit number.
--   Text      UTF-8 and strings.TrimSpace, for the names of clients.
--   Dhcp/Types, Dhcp/Options       types.go and option.go: Get, Set, the typed readers and writers;
--             Options/Wire has appendTo and parseOptions; Options/Laws, Options/Durations and the
--             modules below Options/Wire have the proofs.
--   Dhcp/Message       message.go: Unpack and Pack; Message/Fields has ClientKey, RequestKind,
--             MaxSize and Reply, Message/Names has SanitiseName, decodeDNSName and HostName;
--             Message/Layout and Message/RoundTrip prove the round trip, Message/Clean the names.
--   Dhcp/Pool          pool.go: the state and the operations under the lock; Pool/Alloc has Offer and
--             Commit, Pool/Return has Release, Decline and Free, Pool/Query has Lookup, LookupAddr,
--             Leases and Stats, Pool/New has NewPool and reserve, and Pool/Run has histories of
--             calls. Pool/Invariant says which pools are well-formed; Located, Preserve, Start,
--             Made, Range, Safety, Choice, Pointers, Keeping, Bindings, Others, Reservations,
--             Reserved and Takeover prove.
--   Dhcp/Server        server.go: NewServer and the destinations; Server/Handle has Handle and the
--             handlers, Server/Fill has fill and the encoders, Server/Wire has serveOne and the loop
--             of Serve; Read, Answers, Refusals, Leases, Silence, Times, Search
--             and History prove.
--   Dhcp/Tests         runs on concrete pools, messages and servers.
--   Device             internal/device/device.go: the state; Device/Locked has what runs under the
--             lock, Device/Observe has Identify, the learner and ObserveLease, Device/Edit the edits
--             and Merge, Device/Saved has Snapshot and Restore, and Device/Restart the way of the
--             table through its file (internal/app/app.go). Device/Invariant says which tables are
--             well-formed; Owned, Writes, Removal, Learning, Editing, Restoring, Merging, Moved,
--             Merged, MergeLoss and History prove it of every call, Identity, Decisions, Lasting
--             and Kept the rest; Device/Tests has runs.
--   Gateway            internal/gateway/gateway.go: the configuration with its checks, capabilities, and
--             the choice of interfaces; Gateway/Nftables has the scripts of nftables/nftables.go.
--             Gateway/Linux is linux_session.go: the journal and the commands, Linux/Session has
--             bringUp, Linux/Undo tearDown and Reconcile, Linux/Start Start and Capabilities, and
--             Linux/Live the calls of a running session. Linux/Laws says what the commands do, and
--             Covered, BringUp, Record, Settled, Restores and Agree prove; Gateway/Printed has the
--             texts of addresses read back, Gateway/Valid, Gateway/Selection and Gateway/Admission
--             have what Start lets through, and Gateway/Tests has runs.
--   App                internal/app/gateway.go: poolRange, which picks the range that the pool is
--             made for; App/Bounds proves and App/Tests has its runs.
--
-- Correspondence. Every method of the pool holds the pool's lock from its first to its last access,
-- so threads see the pool change by whole calls, and a history is a list of calls with a reading of
-- the clock each. A time is a number of nanoseconds, 0 for the zero time. The pointers of byKey are
-- addresses of entries, since no entry is ever moved or deleted. A message is handled with two
-- readings of the clock, as at most two calls of the pool read it. The leases that the hook OnBound
-- gets are kept in the server. Parameters: the text that package fmt makes of an error, and whether
-- the socket takes a datagram. A process that brings a gateway up writes to the disk and runs commands
-- one by one; it may be killed before any of them, and a write or command may fail. What a command
-- does to the machine is a parameter, with its documented effects in Linux/Laws, and so are what the
-- probes find and how package hostapd prints a configuration.
--
-- Fuel. The loop of parseOptions and that of splitLabels take a byte at least in each round and
-- have the length of their input as fuel; appendTo takes 255 bytes in each round but the last.
--
-- Not modelled: the log; the String methods, which the log and the user interface print; Close and
-- Shutdown, which stop the loops; the recover around Handle, as nothing here panics. Of the
-- gateway, the listing of the interfaces (interfaces.go), gateway_linux.go, which runs the commands, the
-- other platforms, hostapd and winnet. Of the rest of the program, the rest of the application
-- (internal/app), the user interface (internal/ui) and the command (cmd) are not part of this library.
pub mod Common
pub mod Net
pub mod Text
pub mod Dhcp
pub mod App
pub mod Device
pub mod Gateway
