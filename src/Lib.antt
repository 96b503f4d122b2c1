-- ===== src/Lib.antt =====
-- Verification of go-imapgrab (directories core and cli), a program that downloads the emails of an
-- IMAP server that it has not downloaded before to maildirs, and serves maildirs as a local read-only
-- IMAP server.
--
-- The program. For each folder `DownloadFolder` (core/core.go) selects, `downloadMissingEmailsToFolder`
-- (core/download.go) reads the oldmail file, which records the emails that were delivered before, asks
-- the server for the UIDs of all emails, computes which are missing (core/ids.go), and runs a pipeline
-- of three goroutines: retrieval (core/imap_client.go), delivery to the maildir (core/deliver.go,
-- core/email.go, core/maildir.go), and the writing of a record for each delivered email
-- (core/oldmail.go). A record is handed on only when its email is on disk.
--
-- The modules, and the code they model:
--   Oldmail            core/oldmail.go: `oldmail`, `readOldmail` (read_oldmail, parse_oldmails,
--                      read_lines, parse_line). Oldmail.Writeout: `streamingOldmailWriteout`.
--   Decimal            the decimal numbers of `Sprintf` and `Sscanf` in these files.
--   OrderedSet         core/ordered_set.go.
--   Folder             core/folder.go: `expandFolders`.
--   Ids                core/ids.go: `determineMissingUIDs`.
--   Partition          core/core.go: `partitionFolders`, `intToUint32`.
--   Email              core/email.go: the content of an email, from the fields of a reply.
--   UniqueName         core/maildir.go: `newUniqueName`; core/threading.go: the counter.
--   Paths              core/maildir_path.go, with filepath.Clean and filepath.Join.
--   Maildir            core/maildir.go: `deliverMessage`; core/fs.go: `errorIfExists`.
--   Download           core/download.go, with Download.Retrieval (core/imap_client.go),
--                      Download.Delivery (core/deliver.go) and Download.Folder (core/maildir.go:
--                      `initMaildir`).
--                      Download.Fetching: the two goroutines of `streamingRetrieval`, interleaved.
--                      Download.Pipeline: the three goroutines of the pipeline, interleaved, with
--                      their channels and wait groups.
--   Disk               core/fs.go, and `initMaildir` of core/maildir.go over a tree of directories and
--                      files.
--   Connection         core/imap_client.go: `newImapClient`, `authenticateClient`.
--   Cache              core/srvbackend_message.go: the memory of the local server. Cache.Locks: its
--                      two kinds of locks, with any number of threads.
--   Server             core/srvbackend.go, core/srvbackend_user.go, core/srvbackend_mailbox.go.
--                      Server.Requests: all requests of a client, over the memory of Cache.
--                      Server.Serving: `ServeMaildir` (core/core.go), its two goroutines.
--   Threading          core/interrupt.go, and the errors of core/threading.go.
--   Imapgrab           core/core.go: `Imapgrabber`, `TryConnect`, `GetAllFolders`. Imapgrab.Threads:
--                      `DownloadFolder`, its main thread and its download threads.
--                      Imapgrab.FolderList: `getFolderList` (core/imap_client.go), its two goroutines.
--   Cli                directory cli: Cli.Root (cli/root.go), Cli.Quote (cli/login.go), Cli.Keyring
--                      (cli/keyring.go), Cli.Lock (cli/lock.go), Cli.Commands (cli/download.go,
--                      cli/serve.go, cli/list.go, cli/login.go), over the interfaces `coreOps` and
--                      `keyringOps`.
--   Base, Sort         what the modules share: tests, equality, lists and texts over the native
--                      numbers; insertion sort.
--   Examples           the theorems at concrete inputs, and tests of the definitions.
-- The modules below each of these hold its proofs.
--
-- How the code is modelled. A string is a list of bytes, Go's `int` an integer over the native numbers
-- (the bounds of 64 and 32 bits are written out where the code meets them: `in_int64`, `int_to_uint32`).
-- An `error` is a value of a data type; a panic is `none` or an answer of its own. A map is a list of
-- entries or a function, and where Go leaves the order of a map open the order is a parameter
-- (`Iteration`). Files and directories are maps from names to contents. What the operating system, the
-- clock, the random source and the server answer is a parameter, with every failure that the code
-- handles: `Answers`, `WriteAnswer`, `InitAnswers`, `Moment`, `World`.
--
-- Bounds. The only fuel is that of `digits_fuel`, which gets the number itself, and a number has no more
-- digits than that. A line of the scanner is shorter than `max_token` (bufio.MaxScanTokenSize).
--
-- The goroutines of a download are linked by channels with one sender and one receiver each, and each
-- keeps its own state: Download runs them one after the other, Download.Pipeline has them as a step
-- relation, with the failure to open the oldmail file left out, and Download.Fetching the two of the
-- retrieval as a step relation. A loop that polls for an interrupt is a list of what each round
-- sees (`Poll`). Calls under a lock are single steps; Threading.Signals has the steps of an interrupter
-- as a relation, Cli.Lock those of processes that share the lock file, Cache.Locks those of threads
-- that fill messages, Server.Serving those of `ServeMaildir`, and Imapgrab.FolderList those of
-- `getFolderList`. The threads of `DownloadFolder` are interleaved: Imapgrab.Threads has their steps
-- and runs as relations, and leaves open how each login, logout and download of a folder ends and when
-- signals come.
--
-- Not modelled: the parsing of flags (the library cobra), the prompt for the password, the keyring and
-- the file lock themselves (libraries), logging, the IMAP protocol and TLS (the library go-imap).
pub mod Base
pub mod Sort
pub mod Decimal
pub mod Oldmail
pub mod OrderedSet
pub mod Folder
pub mod Ids
pub mod Partition
pub mod Email
pub mod UniqueName
pub mod Maildir
pub mod Paths
pub mod Download
pub mod Disk
pub mod Connection
pub mod Cache
pub mod Server
pub mod Threading
pub mod Imapgrab
pub mod Cli
pub mod Examples
