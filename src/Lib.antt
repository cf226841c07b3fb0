-- ===== src/Lib.antt =====
-- The fos-next agent (agent/): the program that a machine boots from the network, and that images the
-- machine's disk under orders of the FOG Next server.
--
-- The agent reads the server's address from the kernel command line, brings the network up, and asks the
-- server what to do (a handshake). It then registers the machine, deploys an image to the disk, captures
-- the disk as an image, wipes it, or opens a shell, and reports what came of it. It works through
-- programs such as partclone, sgdisk, sfdisk, blkid and shred, and through HTTP.
--
-- World.antt is what the agent meets: subprocesses, files, time and the server. Every call is an event of
-- a history, newest first, and every answer is a function of the history before it, which the parameter
-- `Env` gives; a theorem that takes an `Env` holds whatever the world answers. An action is a function of
-- the history that returns a value or a Go error, as text. What a failed action did stays in the history.
--
-- The files and the code they model:
--   Cmdline        agent/internal/cmdline/cmdline.go: `Parse`, `ParseString`
--   Netup          agent/internal/netup/netup.go: `ListNICs`, `BringUp`
--   Inventory      agent/internal/inventory/inventory.go: `Collect`
--   Disk           agent/internal/disk/disk.go: `List`, `Primary`, `PartitionDevice`, `DiscoverPartitions`
--   Partition      agent/internal/partition/partition.go: `Backup`, `Restore`, `ExpandLast`, `Wipe`
--   Imaging        agent/internal/imaging/imaging.go: `Restore`, `Clone`, `Shrink`, `Expand`, `CleanNTFS`,
--                  `IsBitlockerEncrypted`; Imaging/Status has the status file's parser
--   Api            agent/internal/api/client.go: the requests, `post` and `doPost`
--   Api/Logs       agent/internal/api/loghandler.go: `Handle`, `flush`, `SetClient` on a buffer as a list;
--                  Api/Logs/Shared has them on Go slices in a heap of arrays (Api/Logs/Slices), with
--                  `WithAttrs` and `WithGroup`, Api/Logs/Entry `recordToEntry`, Api/Logs/Forward the
--                  requests of `flush` and `drainLoop`
--   Actions        agent/internal/actions/actions.go and sys.go: `Dispatch`, `Register`, `Wipe`, `Debug`;
--                  Actions/Deploy and Actions/Capture have the other two actions, Actions/Parts their reports,
--                  Actions/Display the `ProgressDisplay` and Actions/ByteReader `bytesReader`;
--                  Actions/RoundTrip and Actions/Success put a capture and a deploy in sequence
--   Boot           agent/cmd/fos-agent/main.go: `main`, `setupLogging`, `reorder`, and how the handshake
--                  connects the log handler
--   Wire           the types of the JSON messages
--   Prelude, Strings, Strconv, Base64
--                  what the code uses of Go's standard library and of the language
-- The modules below these hold lemmas and theorems and are named for what they are about; Tests runs the
-- theorems in concrete worlds.
--
-- How the model differs from the code:
--   - Each early `return reportFail(...)` raises its message, and the end of the action reports it.
--   - A goroutine that polls a status file is run between the start and the end of its subprocess, for as
--     many rounds as the environment says. A clone is run in front of the upload of its output, and an
--     error of it breaks the body of the upload off. The udhcpc goroutines are run for their start.
--   - The log handler's operations are atomic, as its lock makes them, and are studied by themselves: log
--     traffic is no part of an action's history. Api/Logs/Runs interleaves records, ticks and the
--     connection; the drain loop of Api/Logs/Forward runs by itself, with no record between its ticks.
--   - What the terminal shows is no part of an action's history either: the progress display is modelled by
--     itself, and its panic is no outcome of an action.
--   - The path /dev/stderr stands for `os.Stderr` among the writers of the log.
--   - `append` allocates an array of a size that a parameter gives, larger than the one before.
--   - Strings are lists of bytes, and case and space are those of ASCII. encoding/json and
--     strconv.ParseFloat are parameters of `Env`. A URL that does not parse is a request that fails.
--   - A pointer is an `Option`; reading through that of a `Collect` that failed is the outcome `panicked`.
--   - A shell that `Debug` starts replaces the process; the model counts that as its return.
--
-- Between a capture and a deploy stands the server, which is no part of the repository. Of it the theorems
-- on both assume one thing: a download that it answers with a status of success is the last upload of that
-- part, unless it breaks off. It may fail or refuse any request. Of partclone they assume that it reads all
-- of its input.
--
-- Bounds. `post` has five rounds of fuel, and its fifth failure returns. `BringUp` has 360 rounds of half
-- a second, the deadline of three minutes that `main` sets. The attempt loop has its three rounds, and the
-- probe of partitions its 128 numbers. The drain loop, which never ends, runs for the number of ticks that
-- a theorem names. All else is recursion on the data.
--
-- Not modelled: agent/internal/version, the signal handler, what the delegate of the log handler prints,
-- the log lines themselves, the debug banner, the build scripts and buildroot/.
pub mod Prelude
pub mod Strings
pub mod Strconv
pub mod Wire
pub mod World
pub mod Cmdline
pub mod Disk
pub mod Base64
pub mod Partition
pub mod Imaging
pub mod Netup
pub mod Inventory
pub mod Actions
pub mod Boot
pub mod Api
pub mod Tests
