-- ===== src/Lib.antt =====
-- ChatWire runs a Factorio server and connects it with Discord and a web control panel. This library
-- models ten of its parts and proves what makes them correct.
--
-- * The lifecycle manager (fact/lifecycle.go), the one place that starts and stops the Factorio
--   process. Lifecycle/State.antt has its state: `Manager` is `lifecycleManager`, `Globals` the
--   variables of the packages fact and glob that it shares with older code, and `Effect` what it
--   does outside (the process, the chat, the waiting callers), kept as a list. Each handler is a
--   function on this `World`: Lifecycle/Queue.antt has the queue (`submitLifecycleRequest`,
--   `nextRequest`, `cancelPendingRequests`), Lifecycle/Events.antt the events (`handleReadyEvent`,
--   `handleExitEvent`, `handleProgressEvent`, `handleHealthEvent`, `finalizeStopped`),
--   Lifecycle/Stop.antt `executeStop` and `waitForStop`, Lifecycle/Execute.antt `executeStart` and
--   `execute`, Lifecycle/Checks.antt the checks of each round and the round, Lifecycle/Run.antt the
--   start, the stop and the inputs over time. The manager holds its lock in each step, so a run is
--   a list of inputs. The clock, the answers of the operating system and the events of a wait are
--   arguments; a wait is a list of polls, and is `waiting` where the list ends first. Of a map reset
--   the model has its error, the name of the save and the two settings that the manager shares; the
--   other settings, the archive and the votes that it clears are left out.
-- * The codec of the player database (fact/playerdb_codec.go). PlayerDb/Data.antt has the player
--   (glob/struct.go) and the errors, PlayerDb/Varint.antt the variable-length integers,
--   PlayerDb/Payload.antt the records, PlayerDb/Envelope.antt the file with its header and CRC32C.
--   Ten groups of seven bits are enough for a uint64. Zstandard and sonic's JSON are arguments.
-- * The players in memory (fact/playerDB.go). PlayerDb/Store.antt has the calls that change a
--   player and mark the change with a version, PlayerDb/Store/Changes.antt `addPlayer` and
--   `WritePlayers`, PlayerDb/Store/Loading.antt `LoadPlayers`. The write is taken in two halves, so
--   that calls may come while it runs. The codec is an argument with the law that it reads back
--   what it wrote; Go's lower case and trimming of blanks are arguments too.
--   PlayerDb/Store/OnDisk.antt puts the file's own codec in its place.
-- * The jobs of the web control panel (webcontrol/jobs.go). WebControl/Jobs.antt has `Start`, the
--   worker that it starts, `Update`, `finish` and `Lookup`, WebControl/Jobs/Restart.antt `NewJobs`;
--   the answers of the disk, `Digest` and the random tokens are arguments, and the files are the
--   last saved form of each job. The worker runs in one step: requests that come while an action runs,
--   and the `Update`s of the action, are no steps of their own. A save that fails leaves the old file;
--   that an error of the directory's `Sync` comes after the rename, with the new file in place, is left
--   out.
-- * Signing in to the panel (webapi/auth.go). WebApi/Auth.antt has `prune`, `issue`, `landing`,
--   `exchange`, `check`, `revoke` and `logout`, WebApi/Auth/Roles.antt `Config.actor` and the
--   `authorize` of webapi/server.go. `exchange` and `check` give up their lock while they ask
--   Discord; what other requests do then is an argument, and WebApi/Auth/Steps.antt has the steps
--   between two locks.
-- * Map exchange strings (fact/mapExchange.go). MapExchange/Format.antt has the binary formats as
--   data, MapExchange/Settings.antt those of the settings, MapExchange/Reader.antt the parser, and
--   MapExchange/Parse.antt `ParseMapExchangeString`.
--   Coordinates are in 1/256ths and other fractions are their bits; a JSON object is the tuple of its
--   fields. JSON, base64, zlib and the removal of white space are arguments. The theorem is about the
--   reader's errors; the tables of the fields are a transcription that no theorem pins.
-- * Mods (modupdate/util.go). ModUpdate/Versions.antt has `versionToInt`, `checkVersion` and the
--   operators of dependencies, ModUpdate/Merge.antt `MergeModLists`.
-- * Votes on the map (fact/voteMap.go). MapVotes/Votes.antt has `CheckVote` with `TallyMapVotes`
--   and `VoidAllVotes` on the votes in memory, MapVotes/Files.antt `WriteVotes` and `ReadVotes`;
--   the roles, the answers on the save and the clock are arguments, as is Go's `strings.EqualFold`.
-- * The operation that the chat is told about (fact/operation_status.go).
--   OperationStatus/State.antt has the state, the effects on the log and the chat, and the sleeping
--   goroutines; OperationStatus/Calls.antt has each call and what each goroutine does when it goes
--   on, OperationStatus/Steps.antt any of them in any order. Discord's answers and Go's
--   `strings.TrimSpace` are arguments.
-- * Updates of the game (factUpdater/). FactUpdater/Versions.antt has `parseVersionString`, the
--   comparison and `GetFactorioVersion`, FactUpdater/Package.antt `fullPackage` with `getSHA256`
--   and `checkFullPackage`, and what is done to the files as a list, FactUpdater/Latest.antt
--   `quickLatest` and `doQuickLatest`. HTTP, JSON, SHA-256, xz, the reader of tar files and the
--   game's output are arguments.
--
-- The theorems stand in the other modules of each part; Examples.antt runs the code at concrete inputs.
-- Common.antt has what the parts share: tests on numbers, lists, maps as association
-- lists, and decimal numbers as Go reads and prints them.
--
-- Not modelled: the hand-over of events between goroutines, the texts of notices, file and process
-- calls, and the other packages (the handlers of the web server, the downloads of mods, map resets,
-- chat commands).
pub mod Common
pub mod Lifecycle
pub mod PlayerDb
pub mod WebControl
pub mod MapExchange
pub mod WebApi
pub mod ModUpdate
pub mod MapVotes
pub mod OperationStatus
pub mod FactUpdater
pub mod Examples
