-- ===== src/Lib.antt =====
-- A model of Baidu Drive Mover and what holds of it.
--
-- The program moves a Baidu share to Google Drive. A scan stores a manifest of directories and
-- files; files are planned into batches, copied into a staging directory of the user's Baidu
-- drive, downloaded into a local cache, uploaded to Drive and verified there, and only then are
-- the cache file and the staging directory deleted. All of this is driven by the rows of an SQLite
-- store (internal/state): every pass reads the rows, acts, and writes the rows, so that it can be
-- stopped and started again at any point. The store is the part that decides what may be deleted.
-- Modelled here are the store, the engines that stage batches (internal/staging), upload files
-- (internal/drive) and clean up (internal/cleanup), the passes of internal/app around some of them,
-- the runner (internal/app/pipeline.go) that repeats the passes, and the retries of reads from
-- Baidu (internal/baidu/retry.go).
--
-- Base       numbers, Booleans, lists, options and results that the parts share
-- Text       Go strings as lists of bytes: equality, order, strings.TrimSpace, EqualFold
-- Path       the package path: Clean, Join, Dir, Base
-- State      internal/state:
--   Model      model.go: statuses, rows, ValidateFileTransition
--   Db         store.go: the tables, the SQL statements, transactions
--   Tasks      store.go, task_store.go, manifest_store.go: CreateTask, GetTask, ListResumableTasks,
--              HasNonCompletedTasks, CompleteTaskScan, UpdateTaskStatus, UpdateTaskExtractionCode
--   Manifest   manifest_store.go: UpsertManifestPage, ManifestStats
--   Chunks     staging_store.go, staging_bounded.go: the loops of PlanBatches, PlanBatchesBounded
--   Planning   the transactions around these loops
--   Staging    staging_store.go: StagingBatches, StartBatch, RecordStagedFiles, CompleteBatch,
--              FailBatch
--   Download   download_store.go: DownloadCandidates, StartDownload, MarkLocalReady,
--              RecordDownloadFailure, ReservedCacheBytes
--   Drive      drive_store.go: SetTaskDriveRoot, DriveDirectories, RecordDirectoryDriveID,
--              DriveUploadCandidates, StartDriveUpload, RecordDriveUploaded, MarkDriveVerified,
--              RecordDriveFailure; Verified and Left are about the rows that an upload leaves
--   Cleanup    cleanup_store.go, cleanup_actions.go, cleanup_integrity.go: the authorization of a
--              batch's deletion, the record of what was deleted, the end of the batch
--   CleanupRoot  cleanup_root.go: the same for the task's own directory
--   Progress   pipeline_store.go, query.go: PipelineProgress and its predicates (Counts, DriveWork)
--   History    any sequence of calls of the methods that write
--   Rows, Evolves, Grants, Quiet, Invert, Safety  the lemmas behind the theorems on histories
--   Transitions  the table of transitions
--   Tests      one file on its way through the pipeline, and the theorems at concrete values
-- App        internal/app:
--   Pipeline   pipeline.go: PipelineRunner.Run and fail, over the passes as functions; a runner with
--              a missing field, which Run refuses, is no value of the record (Passes: the count of
--              the passes; Honest: what Run returns; Watermark, Stops)
--   Drive      drive.go: DriveRunner.Run and fail, over the builder and the uploader of internal/drive
--              (Complete: a pass that succeeds; Tests)
--   Cleanup    cleanup.go: CleanupRunner.Run and prepareCleanupClient, over the engine of
--              internal/cleanup; the client, the cookies and the login of Baidu are functions (Safe:
--              a pass keeps what its engines keep; Tests)
--   Stage      stage.go: the check of StageRunner.Run that the pending batches keep the limits of the
--              cache and of the pass (Fits; Tests)
--   Tests      one file moved through a small world
-- Baidu      internal/baidu:
--   Retry      retry.go: IsTransient, RetryDelay, fallbackRetryDelay, retryRead
--   Remote     staging_api.go: the entries of a listing
--   Tests      scripted calls
-- World      what the engines act on: the database and all that is outside, with the driver, the
--            clock and the context; Foreign says which errors such calls return, Ran what is known
--            behind a call of the store
-- Cleanup    internal/cleanup/engine.go: Engine.Run, cleanupBatch, cleanupTaskRoot
--   Permits    what the rows must say before a path is deleted
--   Safe       the engine deletes nothing else (Guard: call by call; Batch, Root: the two deletions)
--   Done       a batch that it counts
--   Tests      one batch and the root of its task, in a small world
-- Drive      internal/drive:
--   Logical    path.go: validateLogicalPath, remotePath; remoteItem and hashValue
--   Checks     upload.go: the errors, and the tests of rows and listings
--   Upload     uploadOne, verifyPersistedRemote, listNamedFiles, verifyLocalCache
--   Run        Uploader.Run
--   Rows       what was read of a file is still in the store when it is copied
--   Guarded, Copies, Safe  a copy follows a listing without an object of the name
--   Evidence   what an upload that succeeds has seen
--   Fewer, Ends, Complete  the loop ends, and without an error leaves nothing
--   Tree       tree.go: TreeBuilder.Ensure (Listing, Safe: a folder is made behind a listing without
--              an object of the name; Tests)
--   Tests      one file uploaded in a small world
-- Stager     internal/staging/stager.go: Executor.Run, stageBatch, transferSubset, transferSplit,
--            reconcile
--   Source     sourceIDs
--   Parts      lists of files, and the pieces of a split
--   Careful, Transfers, Safe  the executor ends, and transfers nothing but files of a batch
--   Staged     a batch that it has staged
--   Tests      one file staged in a small world
--
-- A method of the store is a function from a database to a database and a result. A database is
-- the six tables, each the list of its rows in insertion order; a statement is a function over
-- such a list; a transaction is a sequence of statements that is rolled back when one of them
-- reports an error. The keys, the foreign keys and the CHECK constraints that the statements can
-- run into are part of the statements that insert. Within a method the driver is taken
-- not to fail; the engines see a driver that may refuse a call before it does anything, or report
-- a call that it has committed as failed.
-- The current time is an argument of each method, as the text that is stored. An error message is
-- a constructor that names its kind. Sizes are natural numbers below 2 ^ 63; where the code adds
-- them as int64, the sum is written with its wrap. A limit that is not positive is 0, and a size
-- that may be negative is an option. The sums of bytes in the summaries are plain numbers. SHA-256
-- is a parameter. strings.EqualFold is that of ASCII texts.
--
-- An engine is a function from a world, the database and the outside, to a world and a result; what
-- it has done before an error stays done. The file system, the Baidu client and the tests of its
-- errors are fields of the engine, about which the theorems assume nothing but what they name. Each
-- look at the context and each call of the driver acts on the outside, so that a context may end,
-- and the driver may fail, between any two calls.
--
-- The chunk loops run on fuel that is the number of files, which is enough because every turn
-- takes at least one file; that nothing is lost is part of the theorems. The pipeline runs on its
-- own bound of passes, and a read on its number of attempts. The recursion of transferSubset runs on
-- the number of its files, outside, and on the attempts that are left, inside: a split and a start
-- after progress have fewer files, and a retry fewer attempts; that this is enough is one of the
-- theorems. The loop of Uploader.Run runs on one turn more than there are files to be uploaded or
-- verified; that this is enough is a theorem too. All other loops are structural.
--
-- Not modelled: opening the database and its migrations; the HTTP clients, the scanner and the
-- parsers of internal/baidu; the download engine (internal/download); the rclone process of
-- internal/drive; the passes of internal/app for the scan and the download, and the rest of the one
-- for the staging; the portable root of internal/runtime; redaction, the browser and the command
-- line.
pub mod Base
pub mod Text
pub mod World
pub mod Cleanup
pub mod Drive
pub mod Stager
pub mod Path
pub mod State
pub mod App
pub mod Baidu
