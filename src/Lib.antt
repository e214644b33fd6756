-- ===== src/Lib.antt =====
-- Verification library of venus-sealer, the daemon that seals a storage miner's sectors, proves the
-- sealed sectors to the chain window by window, and hands the heavy tasks to workers.
--
-- The program's parts, and how they interact:
--
--   - storage-sealing/ keeps one record per sector (types/types.go) and moves it through the states
--     of types/sector_state.go. The go-statemachine library stores the record and hands batches of
--     pending events to Plan (storage-sealing/fsm.go), which applies them by the planner of the
--     sector's state and picks the handler to run next; a handler ends by sending an event again.
--     Every batch that moves a sector updates the counters of types/stats.go.
--   - storage/wdpost_changehandler.go hears of each new chain head. The prove handler starts and
--     aborts the proofs of the miner's windows and puts them in a cache; the submit handler sends
--     them to the chain from there.
--   - storage-sealing/precommit_batch.go, commit_batch.go and terminate_batch.go gather the messages
--     of sectors until there are enough of them, or until a timer fires, and send one message for
--     many sectors; the handler of a sector waits on a channel for the result.
--   - sector-storage/ runs the tasks on workers and knows where a sector's files are. Tasks take the
--     locks of sector-storage/stores/index_locks.go on the file types
--     (sector-storage/storiface/filetype.go) that they read and write. The manager gives each task
--     to a worker as a call, and the worker returns its result to the manager later, maybe after a
--     restart.
--   - Before it is sealed a sector takes the pieces of deals, each behind zero pieces that bring it
--     to its place, and then fillers; the bytes are padded to field elements as they are written.
--
-- What models what:
--
--   - Config.antt: the struct Config of storage-sealing/sealiface/config.go.
--   - Sector/State.antt, Sector/Info.antt: types/sector_state.go and the records of types/types.go.
--     A state that the source has no constant for is `other` with its name.
--   - Sector/Event.antt, Sector/Apply.antt: the events of storage-sealing/fsm_events.go, grouped as
--     there, and their apply and applyGlobal. Sector/Frame.antt says which fields no event writes. A
--     panic (a piece with no deal) is `none`.
--   - Stats.antt: SectorStats.UpdateSector of types/stats.go; Stats/Counts.antt: its counters.
--   - Fsm/Planner.antt: on, apply, onReturning, planOne, planOneOrIgnore, planCommitting, final and
--     finalRemoved. Fsm/Table.antt and its children: the map fsmPlanners, entry by entry.
--     Fsm/Dispatch.antt: plan, Plan and onUpdateSector, with the switch that picks the handler. The
--     other files of Fsm/ hold the theorems: Progress and Report on the count of processed events,
--     Keeps, StateSet, Runs and States on the states that can be reached, Removal, Recovery, Upgrade
--     and Abort on the journeys they are named for.
--   - FileType.antt: sets of file types as bit masks, All, Has, SealSpaceUse and StoreSpaceUse;
--     FileType/Bits.antt: the masks' laws; FileType/Space.antt: the space that files take.
--   - Locks.antt: sectorLock, lockWith, StorageTryLock and the release that lockWith leaves to run.
--     Locks/Compatible.antt, Locks/Holders.antt, Locks/Entries.antt: one lock against the list of
--     its holders, and the map of locks under any sequence of tries and releases.
--   - WindowPost.antt: postsCache, nextDeadline and proveHandler; WindowPost/Skip.antt and
--     WindowPost/Single.antt: its loop and the proofs that it runs. WindowPost/Submit.antt:
--     submitHandler; its children: the submissions in flight.
--   - Schedule.antt: activeResources of sector-storage/sched_resources.go (canHandleRequest, add and
--     free) and Resources.Threads of sector-storage/storiface/resources.go; Schedule/Fits.antt: the
--     tasks on a worker against what it has.
--   - Running.antt: workTracker of sector-storage/worker_tracked.go; Running/Tracked.antt: the
--     tracker against the calls taken and returned.
--   - Calls.antt: the tables of sector-storage/manager_calltracker.go and every function that
--     changes them, a step from one unlock of the mutex to the next. Calls/Delivery.antt,
--     Calls/Stray.antt, Calls/Failure.antt: a result and the one who waits for it, results that come
--     twice, work that two wait for, and a store that fails.
--   - Fr32.antt: pad and unpad of sector-storage/fr32/fr32.go on the chunks of a slice, byte by
--     byte; its children: the bits of a byte, one chunk, field elements, and whole pieces.
--   - Packing.antt: GetRequiredPadding of sector-storage/ffiwrapper/sealer_cgo.go and fillersFromRem
--     of storage-sealing/utils.go, which share a loop over the bits of a number; its children: that
--     loop, and the layout of the zero pieces. AddPiece.antt: handleAddPiece of
--     storage-sealing/input.go and the fillers that handlePacking of
--     storage-sealing/states_sealing.go computes; its children: the layout of a sector, what
--     its deals are told, and which deals are lost.
--   - DealInput.antt: updateInput of storage-sealing/input.go, which matches deals with open
--     sectors: the search for matches and the loop that assigns them; DealInput/Given.antt and
--     DealInput/Wanted.antt: where a deal goes; DealInput/Overrun.antt: the used space.
--     DealInput/Upgrade.antt: the choice of maybeUpgradeSector;
--     DealInput/Upgrade/Picked.antt: the sector that it picks.
--   - Expiration.antt: Expiration and getCCSectorLifetime of storage-sealing/precommit_policy.go;
--     Expiration/Bounds.antt: the theorem on them.
--   - Index.antt and Index/Find.antt: Index of sector-storage/stores/index.go; Index/Copies.antt and
--     Index/Declared.antt: the declarations against a map; Index/Found.antt,
--     Index/Allowed.antt, Index/Fetch.antt and Index/Fetched.antt: the paths that
--     StorageFindSector finds, which others these let fetch, and the whole answer.
--   - Batch/Queue.antt: the maps that PreCommitBatcher and CommitBatcher of
--     storage-sealing/precommit_batch.go and storage-sealing/commit_batch.go share, with batchWait;
--     its children: who is answered, what the loop over the results clears, and the timer.
--     Batch/Node.antt: what the batchers ask and send. Batch/Collateral.antt: collateralSendAmount
--     of storage-sealing/utils.go and the balance of the miner. Batch/PreCommit.antt and
--     Batch/Commit.antt: AddPreCommit, AddCommit and maybeStartBatch with all that it calls, of
--     which Batch/Aggregate.antt has the sending of commits; their children Runs, Taken and Total:
--     the callers, the sectors and the collateral; Batch/Commit/Gathered.antt: what an aggregate
--     gathers. Batch/Terminate.antt: TerminateBatcher of
--     storage-sealing/terminate_batch.go; its children: what may be declared, who is answered, and
--     what is lost.
--   - Prelude.antt passes on the library's names and holds the Boolean tests and the lists measured
--     by native numbers. Tests/ runs the models and applies each theorem at concrete inputs.
--
-- Numbers: uint64 fields and `uint` counters wrap at 2 ^ 64 where the code counts up or down (u64);
-- epochs and amounts of attoFIL are not negative; times are parameters, in Unix seconds or, in
-- Batch/, nanoseconds. Byte strings are lists of numbers, and names of storage paths and URLs are
-- numbers. A loop over a map takes its keys in an order that is an argument. A batch of events is
-- planned by structural recursion. The loops over the ones of a number count its 64 bits. The only
-- fuel is that of the prove handler's loop over proved deadlines, and more than the number of cached
-- proofs is enough. Callers hold fewer than 2 ^ 64 locks.
--
-- Pointers: a proof being generated and a tracked window are objects that results in flight refer
-- to; each has a number, and two are the same object exactly if their numbers agree. The code
-- compares pointers the same way. A mutex or a loop over a channel makes each method one step, and
-- an interleaving is a sequence of steps.
--
-- Parameters: dline.NewInfo and the constants of the miner actor (WindowPost.Network), with what is
-- documented of them as the hypothesis IsNetwork; the operations of float64 (Schedule.Floats), of
-- which nothing is assumed; the two conversions between padded and unpadded sizes of go-state-types
-- (Packing.PieceSizes), with their documented equations; the sealer's AddPiece, of which nothing is
-- assumed; the constants of the actors in Expiration.Policy, Batch.Commit.Network and
-- Batch.Terminate.Limits; the answers of the node, of the prover and of the choice of an address,
-- and the encoders, in Batch.Node.Node, Batch.PreCommit.Encoder, Batch.Aggregate.Prover and
-- Batch.Terminate.Chain, of which nothing is assumed; which URLs parse; the operations of
-- go-bitfield (Batch.Terminate.Bitfields), with what is documented of them as the hypothesis
-- IsBitfields. The store of work states is a reliable map, but where a step says that it fails.
--
-- Not modelled: the handlers of storage-sealing/states_*.go, the waiting and the timers of
-- storage-sealing/input.go, the goroutines of the message batchers with their channels, the
-- scheduler's choice of a worker and the workers themselves, the space of local paths, the readers
-- of padded streams and partial files, and the batching of partitions in storage/wdpost_run.go, each
-- of which needs a model of its own. Command lines, remote calls, database models, file transfers,
-- journals, metrics and generated encoders are input and output.
pub mod Prelude
pub mod Config
pub mod Sector
pub mod Stats
pub mod Fsm
pub mod FileType
pub mod Locks
pub mod WindowPost
pub mod Schedule
pub mod Fr32
pub mod Running
pub mod Batch
pub mod Index
pub mod Calls
pub mod Packing
pub mod AddPiece
pub mod DealInput
pub mod Expiration
mod Tests
