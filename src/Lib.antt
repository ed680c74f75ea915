-- ===== src/Lib.antt =====
-- eip-toolkit: models and theorems for the Go packages of the repository.
--
-- The packages share no code. The log filter is the largest: a runner restarts tasks, a task loops
-- over sync rounds, and a round asks the node for logs, holds them in a pool until they are
-- confirmed, hands them to a handler and saves a checkpoint.
--
-- Log filter (go/logfilter/logfilter.go), in LogFilter and its children:
--   LogFilter/Log.antt        `LogResult`, `uniqueKey`, the removal of duplicates in a batch
--   LogFilter/Pool.antt       the interface `PendingPool` as a record, and the laws of its operations
--   LogFilter/Memory.antt     `BlockPendingPool`; Memory/ is about the laws of the interface
--   LogFilter/Redis.antt      `RedisPendingPool` over a key-value store, a set and a pipeline;
--                             Redis/Interface.antt is about the interface's laws
--   LogFilter/Handlers.antt   the batch handlers: none, SQL and Kafka; Handlers/Table.antt is the
--                             table of the SQL statement as rows
--   LogFilter/Errors.antt     `IsRateLimitOrRangeErr`
--   LogFilter/Semaphore.antt  `RPCSemaphore`
--   LogFilter/Task.antt       `LogTask.RunOnce` over any pool
--   LogFilter/TaskLoop.antt   `LogTask.TaskLoop` around `RunOnce`
--   LogFilter/Runner.antt     the goroutine of `TaskRunner.RunAll`; Runner/System.antt has all of
--                             them as interleaved steps over shared semaphores and gauges
--   LogFilter/Rpc.antt        `RealRPC`: options, retries, `fetchRawLogs`
--   LogFilter/Checkpoint.antt the three checkpoint stores, and the start block of main.go
--   LogFilter/Config.antt     `env`, `envUint64`, `fileCheckpoint` and the set-up in `main`
--                             (go/logfilter/main.go)
--   LogFilter/Shutdown.antt   `NewShutdownContext`: the context, the stop channel, the goroutine
-- Bridge relayer (go/bridge/relayer.go), in Bridge: `New`, `Run`, `handleDeposit`, `handleBurn`.
-- Base fee (go/eip1559/basefee.go), in BaseFee: `CalcNextBaseFee` on integers.
-- Merkle tree (go/merkle/merkle.go), in Merkle: `HashPair`, `BuildMerkleTree`, `GetProof`,
-- `VerifyMerkleProof`.
-- Bytecode patch (go/scdo/bytecode.go), in Scdo/Bytecode: `PatchBytecodeForV1`,
-- `PatchBytecodeHex`, `CountRevertOpcodes`.
-- Transactions (go/scdo/tx.go), in Scdo/Tx: `SendTx` and `DeployContract`, with the placeholder of
-- `SignTransaction` (go/scdo/wallet.go).
-- Client of a node (go/scdo/client.go, go/scdo/jsonrpc.go), in Scdo/Client: `callContext` and the
-- methods; Scdo/BigInt has `HexBig` (go/scdo/hex.go) and the texts of math/big.
-- Prelude, Hex, Dict, Decimal and Strings hold what these share: numbers, lists, Go errors and
-- strings, encoding/hex, maps with uint64 keys, decimal text, and the package strings.
--
-- State is a record that is passed along, a method is one function of it, and an error is a value
-- of `GoError`, whose `wrap` is `fmt.Errorf` with `%w`. What stands outside, the node, the handler,
-- the context, Redis, the sponge of SHA-3, is an argument, which answers by the number of the round
-- or of the attempt, or one input for each turn of a loop.
-- A uint64 wraps where the code computes with it.
--
-- Loops: `RunOnce` and the two loops over tree levels run on fuel. For `RunOnce` one round for each
-- block up to the head and one for each step down of the batch size are enough; for a tree the
-- number of leaves is. `TaskLoop`, `RunAll` and the relayer run until they are cancelled, so they
-- are functions of the list of turns that they have had. Retries recurse on the attempts left.
-- Decimal print runs on 20 digits, which are enough for 64 bits, and print of a big integer, decimal
-- or hexadecimal, on the number itself.
--
-- Not modelled: the metrics and their HTTP server, which are third-party calls; the address and the
-- key of the SCDO wallet, which are go-ethereum's; mutexes (each method is one step); the Solidity
-- contracts, scripts and web page, which are other languages.
pub mod Prelude
pub mod Hex
pub mod Dict
pub mod Decimal
pub mod Strings
pub mod LogFilter
pub mod Bridge
pub mod BaseFee
pub mod Merkle
pub mod Scdo
