-- ===== src/Lib.antt =====
-- Verification library of the cross chain bridge.
--
-- The program moves tokens between a source and a destination chain. A swap is registered with the
-- transaction that pays in (mongodb/api.go), verified on its chain (worker/verify.go), given a swap
-- result, and paid out on the other chain by a transaction that the signers build, sign and send
-- (worker/swap.go, worker/common.go). An administrator releases big values, verifies again, fails by
-- hand and pays out again (mongodb/adminapi.go). The jobs run beside each other and meet in the
-- database. Three writes of package mongodb read before they write under a lock (updateSwapStatus to
-- TxNotStable, updateSwapResult with a nonce or with MatchTxNotStable, the updates of the old
-- transactions). Here every call of the package is its reads and writes in order, with no other call
-- between them; for UpdateLatestSwapNonce, which takes no lock, Mongodb/Histories/Nonces also has two
-- calls meet.
--
-- The files, by the part of the program:
--   Common            Go's strings, integers (math/big) and error results; lists and tests.
--   Tokens/Errors     the error values of tokens/errors.go, mongodb/errors.go and worker, errors.Is.
--   Tokens/Types      tokens/types.go, and what is read of tokens/config.go, tokens/pairsconfig.go.
--   Tokens/SwapValue  CalcSwappedValue and ConvertTokenValue of tokens/base.go.
--   Platform          the state of the process; the database driver, the clock and the bridges as
--                     parameters (tokens/interfaces.go); Frame: what a function may change;
--                     Memory: a database in memory.
--   Mongodb           Status, Documents, Access (errors and searches), Swaps (the register), Results,
--                     Histories (history, nonces, r values), Blacklist, Reswap and Admin.
--   Worker            Updates (writes of the jobs), Verify, Cache, Prevent (preventReswap), Channels
--                     (the task channels), Send, Swap (processSwap and doSwap), Stable (the job of
--                     worker/stable.go), Replace (worker/replaceswap.go, worker/replace.go), Accept
--                     (worker/accept.go, worker/acceptdb.go) and Maintenance (worker/checkfailedswap.go,
--                     worker/passbigvalue.go).
--   Scan              Cached (tokens/tools/cachedscantxs.go, cachedscanblocks.go), Register
--                     (tokens/tools/swaptools.go) and History (the jobs of
--                     tokens/btc/scanswaphistory.go).
--   Bitcoin           Electrs (tokens/btc/electrs/types.go), Memo, Received, Deposit and Scanned
--                     (deposits: tokens/btc/verifytx.go, verifyp2shtx.go, processtx.go), Unsigned,
--                     Select and Raw (payments: tokens/btc/buildtx.go).
--   Abi               Bytes (common/utils.go, common/bytes.go), Pack and Parse (tokens/eth/abicoder),
--                     Swapout and Logs (the logs of tokens/eth/verifyswapouttx.go).
--   Tests             the theorems at concrete swaps.
--
-- A function with an error result is an action `M p A` of Common/Exec: it takes the state `World` and
-- gives a result (a value, an error, or a run-time panic) beside the state that it leaves, so what
-- was written before an error stays written. The names are those of the source in snake case; the
-- Boolean `is_swapin` selects the direction where the source has a function for each, and `is_src`
-- the chain. `World.sent` lists the calls of SendTransaction and `World.send_loops` the
-- starts of sendTxLoopUntilSuccess, whose goroutine is `send_tx_loop`; no code reads them.
--
-- The driver of the database is an interface (Platform/Database) whose laws are that a write of one
-- document is made whole or not at all. The bridges are functions of an environment that may answer
-- anything at each call; where a theorem asks more of them, a hypothesis says so. Sending again until
-- success (sendTxLoopUntilSuccess) takes a number of rounds; all other loops run over what they are
-- given, and the loop of NewUnsignedTransaction has one round more than the bound on the amounts, since
-- the fee grows in each round. Texts are ASCII. The numbers of math/big, heights and times are natural
-- numbers and integers without bounds; a nonce, a value of an output, an amount (int64) and a position
-- in encoded data wrap round at their width.
--
-- Not modelled: the loops that start the jobs and sleep, the queue of replacements (worker/replace.go),
-- the record that a signer keeps of what it accepted (AddAcceptRecord of worker/acceptdb.go), what the
-- bridges do beside the files above (tokens/btc, tokens/eth and others), the servers and tools, and
-- the copies of libraries.
pub mod Common
pub mod Tokens
pub mod Platform
pub mod Mongodb
pub mod Worker
pub mod Scan
pub mod Bitcoin
pub mod Abi
pub mod Tests
