-- ===== src/Lib.antt =====
-- PVM: a container manager for User-Mode Linux sandboxes. This library models the core logic of its
-- control plane, which is in Go, and proves what makes it correct.
--
-- How the parts interact. A task has a life cycle (State) and is paused
-- when it is idle (Lifecycle). Its agent calls tools through a gateway
-- (Policy), which applies rules, asks for approval (Approval) and writes redacted rows to a ledger
-- (Audit). Sandboxes come from a pool with quotas per tenant (Pool); each has an address on a bridge
-- (Network) and a range of host uids (UidAlloc). The stores are JSON files (Fsjson). An agent holds a
-- signed lease on its identity (Identity), which the controller of incidents revokes when it contains a
-- sandbox (Incident). A sandbox's disk is a vhost-user device over the guest's memory (Vhost), and a
-- bundle of artifacts leaves it only through the release gate (Artifact). The image of the disk is a qcow2
-- file (Cow).
--
-- Which file models what:
--   Fsjson: internal/fsjson/fsjson.go, `Write`.
--   State/Fsm: internal/state/manager.go, `Transition`, `canTransition`, `Terminal`.
--   Audit/Record, Audit/Ledger: internal/audit/ledger.go, `Record`, `Append`, `refreshTailLocked`,
--     `flushHead`, `Verify`; Audit/Writers: several `Ledger` handles on one file. Audit/Redact:
--     internal/audit/redact.go, `ScrubValue`, `IsSafeSummaryKey`, `RedactRecord`.
--   Approval/Ticket, Approval/Manager: internal/approval/manager.go, `Create`, `Decide`, `Get`,
--     `Pending`, `IsApproved`. Approval/Claims: internal/approval/store.go, `Edit`, `ApprovedFor`,
--     `ClaimFor`, `MarkConsumed`, `ExpirePending`.
--   Policy/Gateway, Policy/Execute: internal/policy/gateway.go, `NewGateway`, `Decide`, `Execute`,
--     `SetRuntimeOnce`. Policy/Approvals: internal/api/exec_runtime.go, `ensureGatewayRuntime`.
--   Pool/Memory, Pool/Types, Pool/Counters, Pool/Claim, Pool/Commit, Pool/Mutate, Pool/Pause:
--     internal/pool/manager.go, `Claim`, `Warm`, `Release`, `Suspend`, `Resume`, `SetQuota`,
--     `RetryCleanups`, `Stats`. Pool/Restore: internal/pool/persist.go, `EnablePersistence`.
--   Network/Ipam: internal/network/ipam.go, `NewIPAM`, `Allocate`, `AllocateGuest`, `Release`.
--   UidAlloc/Table: internal/uidalloc/uidalloc.go, `Allocate`, `Lookup`, `Release`, `Prune`.
--   Identity/Broker, Identity/Lease: internal/identity/broker.go, `Mint`, `Validate`, `Revoke`,
--     `RevokeSubject`, and internal/identity/persist.go; `restart` is what `CurrentIdentity` of
--     internal/api/identity_api.go does when a process starts.
--   Incident/Controller: internal/incident/controller.go, `Handle` and the hooks it calls.
--   Vhost/Memory: internal/vhost/vu/mem.go, with the table that the peer's message builds. Vhost/Ring:
--     internal/vhost/vu/vring.go, `Pop` and the descriptor walk. Vhost/Block: internal/vhost/vu/blk.go.
--   Artifact/Gate: internal/artifact/gate.go.
--   Lifecycle/Timers, Lifecycle/Pause: internal/lifecycle/autopause.go, `Arm`, `Disarm`, `pause`,
--     `commitPause`, `abortPause`, `rearmRetry`.
--   Cow/Layout: internal/cow/qcow2.go, `divCeil` and `computeQcow2Layout`.
-- The other files state and prove properties of these, and Examples files apply them and hold tests.
--
-- How the state corresponds. A Go struct is a record, a map an association list (Prelude/Dict), an
-- error a constructor. A method that holds a mutex is one step from a state to a state; where the code
-- releases the lock in between (a claim around `Factory`), the method is two steps, between which any
-- other step may happen. The clock, random ids, the outcome of each operation on the disk, and what
-- callbacks return are arguments, so that the theorems hold for all of them.
--
-- Bounds and fuel. Times, counters and sizes are naturals. Where the width of an integer matters it is
-- written out: the quota check on memory is on 64-bit words, the first guest address is a 32-bit sum, and the cpu of
-- sandboxes and quotas, which no code checks, is a Go int as its 64-bit word in two's complement, with
-- its wrap and its sign (Pool/Counters).
-- Loops are recursion on a list, or on the number of candidates that are left: the addresses below the
-- broadcast address, and the 65534 ranges of uids up to the last base. A walk of a
-- descriptor chain has fuel `num * 2 + 2`, for a queue of `num` descriptors, and an outcome `stuck` of its
-- own for the fuel that ran out. Guest addresses are 64-bit words (`add64`, `max64`),
-- the index of the available ring is a 16-bit word, and what panics in Go is the outcome `panicked`.
-- The loop of `computeQcow2Layout` has the 32 rounds of the source, and sums and products of sizes are
-- 64-bit words.
--
-- Not modelled: system calls, processes, HTTP, the kernel's data plane, and the parts of the repository
-- that only move bytes. Regular expressions for secrets, SHA-256 over the fields of a row, ed25519,
-- `net.ParseCIDR` and `net.ParseIP` are arguments, as are the lease's HMAC and text encoding (`Codec`) and
-- the verifiers of a release. Guest memory is one snapshot while a chain is walked, so that writes by the
-- guest in the middle of a walk are left out; the return of used descriptors to the guest (`Push`, `Notify`)
-- and the control channel of the device are left out too. What a row of the
-- ledger is after it was written as JSON and read again is an argument too (`recode`), and the other stores
-- hold the values themselves. Go values in params that `ScrubValue` does not know are the one constructor
-- `foreign`.
pub mod Prelude
pub mod Json
pub mod Fsjson
pub mod Audit
pub mod State
pub mod Approval
pub mod Pool
pub mod Network
pub mod UidAlloc
pub mod Policy
pub mod Identity
pub mod Incident
pub mod Vhost
pub mod Artifact
pub mod Cow
pub mod Lifecycle
