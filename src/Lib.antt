-- ===== src/Lib.antt =====
-- indexd rents storage from hosts: it forms contracts with them, keeps the revisions of the contracts
-- in step, funds accounts on the hosts, and keeps the slabs of its users pinned. This library models
-- the parts of it that decide, and proves what they promise to each other.
--
-- Base: the shared types. Base/Outcome is the end of a Go call, a value, an error or a panic.
--   Base/Words is uint64 arithmetic. Base/Currency and Base/Proto are what the code takes from
--   go.sia.tech/core, as parameters with the documented laws; each has an instance that meets them.
--   Base/Codec is its encoder and its decoder, in the same way.
-- Contracts/Locking: contracts/locking.go. `enter` and `acquire` are the two halves of
--   `LockContract`, `release` and `leave` those of an unlock function, `try_lock` is
--   `TryLockContract`; a run is any interleaving of the steps of any number of threads.
-- Contracts/Contract: contracts/contract.go, the record and the checks `GoodForAppend`,
--   `GoodForAccountFunding`, `inRenewWindow` and `maxRenewableContractSize`.
-- Contracts/Refresh: `GoodForRefresh` of contracts/contract.go, and `contractFunding`,
--   `shouldReplaceContract` and the choice of a host's contract of contracts/form.go.
-- Contracts/Revision: contracts/revision.go, `WithRevision` and `syncRevision`. The store is a
--   record of operations and laws, with a store in memory that meets them (Contracts/Revision/Memory);
--   the closure that is handed over and the host are functions that change a state of their own.
-- Contracts/Funder: contracts/funder.go, `FundAccounts` and `FundPools`, which call `WithRevision`
--   with the closure `replenish_batch`. The two share one loop here, as their bodies agree but for
--   the RPC.
-- Contracts/Chain: contracts/chain.go, `UpdateChainState` with the cache of the known contracts. The
--   transaction of the store is a record of operations and laws (Contracts/ChainTx); Postgres/ChainTx
--   models the one of persist/postgres/contracts.go on tables, and meets the laws. Chain/Effects says
--   what a diff does to its contract.
-- Contracts/Funding: contracts/funding.go, `FundAccounts` and `FundPools` of the contract manager,
--   which call the funder of contracts/funder.go through its interface, `ContractFundTarget`, and the
--   events that record the deposits. Fuel bounds the rounds of a quota: one more than there are due
--   accounts is enough, where the loop ends at all, which needs that accounts that are written back
--   are due later only. `UpdateFundedAccounts` sees to that with a positive maximum and few failures
--   (Accounts/Backoff/Later), and Funding/Memory composes the two. Funding/Attach is `AttachPools`;
--   one round more than there are full batches pending is enough for it.
-- Contracts/Pruning: contracts/pruning.go, `pruneContract` and `performContractPruningOnHost`, which
--   free on a host what the store has no use for, through `WithRevision`. What the host answers is
--   assumed in Pruning/Laws, and a host and a store in memory meet it (Pruning/Memory). Postgres/Prunable
--   is `PrunableContractRoots` of persist/postgres/contracts.go, and Prunable/Referred says when the
--   store refers to a root. Fuel bounds the tests of the loop: one more than there are batches is
--   enough. The sectors that the host moves into a batch that was already visited are left for the
--   next run, so that what is left is known exactly only for a contract of one batch.
-- Contracts/Pinning: contracts/pinning.go, `pinSectors` and `performSectorPinningOnHost`, which append
--   uploaded sectors to contracts through `WithRevision` and pin them in the store. The host and the
--   store are assumed to do what Pinning/Laws says, and Pinning/Memory meets it. Fuel bounds the
--   batches: when it is spent, the state that was reached is given.
-- Client/HostQueue and Client/Provider: client/v2/hostqueue.go, the queue of hosts to try, what is
--   known of their speed and failures, and the choice of hosts by it. Floats are a parameter. Fuel
--   bounds how many hosts the caller of `Iter` takes: as many as there are attempts are enough.
-- Accounts: accounts/account.go, the accounts and pools that are funded. Accounts/Backoff and
--   Accounts/Target are `UpdateFundedAccounts`, `UpdateFundedPools`, `HostFundTarget` and
--   `HostReadFundTarget` of accounts/manager.go, with the int64 arithmetic of a `time.Duration`;
--   Accounts/Service is accounts/serviceaccounts.go.
-- Alerts: alerts/alerts.go, the manager of alerts and the pages of its list.
-- Slabs: slabs/slabs.go, which slabs may be pinned: `Validate` and `ValidateECParams`. The sum of
--   the probabilities is kept as an exact number where Go rounds each float64.
--   Slabs/Migration: `sectorsToMigrate` of slabs/migrations.go, which sectors of a slab move and where
--   they may go; it uses `GoodForAppend` of Contracts/Contract and the spaced set of Hosts.
--   Slabs/Verifier: `VerifySectors` of slabs/sectorverifier.go, over the calls of the host and of the
--   account manager, of which a total of the debits is known.
--   Slabs/Encoding: slabs/encoding.go, the codecs of slabs and objects.
-- Hosts: hosts/host.go and hosts/distance.go, when a host is good, and the spaced set. Locations are
--   compared by a distance that is a parameter.
--
-- Identifiers (contract IDs, public keys, account keys) are only compared, and are numbers. An amount
-- of `types.Currency` is its number of hastings. Heights and sizes are uint64 and wrap around where
-- the code lets them. A loop over a list is a recursion on the list, with no fuel. Logging, contexts
-- and timeouts are left out. Other SQL than that of Postgres, HTTP and the RPCs of the host
-- protocol are not modelled: what the modelled code needs of them is a parameter.
pub mod Base
pub mod Accounts
pub mod Alerts
pub mod Client
pub mod Contracts
pub mod Hosts
pub mod Postgres
pub mod Slabs
