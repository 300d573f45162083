-- ===== src/Lib.antt =====
-- The MGK governance kernel (src/mgk of the repository): an authority issues signed capabilities for
-- requests that a gate evaluation has granted, a verifier checks them and consumes their nonces, and
-- an executor performs the one operation that the capability is bound to, recorded in a hash-chained
-- ledger.
--
-- Files and what they model; a child module holds lemmas and theorems about its parent.
--   Errors: src/mgk/errors.py; `Result` is a call that returns or raises.
--   Json, Platform: the values of the canonical format, and what the kernel takes from other code
--     (hashlib, json, unicodedata, base64, the Ed25519 of `cryptography`), as a record of functions.
--   Canonical: src/mgk/canonical.py. `hooks` and `pairs` are what json.loads calls, `validate` threads
--     the item budget, `normalize` is NFC with the test for collisions of keys.
--   Models: src/mgk/models.py. Crypto: src/mgk/crypto.py. Saxp: src/mgk/saxp.py (the seven gates).
--   State: src/mgk/state.py. A `Store` is the content of the SQLite file; a transaction is one step,
--     and `Step`, `Reach` in State.Replay are what any processes can commit in any order. A bump and
--     an execution take what other connections write in between as an argument.
--   Ledger: src/mgk/ledger.py, over the bytes of the ledger file and of the checkpoint file.
--   Bindings, Verifier: src/mgk/verifier.py; `check_envelope` is `verify` without the consumption.
--   Resource: src/mgk/resource.py, over a file tree (Resource.Files) in which a call of os.write
--     writes so many bytes, or raises, as an argument says.
--   Authority: src/mgk/authority.py. Executor: src/mgk/executor.py; its `World` is the security state,
--     the two ledgers and the files, and its `Surroundings` are the clock readings, the writes of
--     other processes and the outcomes of os.write.
--   Feedback: src/mgk/feedback.py. Cha: src/mgk/cha.py. Arrow: src/mgk/arrow.py.
--   Runtime: runtime/, the services around the kernel. Policy: policy.py. Sandbox: sandbox/__init__.py.
--     Store: runtime_ledger.py, over the rows of its tables. Flight: flight.py, over the bytes of its two
--     files. Decision, Propose and Human: decision.py; `RuntimeState` is the kernel's `World`, the
--     recorder, the tables and the number of clock readings, and `DecisionPipeline` holds the members
--     that do not change with what the environment answers. Service: the bounds of config.py, the keys
--     and the epoch of workspace.py, and doctor of server.py. Calls: methods that change a state and may
--     raise, and how what they leave alone passes through their statements.
--   Tcb: orchestrator/tcb/, the checks by which an outer tool admits patches. Texts: the methods of
--     `str`. Trust: trust.py. Contracts and Phases: contracts.py. State: core.py. Patch: verify_patch.py,
--     where git is a record of answers, with the index that they change.
--   Prelude: names of the libraries, Boolean tests, lists and integers. Tests: runs at small inputs.
--
-- How the state corresponds: a method is a function with its object as an argument, and a method that
-- changes its object gives the new one back with its result. What raises gives `err`; where a call has
-- changed files before it raises, the function gives both the exception and what is left of the files.
-- Loops are structural recursion over the data they walk (lines, members, outcomes of os.write), so no
-- definition needs fuel. The index loops of contracts.py are one walk over the lines with the list that
-- is being read as state. Integers are unbounded, as in Python.
--
-- Not modelled: src/mgk/clock.py and src/mgk/cli.py (input and output), the failure of fsync, of close,
-- of unlink and of writing the files of the ledgers and of the outer tool, paths that are sockets or
-- pipes, the limits of recursion and
-- of memory, generating and encoding keys, the threads of the runtime's server with its HTTP, process
-- and directory handling (runtime/web.py, the rest of server.py and workspace.py), the scripts of
-- orchestrator/tcb/ that run gates, and the repository's gates, tools, red team and tests, which call
-- the kernel. Nothing is assumed of the hash, the signatures or the JSON library but their types.
pub mod Authority
pub mod Bindings
pub mod Canonical
pub mod Crypto
pub mod Errors
pub mod Executor
pub mod Feedback
pub mod Json
pub mod Ledger
pub mod Models
pub mod Platform
pub mod Prelude
pub mod Resource
pub mod Saxp
pub mod State
pub mod Verifier
pub mod Cha
pub mod Arrow
pub mod Runtime
pub mod Tcb
pub mod Tests
