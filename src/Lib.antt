-- ===== src/Lib.antt =====
-- The execution core of the EVM's Python extraction: the arithmetic of its instructions and the
-- operand stack they work on, its gas schedule, the journalled state of a transaction that the host
-- keeps for it, and the RLP codec.
--
-- The program. extractions/python holds an executable EVM: src/evm is the model lowered to
-- Python, and contract/HostContract.py is the host that it calls for state. An instruction
-- computes on words (prelude.py), is charged by the gas schedule (evm/gas.py, evm/machine.py)
-- under the profile of its fork (primitives/chain_config.py), and reads and writes accounts,
-- slots and logs through the host. A call opens a checkpoint in the host's journal and ends it by
-- a commit or a revert, and a frame of the operand stack. What is hashed or read from the payload
-- goes through the RLP codec, between byte regions of the host.
--
-- The files, with the code they model, below extractions/python.
--   Base, with its children: shared names, tests, lists, powers, bitwise laws, integers; Base/Raises
--     has `FatalError` of src/evm/exceptions.py and the outcome of a call, a value or an exit.
--   Runtime: `Bits` and the integer division of src/evm/_runtime.py. A vector of width w is a
--     number below 2 ^ w, and each operator masks as the class does.
--   Word: the words of src/evm/prelude.py. Word/Arith, Word/Bits, Word/Shift, Word/Signed and
--     Word/Exp have one function for each of `word_...` and `alu_...`, by its name; the other
--     children have the proofs.
--   Profile: the forks and the profile of src/evm/primitives/fork.py and chain_config.py.
--   Gas: src/evm/evm/gas.py and the gas arithmetic of src/evm/evm/machine.py, by the function
--     names: Gas/Schedule (constants and access costs), Gas/StateGas, Gas/Memory, Gas/Charges,
--     Gas/Sstore and Gas/Blob; the other children have the proofs. What the code reads from
--     `environment.k_execution_profile` is an argument.
--   Host: contract/HostContract.py. Host/Rows has the rows, Host/Journal the entries of
--     src/evm/host/journal.py and `_open_checkpoint_index`, Host/State the part of `HostState`
--     that is modelled, Host/Restore `_journal_restore` and the `state_journal_` operations,
--     Host/Slots transient storage, storage and warm marks, Host/Accounts the `acct_tx_`
--     operations, Host/Logs the logs with `k_log` of src/evm/kernel/logs.py, and
--     Host/Authorizations the authorization tracker. Host/Undo and its children, Host/Frames,
--     Host/AccountUpdate, Host/Clearing, Host/Generations and Host/Freshness have the proofs.
--   Kernel: Kernel/Accounts has the changes of an account of src/evm/kernel/accounts.py and
--     selfdestruct.py, where the account that `k_aload` answers is an argument. Kernel/Frames has
--     frames that make these besides the operations of Host/Frames; the other children have the
--     proofs.
--   Rlp: src/evm/lib/rlp. Rlp/Slices has the slices of src/evm/primitives/bytes.py and their reads
--     in src/evm/host/region_access.py, Rlp/Scratch the scratch region of src/evm/kernel/scratch.py,
--     both over the helpers of contract/HostContract.py; Rlp/Size and Rlp/Write are encoding.py,
--     Rlp/Decode and Rlp/Canonical decoding.py with src/evm/primitives/rlp.py. A function that
--     the code has for each region is one function with the region as an argument. Rlp/Reference has
--     the encodings as byte lists, by the RLP standard; the other children have the proofs.
--   Stack: the operand stack. Stack/Slots is contract/HostContract.py, Stack/Pointer
--     src/evm/host/stack.py with the stack functions of src/evm/evm/machine.py; the other children
--     have the proofs.
--   Memory: Memory/Bytes has the memory operations of contract/HostContract.py, Memory/Frame those
--     of src/evm/evm/machine.py that address a frame; Memory/Reads and Memory/Laws have the proofs.
--   Code: Code/Analysis has the scan for jump destinations of src/evm/host/code.py, the deep-stack
--     operations of src/evm/primitives/code.py and the tables of contract/HostContract.py; Code/Jump
--     has `do_jump` of src/evm/evm/execute.py. Code/Destinations and Code/Landing have the proofs.
--   Execute: Execute/Guard has what the instructions of src/evm/evm/execute.py share,
--     Execute/Instructions one function for each of those that are modelled, by its name, and
--     Execute/Program the dispatch of src/evm/evm/interpreter.py on them. Execute/Spec has the
--     instructions on a list of words; Execute/Refines, Execute/Steps and Execute/Frames have the
--     proofs.
--
-- State. An operation that changes `HostState` is a function to the new state, or to an outcome
-- where the code may raise. The journal and the two transaction tables are lists with the newest
-- entry first, so that `popitem` takes the head; a dictionary that is only read with a default is
-- a function. A row that the code changes in place is written back under its key. `World` is what
-- the journal restores: the generation counter, the warm epoch and the index of the log being
-- written stand outside it.
--
-- The operand stack is one list of words for all frames, the deepest word first as in the code, with
-- the bases of the frames, the newest first. The scratch region is the list of its bytes with the
-- slice that is the register `scratch_arena`, and memory the list of the bytes of all frames. A byte
-- is a number, and a byte list is one of numbers
-- below 256.
--
-- Fuel. `exp_loop` runs once for each bit of the exponent, as the code's `remaining` does. The
-- loop of `fake_exponential_word` has one more unit of fuel than the bound on its output, and each
-- round raises the output by at least one. `rlp_minimal_uint_len` recurses on a bound that is the
-- number itself, which each division by 256 makes smaller. The scan of code has its length as fuel,
-- and each round moves the position by at least one.
--
-- Not modelled. The interpreter's loop, with the program counter, calls and creations; the
-- instructions on memory, storage, code and the environment, but for three that push a value they
-- are given, and the stack instructions with an immediate of their own (DUPN, SWAPN, EXCHANGE);
-- transactions, precompiled contracts and the executor; the tries and SSZ; the block tables of the
-- host, and its regions for code and output; the accelerators, which call native cryptography. The
-- runs of Host/Frames have the eight host operations that note what they change. Those of
-- Kernel/Frames add the callers of `acct_tx_update` and `storage_tx_clear` in Kernel/Accounts; the
-- update also writes the storage root and the clearing mark, which have no entries of their own. In
-- those runs the account is one that the transaction or the block has, and its storage root is
-- kept. `k_aload` of an account that only the parent trie has is not modelled, nor are transfers
-- and the merge at the end of a transaction.
pub mod Base
pub mod Runtime
pub mod Word
pub mod Profile
pub mod Gas
pub mod Host
pub mod Rlp
pub mod Stack
pub mod Execute
pub mod Memory
pub mod Code
pub mod Kernel
