-- ===== src/Lib.antt =====
-- HorNET decides questions about eBPF/XDP programs. hornet/bpf decodes the instructions of an
-- object file, links the programs that tail calls reach and builds the control-flow graph;
-- hornet/track runs the graph symbolically, block by block, and records values, facts and
-- conditions; hornet/verify turns these into solver terms per block, in a topological order of the
-- blocks that matter, and decides specifications.
--
-- Files. Common: lists, Python's integers, sets as lists and results, on native numbers. Bpf/Codes,
-- Bpf/Names and Bpf/Arith: hornet/bpf/constants.py (`arith` is arith_op). Bpf/Instr:
-- hornet/bpf/instr.py; an instruction is a record, and a field that the constructor leaves unset is
-- 0, false or none. Bpf/Region, Bpf/Maps, Bpf/Globals and Bpf/Link: hornet/bpf/link.py, with its
-- dictionaries as association lists; the mutation of instructions and lists by `link` is the
-- building of new ones, and a LinkError is a case of the type of that name. Bpf/Link/Joined has the
-- loop over the objects as a relation of rounds, Whole and Places the theorems on `link`. Bpf/Cfg:
-- hornet/bpf/cfg.py; `build_cfg` threads a Graph, the blocks with their `succ_t`, `succ_f` and
-- `preds` and the successor lists, through the loops of the source, one function for each branch;
-- assertions, exceptions and exits are the cases of CfgError. Bpf/Cfg/Mirror, Wired and Edges prove
-- what the edges satisfy, Leaders, Spans and Blocks what the blocks cover. Track/Expr:
-- hornet/track/expr.py, with Track/Width for the sizes of values, `trunc32` and `sext`.
-- Track/Facts: the facts and conditions of hornet/track/block.py and hornet/track/encode.py.
-- Track/Jump: `_jmp_taken`. Track/Adjust and Track/Branch: `track_branch` of
-- hornet/track/tracker.py, from the values of the two registers and the old marks of the block
-- (`cond_t`, `cond_f`, `cond`) to the new ones; the files below Track/Branch prove one kind of test
-- each, null and packet tests, and there is no theorem on tests of bpf_xdp_adjust_*, and
-- Track/Symbols ties the table of symbols to them. Track/Merge: the merge of facts in
-- `merge_predecessors` of hornet/track/block.py, with the theorem in Sound and Joined. Track/Stack:
-- `stk_store` and `stk_load` of that file, for addresses below the frame pointer. Track/Record:
-- `may_alias` of hornet/track/record.py. Track/Order: `get_next_block_no` of hornet/bpf/cfg.py and
-- the loop of `Tracker.track`. In the theorems on branches the machine is `jmp_taken` on run-time
-- values. Verify/Worklist: the loop `while stack` with a set of seen items, which several parts
-- share, with its fuel and its reachability theorem. Verify/Prune: hornet/verify/prune.py;
-- `topo_order` keeps the source's stack of (block, done) items and its colours. Verify/Guard: the
-- guards of hornet/track/encode.py, which are Python's True and False or solver terms; z3 is a
-- parameter, a record of its constructors with their meaning in a model. Verify/Analyze: `analyze`
-- of hornet/verify/prune.py. Verify/Forward: `_walk` of hornet/verify/forward.py, over an interface
-- for the symbolic memory (its states, their merge, what a block does to one, and the condition of
-- a branch at one). Verify/Regions: `relevant_regions` and `fold_eligible_regions` of the same
-- file; Slice has what the first takes from the blocks of a slice. Verify/Check:
-- hornet/verify/checker.py, with the solver's answers as a parameter. An execution is a path from
-- block 0 that takes at each branch the edge that the branch's condition has in a model of the
-- solver's variables; the theorems of Verify/Forward tie the path conditions to it, and those of
-- Verify/Check the verdicts. The Witness files apply the theorems to concrete programs, blocks and
-- operands.
--
-- Fuel. A worklist takes one unit for each item it pops. `search` is given one more than the number
-- of edges; `topo_order` the same plus two for each block, since a block is entered once and then
-- puts itself and its successors on the stack. Both are proved enough. `relevant_regions` is given
-- one round for each region that it starts with or that an action reads, and one. The loop of
-- `track`, track_all, takes one unit for each untraced block.
--
-- Not modelled: loading of ELF objects, the parsing of --tail, the other handlers of the tracker,
-- the merge of registers and stack slots at joins, the encoding to solver terms, the symbolic
-- memory behind the walk, the parsing of specifications, witnesses, reports and the command line.
-- What a function prints when verbose and the wording of errors and details are left out.
pub mod Common
pub mod Bpf
pub mod Track
pub mod Verify
