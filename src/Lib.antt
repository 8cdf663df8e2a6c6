-- ===== src/Lib.antt =====
-- A model of HyGCN, a simulator of an accelerator for graph convolutional networks.
--
-- An aggregation engine adds the features of the neighbours of each vertex up, a combination engine
-- multiplies the sums with the weights of the layer. The engines exchange the sums through the
-- aggregation buffer, and read and write the rest in a DRAM through the coordinator. Paths below are
-- from the repository's root.
--
--   Tool             hygcn/tool.cpp: `UpperAlign`, `LowerAlign`.
--   Text             what the loaders use of C++ strings: `atoi`, `to_string`, `find`, `substr`.
--   Text/Split       hygcn/tool.cpp: `SplitString`, `str2int`; Parts: the parts of a text.
--   Sort             `std::sort` of a vector of `int`s.
--   Graph            hygcn/graph.h, graph.cpp: the graph, `GetGcnNormGraph`; Degree: the degrees.
--   Graph/Load       the same: `LoadGraph`; Edges, Loaded, Lines: its edges, its result, its lines.
--   Graph/Dump       the same: `DumpEdge` and `LoadSampleGraph`; Sample: `GetSampleGraph`.
--   Graph/Hash       the same: `HashGraph`, with Directed, Undirected and Loops for its operations.
--   Graph/Reorder    the same: `Reorder`.
--   Graph/EdgePages  the same: `EdgeCompress`; Page, Layout: its pages; Read: a reader of them.
--   Config           hygcn/config.h, config.cpp: `SysConfig`, `LayerConfig`, `TileConfig`.
--   Config/Mapper    the same: `AddrMapper`, the layout of the DRAM and the chunks of edges; Regions:
--                    the layout.
--   Config/Layers    the same: `HyConfig`, the file of a model and `PrepareNextLayer`.
--   Config/Init      the same: `HyConfig::Init`; Prepared, Runs, Built: what it and the next layer
--                    leave.
--   Event            hygcn/dataflow/event.h, event.cpp: a request with its counts of transactions.
--   Spma, Spm        hygcn/hardware/spm.h, spm.cpp: the double buffers of the two engines.
--   Simd             hygcn/hardware/simd.h: a SIMD core of the aggregation engine.
--   SystolicArray    hygcn/hardware/systolic_array.h, systolic_arr.cpp: the multiplier array.
--   AggrBuf          hygcn/hardware/aggr_buf.h: the aggregation buffer.
--   Coordinator      hygcn/hardware/coordinator.h, coordinator.cpp: queues of requests; ToDram and
--                    ToEdram: the issue to the two memories.
--   SortedSet        the uses of `std::set` in hygcn/dataflow/aggr.cpp.
--   Partition        hygcn/dataflow/aggr.cpp: `Partition`, `SparsityElimination`.
--   Aggr             hygcn/dataflow/aggr.h, aggr.cpp: the aggregation engine; Filling and Tasks:
--                    the stages of a cycle; Cycle: the cycle; Chunks: the request of a chunk.
--   Comb             hygcn/dataflow/comb.h, comb.cpp: the combination engine; Traffic: its reads and
--                    writes; Cycle: the cycle. Slots, Protocol: its control, which buffers are
--                    filled and used for which block, as an abstract machine; View, Simulation,
--                    Requests, FetchMoves, TrafficMoves, Serves: what the code does to the control;
--                    Reach, Search, Asserts, Configured, Columns, Quiet, Early: the states it reaches;
--                    Script: runs by a list.
--   Text/Table       a reader of comma-separated values, for the texts of the records.
--   HyRec            hygcn/dataflow/hy_rec.h: the counters that a run gives, and their text.
--   HyGcn            hygcn/hygcn.h, hygcn.cpp: the accelerator; the loop over cycles of
--                    hygcn_test/test.cpp. Record: the record of a run; Callbacks, Homes, Drain: the
--                    callbacks; Account, Answers, Buffer: the states that requests, issues and
--                    callbacks lead to.
--   Driver           hygcn_test/test.cpp: the loop over the layers; Dump: the file of the records.
--   Base             Booleans, lists, integers and faults that the others share.
--
-- A class is a record with its fields, a method is a function that gives the new record, and a method
-- that works on what it shares by pointer takes and gives that too: `Aggr.World` and `Comb.World`
-- hold an engine with the aggregation buffer and the coordinator. An event that is shared by pointers
-- is an index into the store of the coordinator. `none` stands for a run without a defined result: an
-- `assert` that does not hold, as in a build with assertions, `AbruptExit`, a division by 0, and an
-- access outside a vector, which the code does not test for. A union of an `int` and a `float` is the
-- `int` that its bytes are.
--
-- Numbers. An `int` that stays at 0 or above is a natural number, one that uses -1 for "none" is an
-- `Option`, and a counter that is decremented below 0 is an integer. An `uint64_t` wraps at 2 ^ 64
-- where the code adds, subtracts or multiplies (`u64`). Where the layout of the DRAM adds a product of
-- `int`s to an address, the product keeps its 32 bits and its sign (`int_u64`). Quotients of `double` are exact, as they are
-- for numbers below 2 ^ 53. Negative sizes and counts in a configuration are outside the model.
--
-- Fuel. The loop of `Partition` gets one more round than the rows have entries, which is enough where
-- the interval is not 0; the loop on chunks of edges gets two rounds for each vertex and one more; a
-- loop that issues transactions gets one round for each transaction of the event and one more;
-- `SplitString` gets one more round than the text has bytes, which is enough for a delimiter that is
-- not empty; the loop over layers needs two rounds, and the loop over cycles has as much fuel as its
-- caller gives.
--
-- Parameters. The DRAM simulator (`Coordinator.DramSystem`: what it accepts, which callbacks a
-- tick makes, and what its controllers count) and `INIReader` (a function from section, key and default) are libraries. A
-- `std::unordered_multimap` is a list in which `find` takes the oldest entry of a key, since the
-- library leaves the choice open.
--
-- Files. A text is the list of its bytes, a text file the list of its lines, `none` where it cannot be
-- opened. The random engine of `GetSampleGraph` is a parameter whose numbers lie in the range that is
-- asked for. Elements of a `std::unordered_set` are listed in ascending order, as no operation depends
-- on the order.
--
-- Not modelled: console output, the energies (a record is written with their texts as given), the
-- timer, the lists of models and graphs in `main`, and `Shuffle`, which only calls the library
-- and which no code calls.
pub mod Base
pub mod Tool
pub mod Text
pub mod AggrBuf
pub mod Simd
pub mod SystolicArray
pub mod Event
pub mod Spma
pub mod Spm
pub mod Coordinator
pub mod SortedSet
pub mod Partition
pub mod Sort
pub mod Graph
pub mod Config
pub mod Aggr
pub mod Comb
pub mod HyRec
pub mod HyGcn
pub mod Driver
