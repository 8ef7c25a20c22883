-- ===== src/Lib.antt =====
-- TenProf attributes the memory accesses of GPU kernels to allocations and to PyTorch tensors. This
-- library models the part of it that keeps the books: redshow, the library that the tools call, and
-- the forest of tensor views that its torch view keeps.
--
-- The parts and where they are modelled:
--   Common/Map          redshow/include/common/map.h, set.h: the ordered maps; Map.prev is `prev`
--   Operation           redshow/include/operation/*.h, redshow/include/redshow.h: operations, results
--   Redshow/Registry    redshow/src/redshow.cpp: redshow_memory_register and the other calls on
--                       the snapshots of live memories; Query has the look-ups, Collect the end of an
--                       analysis, which drops old snapshots
--   Redshow/Symbols     redshow/include/binutils/symbol.h: transform_pc and transform_data_views
--   Redshow/Access      redshow/include/binutils/instruction.h, redshow/src/common/utils.cpp,
--                       include/gpu-patch.h: access kinds, values and the records of a trace
--   Redshow/Trace       redshow/src/redshow.cpp: trace_analyze_address_patch,
--                       trace_analyze_address_analysis and, in Default, trace_analyze_default
--   Redshow/Cubins      redshow/src/redshow.cpp: the cubins that are loaded or noted
--   Redshow/Analyze     redshow/src/redshow.cpp: trace_analyze and redshow_analyze
--   Redshow/Config      redshow/src/redshow.cpp: the options and the enabled analyses
--   View                redshow/include/analysis/torch_view.h: tensors and view nodes
--   View/Names          tv_copy_cstr and tv_append_domain
--   View/Find           find_node and find_root_node
--   View/Strides        sort_tensor_strides
--   View/Address        find_local_starting_address and find_closest_starting_address
--   View/State, Forest  TorchView, update_view_forest and delete_forest_tree
--   View/Touch          update_node_total_access
--   View/Blocks         register_memory_block, unregister_memory_block and the look-up of a block
--   Liveness            redshow/include/analysis/memory_liveness.h: the data of the analysis
--   Liveness/Memories   redshow/src/analysis/memory_liveness.cpp: the memories that are live, their
--                       usage and its peaks, and what operations did to them
--   Liveness/Graph      DependencyGraph; Update has update_graph_at_malloc and the other functions that
--                       grow it, Order the loop of dump_topological_order
--   Liveness/Callbacks  op_callback and analysis_begin; Reach has the states that calls lead to
--   Liveness/Sizes      the sort of output_memory_size_list
--   Liveness/Merge      the loops of output_merged_torch_python_states
--   Redundancy          redshow/src/analysis/temporal_redundancy.cpp: analysis_begin, unit_access,
--                       block_exit and analysis_end; Launches has the calls for one kernel
--   Prelude             shared names, tests on numbers and lists
--   Tests               runs of the code and the theorems at concrete inputs
--
-- How they interact. A tool registers allocations, frees and copies with the registry; when a kernel
-- has run, redshow_analyze takes the snapshot that the kernel's operation sees and the symbols of its
-- module, attributes each access of the trace to a memory of the snapshot and tells every enabled
-- analysis. The torch view is one of these analyses; it files the tensors of each operator in a forest
-- of storages and views, and drops a tree when its block is given back. The memory liveness is another: it
-- keeps the memory usage, and a graph of the operations by the streams and the memories they share, which
-- it writes in topological order at the end.
--
-- State is passed explicitly: an operation takes a record and returns its status, the new record and
-- the calls that it makes of the analyses. A std::map is a list of entries in the order of the keys, a
-- pointer to a view node is its address, and numbers of 64 bits wrap where the code adds or
-- subtracts. `none` stands for an exception or for the end of the program where the comment of a
-- definition says so.
--
-- Fuel: search_roots has a round for each root, and split_region one for each byte of its region; the
-- theorems below show that these suffice. find_local_starting_address is given fuel by its caller,
-- and the theorem says how much is enough. topological_order has a round for each node and
-- merged one for each entry; the first is enough on each graph that the callbacks make of calls as the
-- theorem names them.
--
-- Not modelled: the locks, as each operation runs inside one; printing; the instruction parser and the
-- files it reads, whose result is a parameter, like std::sort; the texts of the liveness
-- outputs; the queues and the texts of the temporal redundancy; the other analyses; torch-monitor, the device code and the
-- scripts. The address of a shadow buffer or of a new node is an argument.
pub mod Prelude
pub mod Common
pub mod Operation
pub mod Redshow
pub mod View
pub mod Liveness
pub mod Redundancy
pub mod Tests
