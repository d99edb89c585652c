-- ===== src/Lib.antt =====
-- The query optimizer under cpp/code: it reads a query or a plan of the Star Schema Benchmark into
-- plan trees, rewrites them and hands them out as work items.
--
-- Base (with Base/Lex, Base/Sets, Base/Maps, Base/Order) models cpp/code/include/ir/base_types.hpp: Table,
-- TableColumn, their operator< and operator==, and std::set as a list that is searched by
-- operator<. The enumerations are those of proto/WorkItem.proto.
-- Ir models ir_types.hpp, abstract_ir.hpp and plan_node.hpp of cpp/code/include/ir; a file under Ir
-- models the view of its name in ir_views.hpp, and Ir/Shape says which columns each operator has.
-- Catalog models cpp/code/src/util/catalog.cpp: getSSBColumnType, getTableName and isUnique.
-- Optimizations models cpp/code/src/ir_optimizations/ir_optimizations.cpp: Optimizations/SemiJoin
-- is placeSemiJoins, Optimizations/SortMerge is mergeSortIntoGroupIfSubset and
-- Optimizations/AggMove is moveAggIntoGroup. They read the catalog and the views and change the
-- plan in place; here each takes a tree and gives a tree, since these passes run before nodes are
-- shared. Reading a column that is not there is undefined behaviour in the source and `none` here.
-- Sequence models cpp/code/include/util/sequentializer.hpp, over the addresses of nodes, which may
-- be shared. Its fuel bounds the depth of the recursion; a rank that falls from parent to child
-- gives enough.
-- Ast models cpp/code/include/parser/generate_AST.hpp and cpp/code/src/parser/optimizer_one.cpp:
-- extractPredicate, buildJoin, isTableInAST and optimizeCrossProduct.
-- TransformHelpers models cpp/code/src/ir/transform_helpers.cpp, with its ConditionParser in a child;
-- std::stoull, std::stof and the matches of std::regex are parameters.
-- AstToIr models cpp/code/src/ir/ast_to_ir.cpp, and AbstractToIr cpp/code/src/ir/abstract_to_ir.cpp: the two
-- ways to the first plan. A thrown exception is `none`. AstToIr/Stands writes out what stands for each value.
-- PostProcessing models ensureCorrectColumnSetup of cpp/code/src/ir/ir_post_processing.cpp; its
-- child Scopes describes the setup by the selections' scopes.
-- Heap models the nodes of plan_node.hpp once plans share them: an address is the number of older
-- nodes, and a command over the heap gives a value or a fault, which is undefined behaviour of the
-- source. Heap/FilterCol is detFilterColIdx; its fuel is a round for each entry that its queue can get, the
-- two children and those of every node once. Heap/Valid is the invariant of the heap.
-- Materialize models the passes that place materializations: Materialize/Fill is fillMaterializes
-- of ir_post_processing.cpp, and of ir_optimizations.cpp Materialize/First is putLateMaterialization, the deprecated
-- first version, Materialize/Late is putLateMaterializationV2 and
-- putLateMaterializationHybrid and Materialize/GrandChildren is grandChildrenOptimization, whose
-- fuel is the root's address plus one, since children are older than their parents. All but the last
-- read a tree and leave nodes on the heap; std::map is Base/Maps.
-- Pipeline models runOptimizerPipeline of cpp/code/src/client/DBClient.cpp, from the first plan to the
-- renamed plan: it composes AstToIr, PostProcessing and Optimizations on trees, and in
-- Pipeline/MaterializePlan the passes of Materialize and the renaming.
-- WorkItems models the way from the plan to the messages: WorkItems/Api is cpp/code/src/ir/ir_to_api.cpp,
-- WorkItems/Builder is cpp/code/src/translation/item_builder.cpp, WorkItems/Messages has the types of
-- proto/WorkItem.proto and cpp/code/include/translation/item_builder.hpp.
-- Server models the registry of clients in cpp/code/src/server/TCPServer.cpp: clients are pointers into
-- a heap, so that a deleted client that is read is a fault; what the sockets return is an argument.
-- JsonPlan models convertToAbstract, removeDeepAggregate, removeDeepSort and pruneTree of
-- cpp/code/src/ir/json_to_abstract.cpp, which make a plan of the database an abstract plan.
-- Framing models extractItemsModifyBuffer of cpp/code/src/util/Utility.cpp, which the receivers of
-- the client and the server call on what a socket gave them; the length of the buffer is its fuel,
-- since each message takes 32 bytes at least. A scan for the delimiter that leaves the received bytes is
-- `none`.
-- ThreadPool models cpp/code/src/client/thread_pool.cpp as a step relation on the queue, the
-- workers and the history of the tasks.
-- Names models NameGenerator of cpp/code/include/util/name_generator.hpp; the fuel of its digits is
-- the number plus one, and a number has no more digits than that. Names/Renamer is the Renamer of
-- cpp/code/include/util/unique_col_names.hpp; its fuel is the root's address plus one.
-- Common has what all share: tests on numbers, lists, and byte strings with the comparisons of
-- std::string. Tests has samples and the theorems at them.
--
-- Not modelled: the glue to the SQL parser and to jsoncpp, what reads queries by std::regex,
-- printing, sockets, and protobuf; the estimates and measures of a raw plan, which only printers read; the console output, but
-- for the lines about missing columns.
pub mod Common
pub mod Base
pub mod Ir
pub mod Catalog
pub mod Optimizations
pub mod Sequence
pub mod Ast
pub mod TransformHelpers
pub mod AstToIr
pub mod AbstractToIr
pub mod PostProcessing
pub mod Heap
pub mod Materialize
pub mod Pipeline
pub mod WorkItems
pub mod Server
pub mod JsonPlan
pub mod Framing
pub mod ThreadPool
pub mod Names
pub mod Tests
