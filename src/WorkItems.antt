-- ===== src/WorkItems.antt =====
-- From the plan to the messages for the engine: src/ir/ir_to_api.cpp, include/translation/item_builder.hpp,
-- src/translation/item_builder.cpp and proto/WorkItem.proto.
pub mod Messages
pub mod Builder
pub mod Api
pub mod Numbered
pub mod Fields
pub mod Shaped
