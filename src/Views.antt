-- ===== src/Views.antt =====
-- The logic of pkg/ui/views and pkg/ui/components, apart from drawing.
pub mod ContainerTree
pub mod ImageList
pub mod Merged
pub mod Nodes
pub mod MountGroups
pub mod AutoRefresh
pub mod Top
