-- ===== src/Kernel/Fdt.antt =====
-- src/kernel/devicetree/fdt: the reader of the flattened device tree. The memory that the blob lies in is a
-- function from an address to a byte; a null pointer is 0; a `&str` is its bytes.
pub mod Memory
pub mod Header
pub mod Reserve
pub mod RawProp
pub mod Block
pub mod Nodes
pub mod Parse
