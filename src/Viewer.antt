-- ===== src/Viewer.antt =====
-- client: the viewer, which shows the interface that the sysmodule draws and sends it the input.
pub mod Keys
pub mod Input
pub mod Link
pub mod Run
mod Examples
