-- ===== src/Lanes.antt =====
-- blockbuster/lanes: the particular lanes, their mempools and the priorities of their transactions.
pub mod Priority
pub mod Texts
pub mod Pool
pub mod Build
pub mod Held
pub mod Tops
pub mod Made
pub mod Terminator
