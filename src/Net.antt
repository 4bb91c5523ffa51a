-- ===== src/Net.antt =====
-- hostd/src/net: the subnet allocator and its manager.
pub mod Cidr
pub mod Types
pub mod State
pub mod Manager
use tikovm.Prelude.{ℕ, Text, bytes}

-- Host interface names are limited to 15 bytes.
abbrev pub ifnamsiz_max : ℕ
ifnamsiz_max = 15

abbrev pub bridge_prefix : Text
bridge_prefix = bytes "tbr-"
