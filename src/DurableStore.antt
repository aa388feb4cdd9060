-- ===== src/DurableStore.antt =====
-- storage/durable_store.cpp: the simulated disk, a flushed prefix and a tail that a crash loses.
pub mod Laws
mod Tests
use sim_kv.Prelude.{ℕ, ◌-◌, ◌≤◌, List, [], ◌++◌, leb, if◌then◌else◌, length, take, replicate}
use sim_kv.Types.{Bytes}

pub record DurableStore : Type 0 where
  pub content : Bytes
  pub flushed_end : ℕ

abbrev pub empty : DurableStore
empty = record { content = []; flushed_end = 0 }

-- std::vector::resize, which pads with zeros
abbrev pub resize : ℕ → Bytes → Bytes
resize n bs = take n bs ++ replicate (n - length bs) 0

unfoldable pub append : Bytes → DurableStore → DurableStore
append bytes d = record d { content = d.content ++ bytes }

unfoldable pub flush : DurableStore → DurableStore
flush d = record d { flushed_end = length d.content }

unfoldable pub crash : DurableStore → DurableStore
crash d = record d { content = resize d.flushed_end d.content }

unfoldable pub read_durable : DurableStore → Bytes
read_durable d = take d.flushed_end d.content

unfoldable pub read_all : DurableStore → Bytes
read_all d = d.content

unfoldable pub truncate_to : ℕ → DurableStore → DurableStore
truncate_to offset d = record d {
  content = if leb offset (length d.content) then resize offset d.content else d.content;
  flushed_end = if leb offset d.flushed_end then offset else d.flushed_end;
}

unfoldable pub durable_size : DurableStore → ℕ
durable_size d = d.flushed_end

unfoldable pub total_size : DurableStore → ℕ
total_size d = length d.content
