-- ===== src/Metrics.antt =====
-- The metrics of tasks and proplets: the records of pkg/proplet/metrics.go and of
-- pkg/storage/repository.go, and the readers of manager/service.go that take them from messages. A float is
-- its bit pattern; `Conversions` are Go's conversions of floats, whose results past a type's bounds
-- are left to the machine.
pub mod Store
use propeller.Prelude.{ℕ, String, Option, none, some}
use propeller.Value.{Value, float64, Fields, get_field}

pub record Conversions : Type 0 where
  pub to_uint64 : ℕ → ℕ
  pub to_int64 : ℕ → ℕ
  pub to_int32 : ℕ → ℕ
  pub to_float32 : ℕ → ℕ

pub record CpuMetrics : Type 0 where
  pub user_seconds : ℕ
  pub system_seconds : ℕ
  pub percent : ℕ

pub record MemoryMetrics : Type 0 where
  pub rss_bytes : ℕ
  pub heap_alloc_bytes : ℕ
  pub heap_sys_bytes : ℕ
  pub heap_inuse_bytes : ℕ
  pub container_usage_bytes : Option ℕ
  pub container_limit_bytes : Option ℕ

pub record ProcessMetrics : Type 0 where
  pub cpu_percent : ℕ
  pub memory_bytes : ℕ
  pub memory_percent : ℕ
  pub disk_read_bytes : ℕ
  pub disk_write_bytes : ℕ
  pub uptime_seconds : ℕ
  pub thread_count : ℕ
  pub file_descriptor_count : ℕ

pub record AggregatedMetrics : Type 0 where
  pub avg_cpu_usage : ℕ
  pub max_cpu_usage : ℕ
  pub avg_memory_usage : ℕ
  pub max_memory_usage : ℕ
  pub total_disk_read : ℕ
  pub total_disk_write : ℕ
  pub sample_count : ℕ

pub record TaskMetrics : Type 0 where
  pub task_id : String
  pub proplet_id : String
  pub metrics : ProcessMetrics
  pub aggregated : Option AggregatedMetrics
  pub timestamp : ℕ

pub record PropletMetrics : Type 0 where
  pub proplet_id : String
  pub namespace : String
  pub timestamp : ℕ
  pub cpu : CpuMetrics
  pub memory : MemoryMetrics

as_float : (ℕ → ℕ) → Option Value → Option ℕ
as_float convert (some (float64 bits)) = some (convert bits)
as_float convert _ = none

-- A float of the message, converted.
float_of : (ℕ → ℕ) → Fields → String → Option ℕ
unfolding as_float get_field
float_of convert values key = as_float convert (get_field values key)

or_zero : Option ℕ → ℕ
or_zero none = 0
or_zero (some n) = n

-- A field that stays 0 unless the message has a float for it.
read_float : (ℕ → ℕ) → Fields → String → ℕ
unfolding or_zero float_of
read_float convert values key = or_zero (float_of convert values key)

unfoldable same_bits : ℕ → ℕ
same_bits bits = bits

unfoldable pub parse_cpu_metrics : Fields → CpuMetrics
unfolding read_float same_bits
parse_cpu_metrics values = record {
  user_seconds = read_float same_bits values "user_seconds";
  system_seconds = read_float same_bits values "system_seconds";
  percent = read_float same_bits values "percent";
}

module _ (conv : Conversions) where
  unfoldable pub parse_memory_metrics : Fields → MemoryMetrics
  unfolding read_float float_of
  parse_memory_metrics values = record {
    rss_bytes = read_float conv.to_uint64 values "rss_bytes";
    heap_alloc_bytes = read_float conv.to_uint64 values "heap_alloc_bytes";
    heap_sys_bytes = read_float conv.to_uint64 values "heap_sys_bytes";
    heap_inuse_bytes = read_float conv.to_uint64 values "heap_inuse_bytes";
    container_usage_bytes = float_of conv.to_uint64 values "container_usage_bytes";
    container_limit_bytes = float_of conv.to_uint64 values "container_limit_bytes";
  }

  unfoldable pub parse_process_metrics : Fields → ProcessMetrics
  unfolding read_float same_bits
  parse_process_metrics values = record {
    cpu_percent = read_float same_bits values "cpu_percent";
    memory_bytes = read_float conv.to_uint64 values "memory_bytes";
    memory_percent = read_float conv.to_float32 values "memory_percent";
    disk_read_bytes = read_float conv.to_uint64 values "disk_read_bytes";
    disk_write_bytes = read_float conv.to_uint64 values "disk_write_bytes";
    uptime_seconds = read_float conv.to_int64 values "uptime_seconds";
    thread_count = read_float conv.to_int32 values "thread_count";
    file_descriptor_count = read_float conv.to_int32 values "file_descriptor_count";
  }

  unfoldable pub parse_aggregated_metrics : Fields → AggregatedMetrics
  unfolding read_float same_bits
  parse_aggregated_metrics values = record {
    avg_cpu_usage = read_float same_bits values "avg_cpu_usage";
    max_cpu_usage = read_float same_bits values "max_cpu_usage";
    avg_memory_usage = read_float conv.to_uint64 values "avg_memory_usage";
    max_memory_usage = read_float conv.to_uint64 values "max_memory_usage";
    total_disk_read = read_float conv.to_uint64 values "total_disk_read";
    total_disk_write = read_float conv.to_uint64 values "total_disk_write";
    sample_count = read_float conv.to_int64 values "sample_count";
  }
