-- ===== src/Probe.antt =====
-- src/turbo/turbo_hash.h, class ProbeWithinBucket: linear probing from a key's home cell.
pub mod Path
use turbo_hash.Common.{ℕ, ◌+◌, ◌%◌, ◌^◌, Bool, bit_and, leb}

abbrev pub max_probe_len : ℕ
max_probe_len = 15

abbrev pub probe_step : ℕ
probe_step = 1

pub record Probe : Type 0 where
  pub h : ℕ
  pub cell_count_mask : ℕ
  pub cell_index : ℕ
  pub bucket_i : ℕ
  pub probe_count : ℕ

-- `ProbeWithinBucket (initial_hash, cell_count_mask, bucket_i)`
unfoldable pub new : ℕ → ℕ → ℕ → Probe
new initial_hash mask bucket = record {
  h = initial_hash;
  cell_count_mask = mask;
  cell_index = bit_and initial_hash mask % 2 ^ 32;
  bucket_i = bucket;
  probe_count = 0;
}

-- `operator bool`
unfoldable pub to_bool : Probe → Bool
to_bool p = leb p.probe_count p.cell_count_mask

-- `next`
unfoldable pub next : Probe → Probe
next p = record p {
  cell_index = bit_and ((p.cell_index + probe_step) % 2 ^ 32) p.cell_count_mask;
  probe_count = (p.probe_count + 1) % 2 ^ 32;
}
