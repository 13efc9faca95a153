-- ===== src/Upstream.antt =====
-- src/client/upstream.rs: an upstream with its latency history. The `Arc` of a `TrackedUpstream` is
-- a number, which tells allocations apart, beside the upstream; the atomic of its `LatencyTracker`
-- is a cell of `Latencies` under that number.
pub mod Latency
use dnsproxy_rs.Dns.{Hickory, Message}
use dnsproxy_rs.Error.{Result, ok, err, panic}
use dnsproxy_rs.Prelude.{
  ℕ, ◌+◌, ◌-◌, ◌*◌, ◌/◌, ◌^◌, Bool, Option, none, some, ◌==◌, ltb, if◌then◌else◌, min,
}

-- `u64::MAX`
abbrev pub u64_max : ℕ
u64_max = 2 ^ 64 - 1

-- The arithmetic of f64 that the average uses; `to_u64` is the cast `as u64`.
pub record Floats : Type 1 where
  pub F64 : Type 0
  pub from_u64 : ℕ → F64
  pub to_u64 : F64 → ℕ
  pub one : F64
  -- the constant 0.3, `EMA_ALPHA`
  pub ema_alpha : F64
  pub plus : F64 → F64 → F64
  pub minus : F64 → F64 → F64
  pub times : F64 → F64 → F64
  pub round : F64 → F64

-- `avg_micros` of a tracker: `LatencyTracker::new`.
abbrev pub new_tracker : ℕ
new_tracker = u64_max

-- The value of the derived `Default`.
abbrev pub default_tracker : ℕ
default_tracker = 0

module _ (f : Floats) where
  unfoldable pub average_with : ℕ → ℕ → ℕ
  average_with prev sample = f.to_u64 (
      f.round (
        f.plus (f.times f.ema_alpha (f.from_u64 sample))
          (f.times (f.minus f.one f.ema_alpha) (f.from_u64 prev))))

  -- `LatencyTracker::record` of a time in nanoseconds: the new value of the atomic
  unfoldable pub record_latency : ℕ → ℕ → ℕ
  unfolding average_with
  record_latency elapsed prev =
      let sample = min (elapsed / 1000) u64_max in
      if prev == u64_max then sample else average_with prev sample

-- `LatencyTracker::average`, in nanoseconds
unfoldable pub average : ℕ → Option ℕ
average avg_micros = if avg_micros == u64_max then none else some (avg_micros * 1000)

-- `Arc<TrackedUpstream>`
pub record Tracked (U : Type 0) : Type 0 where
  pub id : ℕ
  pub upstream : U

-- The trackers' atomics, by allocation.
abbrev pub Latencies : Type 0
Latencies = ℕ → ℕ

unfoldable pub update : Latencies → ℕ → ℕ → Latencies
update l i v j = if i == j then v else l j

module _ {h : Hickory} {U W : Type 0} (f : Floats)
    (inner : U → Message h → W → Result (Message h) × W) where
  unfoldable pub note : ℕ → ℕ → Result (Message h) → Latencies → Latencies
  unfolding record_latency update
  note id elapsed (ok resp) l = update l id (record_latency f elapsed (l id))
  note id elapsed (err e) l = l
  note id elapsed panic l = l

  -- `TrackedUpstream::exchange`; `inner` is `Upstream::exchange`, and `elapsed` the time it took.
  unfoldable pub exchange :
      Tracked U → ℕ → Message h → Latencies × W → Result (Message h) × (Latencies × W)
  unfolding note
  exchange u elapsed req (l, w) =
      let (r, w') = inner u.upstream req w in (r, (note u.id elapsed r l, w'))
