-- ===== src/Cache/Pipeline.antt =====
-- redis_kit/cache/_logic.py without the parsing of TTL texts: `DataPipeline` and `apply_jitter`.
use redis_kit.Common.{
  ℕ, zero, suc, ◌+◌, ◌-◌, ◌*◌, ◌≤◌, min, max, ◌≡◌, ◌≢◌, refl, Bool, true, false, Option, none, some,
  arith, Result, ok, err, if◌then◌else◌,
}
use redis_kit.Redis.Keyspace.{Datum, text, datum_eq, datum_eq_iff}

-- What a read of the cache gives: `_MISS`, or a value, which may be Python's `None`.
pub data Fetched {ℓ} (V : Type ℓ) : Type ℓ where
  miss : Fetched V
  hit : Option V → Fetched V

pub record Compressor : Type 0 where
  pub compress : Datum → Result Datum
  pub decompress : Datum → Result Datum

-- `DataPipeline`: the serializer and the compressor that the caller chose.
pub record DataPipeline {ℓ} (V : Type ℓ) : Type ℓ where
  pub dumps : V → Result Datum
  pub loads : Datum → Result (Option V)
  pub compressor : Option Compressor

abbrev pub none_marker : Datum
none_marker = text "\0__REDIS_KIT_NONE__\0"

abbrev pub then_compress : Option Compressor → Result Datum → Result Datum
then_compress _ (err e) = err e
then_compress none (ok d) = ok d
then_compress (some c) (ok d) = c.compress d

abbrev pub decompressed : Option Compressor → Datum → Result Datum
decompressed none d = ok d
decompressed (some c) d = c.decompress d

module _ {ℓ} {V : Type ℓ} where
  unfoldable pub encode : DataPipeline V → Option V → Result Datum
  encode self none = ok none_marker
  encode self (some v) = then_compress self.compressor (self.dumps v)

  abbrev pub as_hit : Result (Option V) → Result (Fetched V)
  as_hit (ok v) = ok (hit v)
  as_hit (err e) = err e

  abbrev pub then_load : DataPipeline V → Result Datum → Result (Fetched V)
  then_load self (ok d) = as_hit (self.loads d)
  then_load self (err e) = err e

  unfoldable pub decode : DataPipeline V → Option Datum → Result (Fetched V)
  decode self none = ok miss
  decode self (some d) =
      if datum_eq d none_marker
      then ok (hit none)
      else then_load self (decompressed self.compressor d)

  -- The serializer and the compressor undo themselves, and never produce the marker of `None`.
  pub record IsLossless (self : DataPipeline V) : Type ℓ where
    pub load-dump : (v : V) (d : Datum) → self.dumps v ≡ ok d → self.loads d ≡ ok (some v)
    pub decompress-compress :
        (c : Compressor) (d b : Datum)
        → self.compressor ≡ some c
        → c.compress d ≡ ok b
        → c.decompress b ≡ ok d
    pub no_marker :
        (v : V) (d : Datum) → then_compress self.compressor (self.dumps v) ≡ ok d → d ≢ none_marker

  -- Whatever was encoded, `None` included, decodes to the value that it was.
  pub decode-encode :
      (self : DataPipeline V) (v : Option V) (d : Datum)
      → IsLossless self
      → encode self v ≡ ok d
      → decode self (some d) ≡ ok (hit v)
  unfolding encode decode
  decode-encode self none d l e = ground (arith, datum_eq_iff d none_marker)
  decode-encode self (some v) d l e = go (self.dumps v) refl self.compressor refl
    where
      go :
          (dumped : Result Datum)
          → self.dumps v ≡ dumped
          → (c : Option Compressor) → self.compressor ≡ c
          → decode self (some d) ≡ ok (hit (some v))
      go (err x) p c q = ground arith
      go (ok b) p none q =
          ground (arith, datum_eq_iff d none_marker, l.no_marker v d, l.load-dump v b)
      go (ok b) p (some c) q = ground (
        arith,
        datum_eq_iff d none_marker,
        l.no_marker v d,
        l.load-dump v b,
        l.decompress-compress c b d,
      )

-- `apply_jitter`: `share` is `int(ttl * jitter)`, for a jitter above 0, and `draw - share` what
-- `random.randint(-share, share)` returns. The ℕ-subtraction stops at 0, where `max` gives 1.
unfoldable pub apply_jitter : (ℕ → ℕ) → Bool → ℕ → ℕ → ℕ
apply_jitter share off draw zero = zero
apply_jitter share true draw (suc ttl) = suc ttl
apply_jitter share false draw (suc ttl) = max 1 (suc ttl + draw - share (suc ttl))

-- For a draw of at most twice the share, the TTL falls by the share at most and rises by it at
-- most, where a TTL of 0 counts as 1, and a positive TTL stays positive.
pub apply_jitter_bounds :
    (share : ℕ → ℕ) (off : Bool) (draw ttl : ℕ)
    → draw ≤ 2 * share ttl
    → (ttl ≤ apply_jitter share off draw ttl + share ttl)
      × (apply_jitter share off draw ttl ≤ max ttl 1 + share ttl)
      × (min ttl 1 ≤ apply_jitter share off draw ttl)
unfolding apply_jitter
apply_jitter_bounds share off draw zero le = ground arith
apply_jitter_bounds share true draw (suc ttl) le = ground arith
apply_jitter_bounds share false draw (suc ttl) le = ground arith
