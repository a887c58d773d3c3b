-- ===== src/Redis/Store.antt =====
-- What the limiters use of Redis, and of the client of internal/redis/client.go that asks it.
use llmgateway_go.Prelude.{ℕ, ◌+◌, ◌-◌, ◌*◌, ◌<◌, String, ◌≡◌, ◌≢◌, ◌⊎◌}
use llmgateway_go.Gateway.Ports.{Answer, down, says}

-- The key of a counter is its format with its arguments: an app and the number of a window. The
-- number has no colon, so that no two pairs are written the same way.
pub data Key : Type 0 where
  rps tpm : String → ℕ → Key

-- The commands that the scripts call, over the states `W` of the server. A script is atomic.
pub record Store (W : Type 0) : Type 0 where
  -- a counter, 0 where the key is missing or expired
  pub value : Key → W → ℕ
  -- how many nanoseconds the key has left
  pub left : Key → W → ℕ
  -- INCRBY; INCR adds 1
  pub incr_by : Key → ℕ → W → ℕ × W
  -- EXPIRE, in seconds
  pub expire : Key → ℕ → W → W
  -- nanoseconds pass
  pub wait : ℕ → W → W

-- What Redis documents of them.
pub record Documented {W : Type 0} (s : Store W) : Type 0 where
  pub incr_by-result : (k : Key) (n : ℕ) (w : W) → (s.incr_by k n w).0 ≡ s.value k w + n
  pub incr_by-value : (k : Key) (n : ℕ) (w : W) → s.value k (s.incr_by k n w).1 ≡ s.value k w + n
  pub incr_by-other :
      (k j : Key) (n : ℕ) (w : W) → j ≢ k → s.value j (s.incr_by k n w).1 ≡ s.value j w
  pub incr_by-left : (k j : Key) (n : ℕ) (w : W) → s.left j (s.incr_by k n w).1 ≡ s.left j w
  pub expire-value : (k j : Key) (n : ℕ) (w : W) → s.value j (s.expire k n w) ≡ s.value j w
  pub expire-left : (k : Key) (n : ℕ) (w : W) → s.left k (s.expire k n w) ≡ n * 1_000_000_000
  pub expire-other : (k j : Key) (n : ℕ) (w : W) → j ≢ k → s.left j (s.expire k n w) ≡ s.left j w
  pub wait-value :
      (k : Key) (d : ℕ) (w : W)
      → (d < s.left k w) ⊎ (s.value k w ≡ 0)
      → s.value k (s.wait d w) ≡ s.value k w
  pub wait-left : (k : Key) (d : ℕ) (w : W) → s.left k (s.wait d w) ≡ s.left k w - d

-- What becomes of one command on the network: the server never gets it, or its answer is lost, or
-- all is well.
pub data Reach : Type 0 where
  lost_before lost_after answered : Reach

-- Client.Int
abbrev pub ask : {W : Type 0} → Reach → (W → ℕ × W) → W → Answer ℕ × W
ask lost_before script w = (down, w)
ask lost_after script w = (down, (script w).1)
ask answered script w = let (n, w') = script w in (says n, w')
