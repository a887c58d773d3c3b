-- ===== src/Tests/Api.antt =====
-- Refusals on the wire.
use llmgateway_go.Prelude.{ℕ, ◌*◌, ◌+◌, ◌≤◌, ◌<◌, ◌≡◌, refl, some, arith}
use llmgateway_go.Prelude.Int.{pos, ◌+ℤ◌, wrap64}
use llmgateway_go.Gateway.Faults.{Error, quota_exceeded, over_rate_quota}
use llmgateway_go.Api.{
  of_gateway, canceled, write_chat_error, write_error, from_gateway_error, status_for, ceil_seconds,
  write_chat_error-retry, Says,
}

abbrev refusal : Error
refusal = record {
  code = quota_exceeded;
  message = over_rate_quota "rag";
  retry_after = pos 1_200_000_000;
  quota = some (record { limit = pos 5; window_seconds = pos 1; used = pos 6 });
  max_in_flight = pos 0;
  requested_model = "";
}

two_seconds :
    ((write_chat_error (of_gateway refusal)).retry_after ≡ some (pos 2))
    × ((write_chat_error (of_gateway refusal)).status ≡ 429)
    × ((write_chat_error canceled).status ≡ 499)
unfolding write_chat_error write_error from_gateway_error status_for ceil_seconds wrap64 ◌+ℤ◌
two_seconds = (refl, refl, refl)

write_chat_error-retry_example :
    ((write_chat_error (of_gateway refusal)).status ≡ status_for quota_exceeded)
    × ((s : ℕ) × ((write_chat_error (of_gateway refusal)).retry_after ≡ some (pos s))
        × (1_200_000_000 ≤ s * 1_000_000_000)
        × (s * 1_000_000_000 < 1_200_000_000 + 1_000_000_000)
        × Says refusal s (write_chat_error (of_gateway refusal)).body)
write_chat_error-retry_example =
    write_chat_error-retry refusal 1_200_000_000 refl (ground arith) (ground arith)
