-- ===== src/Tests.antt =====
-- Runs of the models on concrete inputs, and the theorems applied to them.
mod Plan
mod Chat
mod Slots
mod Auth
mod Config
mod Redis
mod Health
mod Wired
mod Api
mod Providers
mod ProviderKeys
mod Metrics
mod Adapters
mod RedisClient
mod Edge
mod Vault
mod Boot
