-- ===== src/Adapters.antt =====
-- internal/openai, internal/anthropic and internal/ollama: the three provider adapters. Exchange is what
-- their Complete methods share, one module each has the dialect, and Unusable, Order, Calls and Minted
-- hold the theorems.
pub mod Exchange
pub mod OpenAi
pub mod Anthropic
pub mod Ollama
pub mod Accounts
pub mod Turns
pub mod Calls
