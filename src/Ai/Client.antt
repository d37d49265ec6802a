-- ===== src/Ai/Client.antt =====
-- clients/openrouter.py `OpenRouterClient.chat_completion`: a call of the language model over HTTP.
pub mod Types
pub mod Reading
pub mod Completion
pub mod Ending
